-- ===== src/Health.antt =====
-- internal/server/health.go: the handlers for the health of the relay. A checker is its name and what its
-- Check returns.
mod Tests
use alertmanager_webhook_rel.Middleware.{Act, writes, writes_header}
use alertmanager_webhook_rel.Base.{
  Dict, List, Option, Text, [], arith, at, if◌then◌else◌, inr, none, refl, some, str, subst,
  text_eq, text_eq_iff, ℕ, ℤ, ◌↔◌, ◌∷◌, ◌≡◌, ◌⊎◌,
}

abbrev pub unhealthy : Text
unhealthy = str "unhealthy"

-- `m[k] = v`
unfoldable pub put : Text → Text → Dict → Dict
put k v [] = (k, v) ∷ []
put k v ((j, u) ∷ m) = let rest = put k v m in if text_eq j k then (j, v) ∷ m else (j, u) ∷ rest

-- The loop over the checkers.
unfoldable pub failed_checks : List (Text × Option Text) → Dict → Dict
failed_checks [] failed = failed
failed_checks ((name, none) ∷ checkers) failed = failed_checks checkers failed
failed_checks ((name, some e) ∷ checkers) failed =
    failed_checks checkers (put name unhealthy failed)

-- The JSON object of the response.
pub data Readiness : Type 0 where
  ready : Readiness
  not_ready : Dict → Readiness

-- The response to the map of failed checks.
unfoldable pub readiness : Dict → ℕ × Readiness
readiness [] = (200, ready)
readiness (f ∷ fs) = (503, not_ready (f ∷ fs))

unfoldable pub handle_readyz : List (Text × Option Text) → ℕ × Readiness
unfolding readiness
handle_readyz checkers = readiness (failed_checks checkers [])

abbrev pub ok_json : Text
ok_json = str "{\"status\":\"ok\"}"

-- `WriteHeader` and `Write`, which returns `n`.
unfoldable pub writes_json : ℕ → Text → ℕ → List Act
writes_json code json n = writes_header code ∷ writes json n ∷ []

-- How the readiness handler writes its response; `marshal` is `json.Marshal` of it.
unfoldable pub write_readiness : (Dict → Text) → ℕ → ℕ × Readiness → List Act
unfolding writes_json
write_readiness marshal n (code, ready) = writes_json code ok_json n
write_readiness marshal n (code, not_ready failed) = writes_json code (marshal failed) n

unfoldable pub handle_healthz : ℕ → List Act
unfolding writes_json
handle_healthz n = writes_json 200 ok_json n

-- How long the handler sleeps, and what it does then.
unfoldable pub handle_pre_stop : ℤ → ℕ → ℤ × List Act
unfolding writes_json
handle_pre_stop delay n = (delay, writes_json 200 ok_json n)

-- A checker of this name returned an error.
abbrev pub HasFailed : Text → List (Text × Option Text) → Type 0
HasFailed name [] = ⊥
HasFailed name ((other, none) ∷ checkers) = HasFailed name checkers
HasFailed name ((other, some e) ∷ checkers) = (other ≡ name) ⊎ HasFailed name checkers

at-put : (k v : Text) (m : Dict) (j : Text) → at (put k v m) j ≡ (if text_eq k j then v else at m j)
unfolding at put
at-put k v [] j = refl
at-put k v ((i, u) ∷ m) j =
    ground (arith, at-put k v m j, text_eq_iff i k, text_eq_iff i j, text_eq_iff k j)

-- The entries of the map are "unhealthy".
at-failed_checks :
    (checkers : List (Text × Option Text)) (failed : Dict) (name : Text)
    → (at (failed_checks checkers failed) name ≡ unhealthy)
      ↔ ((at failed name ≡ unhealthy) ⊎ HasFailed name checkers)
unfolding failed_checks
at-failed_checks [] failed name = ground arith
at-failed_checks ((other, none) ∷ checkers) failed name = at-failed_checks checkers failed name
at-failed_checks ((other, some e) ∷ checkers) failed name =
    let rest = at-failed_checks checkers (put other unhealthy failed) name in
    ground (arith, at-put other unhealthy failed name, text_eq_iff other name)

abbrev pub Answers : ℕ × Readiness → List (Text × Option Text) → Type 0
Answers (code, ready) checkers = (code ≡ 200) × ((name : Text) → ¬ HasFailed name checkers)
Answers (code, not_ready failed) checkers =
    (code ≡ 503) × ((name : Text) → (at failed name ≡ unhealthy) ↔ HasFailed name checkers)

readiness-Answers :
    (checkers : List (Text × Option Text)) (failed : Dict)
    → failed_checks checkers [] ≡ failed
    → Answers (readiness failed) checkers
unfolding readiness at
readiness-Answers checkers [] e = (
  refl,
  λ name h.
      let hit = (at-failed_checks checkers [] name).1 (inr h) in
      let here : at [] name ≡ unhealthy = subst (λ m. at m name ≡ unhealthy) e hit in cc,
)
readiness-Answers checkers (f ∷ fs) e = (
  refl,
  λ name.
      subst (λ m. (at m name ≡ unhealthy) ↔ HasFailed name checkers) e
        (ground (arith, at-failed_checks checkers [] name)),
)

-- The readiness handler answers 200 if no checker returned an error, and otherwise 503 with a map in
-- which exactly the names of the failed checkers are "unhealthy".
pub handle_readyz-Answers :
    (checkers : List (Text × Option Text)) → Answers (handle_readyz checkers) checkers
unfolding handle_readyz
handle_readyz-Answers checkers = readiness-Answers checkers (failed_checks checkers []) refl

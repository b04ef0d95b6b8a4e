-- ===== src/Relay/Ready.antt =====
-- main.go: the readiness of the assembled server.
use alertmanager_webhook_rel.Base.{
  Bool, Dict, List, Option, Option-cases, Text, [], arith, at, false, inl, inr, none, refl, some,
  str, text_eq, true, ℕ, ℤ, ◌↔◌, ◌∷◌, ◌≡◌, ◌≢◌, ◌⊎◌,
}
use alertmanager_webhook_rel.Middleware.{
  Sent, served, header, chunk, chain, logging, recovery, recovered, handler_of,
  flushed_unless_panic, perform_all, perform, write, write_header, flush_header,
}
use alertmanager_webhook_rel.Health.{
  handle_readyz, failed_checks, put, readiness, unhealthy, ok_json, write_readiness, writes_json,
}
use alertmanager_webhook_rel.Notify.Dispatcher
use alertmanager_webhook_rel.Storage
use alertmanager_webhook_rel.Storage.{Codec}
use alertmanager_webhook_rel.Storage.Rows.{Tables}
use alertmanager_webhook_rel.Relay.{Relay}
use alertmanager_webhook_rel.Relay.Http.{
  Texts, gets_ready, respond_to, handle_request, checkers, error_of,
}

-- The write of the check succeeds, on a row that is there.
abbrev pub IsWritable : Bool → Tables → Type 0
IsWritable exec_fails t = (exec_fails ≡ false) × (t.health_check ≢ none)

abbrev pub IsRunning : Relay → Type 0
IsRunning r = r.dispatcher.running ≡ true

-- The response to the results of the two checks.
abbrev pub Reports : (Dict → Text) → Type 0 → Type 0 → List Sent → Type 0
Reports checks_json Writable Running out =
    ((out ≡ header 200 ∷ chunk ok_json ∷ []) × Writable × Running)
    ⊎ ((failed : Dict) × (out ≡ header 503 ∷ chunk (checks_json failed) ∷ [])
        × ((at failed (str "sqlite") ≡ unhealthy) ↔ (¬ Writable))
        × ((at failed (str "dispatcher") ≡ unhealthy) ↔ (¬ Running))
        × ((¬ Writable) ⊎ (¬ Running)))

module _ (checks_json : Dict → Text) (n : ℕ) where
  served-Reports :
      (Writable Running : Type 0) (stored running : Option Text)
      → (stored ≡ none) ↔ Writable
      → (running ≡ none) ↔ Running
      → Reports checks_json Writable Running
          (served
            (write_readiness checks_json n
              (handle_readyz ((str "sqlite", stored) ∷ (str "dispatcher", running) ∷ [])))
            false
            n).0.out
  unfolding handle_readyz failed_checks put readiness write_readiness writes_json served chain
      handler_of logging recovery recovered flushed_unless_panic perform_all perform write
      write_header flush_header text_eq at
  served-Reports W R none none s d = inl (refl, s.0 refl, d.0 refl)
  served-Reports W R (some e) none s d = inr (
    _,
    refl,
    (λ h fine. let x = s.1 fine in cc, λ h. refl),
    (λ h. absurd (cc), λ h. absurd (h (d.0 refl))),
    inl (λ fine. let x = s.1 fine in cc),
  )
  served-Reports W R none (some e) s d = inr (
    _,
    refl,
    (λ h. absurd (cc), λ h. absurd (h (s.0 refl))),
    (λ h fine. let x = d.1 fine in cc, λ h. refl),
    inr (λ fine. let x = d.1 fine in cc),
  )
  served-Reports W R (some e) (some f) s d = inr (
    _,
    refl,
    (λ h fine. let x = s.1 fine in cc, λ h. refl),
    (λ h fine. let x = d.1 fine in cc, λ h. refl),
    inl (λ fine. let x = s.1 fine in cc),
  )

check-IsWritable_iff :
    (texts : Texts) (exec_fails : Bool) (now : ℕ) (t : Tables)
    → (error_of texts (Storage.check exec_fails now t).0 ≡ none) ↔ IsWritable exec_fails t
unfolding error_of Storage.check
check-IsWritable_iff texts true now t = (λ h. absurd (cc), λ (h, _). absurd (cc))
check-IsWritable_iff texts false now t = elim (Option-cases t.health_check) [
  | inl missing ↦ rw missing (λ h. absurd (cc), λ (_, h). absurd (h refl))
  | inr (at_time, there) ↦ rw there (λ h. (refl, λ k. cc), λ h. refl)
]

check-IsRunning_iff : (r : Relay) → (Dispatcher.check r.dispatcher ≡ none) ↔ IsRunning r
unfolding Dispatcher.check
check-IsRunning_iff r = ground arith

-- The client of the readiness route receives 200 with the status ok exactly if the write to the database
-- succeeds, on the row of health_check, and the dispatcher runs. Otherwise it receives 503 with
-- a map in which "sqlite" is unhealthy exactly if the write does not succeed, and "dispatcher" exactly if
-- the dispatcher does not run.
pub respond_to-Reports :
    (texts : Texts) (codec : Codec) (max_alerts delay : ℤ) (n : ℕ) (exec_fails : Bool) (now : ℕ)
    (r : Relay)
    → Reports texts.checks_json
        (IsWritable exec_fails r.tables)
        (IsRunning r)
        (respond_to texts codec max_alerts delay n (gets_ready exec_fails now) r).0.0.out
unfolding respond_to handle_request checkers
respond_to-Reports texts codec max_alerts delay n exec_fails now r =
    served-Reports texts.checks_json n (IsWritable exec_fails r.tables) (IsRunning r) _ _
      (check-IsWritable_iff texts exec_fails now r.tables) (check-IsRunning_iff r)

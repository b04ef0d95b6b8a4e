-- ===== src/Dialogue.antt =====
-- Calls of an outside party that are made one by one, up to the first that fails: the SMTP dialogue of
-- internal/channel/email/sender.go, the pragmas of internal/storage/sqlite/store.go.
use alertmanager_webhook_rel.Base.{
  List, Option, Text, [], ap, append_nil, none, refl, snoc-append, some, subst, sym, ◌++◌, ◌∙◌, ◌∷◌,
  ◌≡◌,
}

-- The error of a command after the commands before it, or none.
abbrev pub Answers : Type 0 → Type 0
Answers Command = List Command → Command → Option Text

module _ {Command : Type 0} where
  -- The answer to a command: an error ends the run, otherwise it goes on.
  unfoldable pub after_answer :
      Command
      → List Command
      → Option (Command × Text) × List Command
      → Option Text
      → Option (Command × Text) × List Command
  after_answer c done rest none = rest
  after_answer c done rest (some e) = (some (c, e), done ++ c ∷ [])

  -- The commands are given one by one; the first error ends the run. In the result are the command that
  -- failed with its error, if any, and all the commands given.
  unfoldable pub perform :
      Answers Command → List Command → List Command → Option (Command × Text) × List Command
  unfolding after_answer
  perform answers done [] = (none, done)
  perform answers done (c ∷ cs) =
      let rest = perform answers (done ++ c ∷ []) cs in after_answer c done rest (answers done c)

  -- Each of these commands succeeds, after those before it.
  abbrev pub AllSucceed : Answers Command → List Command → List Command → Type 0
  AllSucceed answers done [] = Unit
  AllSucceed answers done (c ∷ cs) =
      (answers done c ≡ none) × AllSucceed answers (done ++ c ∷ []) cs

  -- The run of these commands stops at the first that fails, if any does.
  abbrev pub Stops :
      Answers Command
      → List Command
      → List Command
      → Option (Command × Text) × List Command
      → Type 0
  Stops answers done cs (none, given) = (given ≡ done ++ cs) × AllSucceed answers done cs
  Stops answers done cs (some (c, e), given) =
      (before : List Command) × (behind : List Command) × (cs ≡ before ++ c ∷ behind)
      × AllSucceed answers done before
      × (answers (done ++ before) c ≡ some e)
      × (given ≡ done ++ before ++ c ∷ [])

  go_on :
      (answers : Answers Command) (done cs : List Command) (c : Command)
      (result : Option (Command × Text) × List Command)
      → answers done c ≡ none
      → Stops answers (done ++ c ∷ []) cs result
      → Stops answers done (c ∷ cs) result
  go_on answers done cs c (none, given) passed (e, all) = (e ∙ snoc-append done c cs, (passed, all))
  go_on answers done cs c (some (d, x), given) passed (before, behind, e, all, failed, g) = (
    c ∷ before,
    behind,
    ap (λ l. c ∷ l) e,
    (passed, all),
    subst (λ l. answers l d ≡ some x) (snoc-append done c before) failed,
    g ∙ ap (λ l. l ++ d ∷ []) (snoc-append done c before),
  )

  after_answer-Stops :
      (answers : Answers Command) (done cs : List Command) (c : Command)
      (rest : Option (Command × Text) × List Command)
      → Stops answers (done ++ c ∷ []) cs rest
      → (o : Option Text) → answers done c ≡ o
      → Stops answers done (c ∷ cs) (after_answer c done rest o)
  unfolding after_answer
  after_answer-Stops answers done cs c rest v none e = go_on answers done cs c rest e v
  after_answer-Stops answers done cs c rest v (some x) e = (
    [],
    cs,
    refl,
    tt,
    subst (λ l. answers l c ≡ some x) (sym (append_nil done)) e,
    ap (λ l. l ++ c ∷ []) (sym (append_nil done)),
  )

  pub perform-Stops :
      (answers : Answers Command) (done cs : List Command)
      → Stops answers done cs (perform answers done cs)
  unfolding perform
  perform-Stops answers done [] = (sym (append_nil done), tt)
  perform-Stops answers done (c ∷ cs) =
      after_answer-Stops answers done cs c (perform answers (done ++ c ∷ []) cs)
        (perform-Stops answers (done ++ c ∷ []) cs) (answers done c) refl

  after_answer_prefix :
      (c : Command) (done : List Command) (rest : Option (Command × Text) × List Command)
      (o : Option Text)
      → ((behind : List Command) × (rest.1 ≡ (done ++ c ∷ []) ++ behind))
      → (behind : List Command) × ((after_answer c done rest o).1 ≡ (done ++ c ∷ []) ++ behind)
  unfolding after_answer
  after_answer_prefix c done rest none h = h
  after_answer_prefix c done rest (some e) h = ([], sym (append_nil (done ++ c ∷ [])))

  -- The commands given begin with those given before.
  pub perform_prefix :
      (answers : Answers Command) (done cs : List Command)
      → (behind : List Command) × ((perform answers done cs).1 ≡ done ++ behind)
  unfolding perform
  perform_prefix answers done [] = ([], sym (append_nil done))
  perform_prefix answers done (c ∷ cs) =
      let (behind, e) =
        after_answer_prefix c done (perform answers (done ++ c ∷ []) cs) (answers done c)
          (perform_prefix answers (done ++ c ∷ []) cs) in
      (c ∷ behind, e ∙ snoc-append done c behind)

  pub perform-AllSucceed :
      (answers : Answers Command) (done cs : List Command)
      → AllSucceed answers done cs
      → perform answers done cs ≡ (none, done ++ cs)
  unfolding perform after_answer
  perform-AllSucceed answers done [] h = ap (λ l. (none, l)) (sym (append_nil done))
  perform-AllSucceed answers done (c ∷ cs) h = rw h.0 (
      perform-AllSucceed answers (done ++ c ∷ []) cs h.1
      ∙ ap (λ l. (none, l)) (snoc-append done c cs))

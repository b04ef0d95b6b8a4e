-- ===== src/Main/Outcome.antt =====
-- main.go: when `run` returns nil, with the configuration that `Load` returns.
use alertmanager_webhook_rel.Base.{
  Bool-cases, List, Option, Result, Result-cases, Text, [], arith, err, false, inl, inr, is_empty,
  none, ok, refl, some, str, subst, sym, text_eq, true, ◌↔◌, ◌∷◌, ◌≡◌, ◌≢◌, ◌⊎◌,
}
use alertmanager_webhook_rel.Config.Data.{Config, Parsers, Var, TemplateConfig}
use alertmanager_webhook_rel.Config.Load.{load}
use alertmanager_webhook_rel.Config.Load.Spec.{load-IsValid}
use alertmanager_webhook_rel.Config.Validate.Spec.{IsValid}
use alertmanager_webhook_rel.Storage.Connection.{OpenError, new_store, takes}
use alertmanager_webhook_rel.Storage.Connection.Lifetime.{Opens, new_store_ok_iff}
use alertmanager_webhook_rel.Template.{Engine, EngineError}
use alertmanager_webhook_rel.Main.{
  World, run, serve, wait, after_open, RunError, Effect, build_channels, server_error, shut_down,
  start_templates, open_store,
}

-- The mail channel is on, with a directory of templates.
abbrev pub UsesTemplates : Config → Type 0
UsesTemplates c = (c.email.enabled ≡ true) × (c.template.dir ≢ [])

wait_ok_iff :
    (ended shutdown : Option Text)
    → ((wait ended shutdown).1 ≡ none) ↔ ((ended ≡ none) × (shutdown ≡ none))
unfolding wait shut_down
wait_ok_iff (some e) shutdown = ground arith
wait_ok_iff none none = ground arith
wait_ok_iff none (some e) = ground arith

abbrev pub IsOk : {E A : Type 0} → Result E A → Type 0
IsOk {E} {A} r = (a : A) × (r ≡ ok a)

set_or_empty : (s : Text) → ((is_empty s ≡ true) × (s ≡ [])) ⊎ ((is_empty s ≡ false) × (s ≢ []))
set_or_empty [] = inl (refl, refl)
set_or_empty (b ∷ s) = inr (refl, λ h. cc)

module _ {T : Type 0} where
  start_templates-IsOk_iff :
      (t : TemplateConfig) (engine : Result EngineError (Engine T))
      → IsOk (start_templates t engine) ↔ ((t.dir ≢ []) → IsOk engine)
  unfolding start_templates
  start_templates-IsOk_iff t (err e) = elim (set_or_empty t.dir) [
    | inl (no_dir, dir_empty) ↦ rw no_dir (λ h k. absurd (k dir_empty), λ h. ([], refl))
    | inr (a_dir, dir_set) ↦ rw a_dir (λ (x, h) k. cc, λ h. let (g, k) = h dir_set in cc)
  ]
  start_templates-IsOk_iff t (ok g) = elim (set_or_empty t.dir) [
    | inl (no_dir, dir_empty) ↦ rw no_dir (λ h k. (g, refl), λ h. ([], refl))
    | inr (a_dir, dir_set) ↦ rw a_dir (λ h k. (g, refl), λ h. (_, refl))
  ]

  build_channels-IsOk_iff :
      (c : Config) (engine : Result EngineError (Engine T))
      → IsOk (build_channels c engine) ↔ (UsesTemplates c → IsOk engine)
  unfolding build_channels
  build_channels-IsOk_iff c engine =
      let (there, back) = start_templates-IsOk_iff c.template engine in
      elim (Bool-cases c.email.enabled) [
        | inl on ↦ rw on (λ h (_, k). there h k, λ h. back (λ k. h (refl, k)))
        | inr off ↦ rw off (λ h (k, _). cc, λ h. ([], refl))
      ]

  serve-IsOk_iff :
      (c : Config) (w : World T) (built : Result RunError (List Effect))
      → ((serve c w built).1 ≡ none) ↔ (IsOk built × (server_error w ≡ none) × (w.shutdown ≡ none))
  unfolding serve
  serve-IsOk_iff c w (err e) = (λ h. cc, λ ((x, h), _, _). cc)
  serve-IsOk_iff c w (ok effects) =
      let (there, back) = wait_ok_iff (server_error w) w.shutdown in
      (λ h. ((effects, refl), (there h).0, (there h).1), λ (_, ended, shut). back (ended, shut))

  after_open_ok_iff :
      (c : Config) (w : World T) (opened : Result RunError (Unit {0}))
      → ((after_open c w opened).1 ≡ none) ↔ (
          (opened ≡ ok tt)
          × (UsesTemplates c → IsOk w.engine)
          × (server_error w ≡ none)
          × (w.shutdown ≡ none))
  unfolding after_open
  after_open_ok_iff c w (err e) = (λ h. cc, λ (h, _, _, _). cc)
  after_open_ok_iff c w (ok _) =
      let (there, back) = serve-IsOk_iff c w (build_channels c w.engine) in
      let (served, serves) = build_channels-IsOk_iff c w.engine in
      (
        λ h. let (built, ended, shut) = there h in (refl, served built, ended, shut),
        λ (_, engine, ended, shut). back (serves engine, ended, shut),
      )

open_store_sqlite :
    (opened : Result OpenError (Unit {0}))
    → (open_store (str "sqlite") opened ≡ ok tt) ↔ (opened ≡ ok tt)
unfolding open_store text_eq
open_store_sqlite (ok o) = ground arith
open_store_sqlite (err e) = ground arith

-- The only driver that validation lets through.
driver_of : (std : Parsers) (c : Config) → IsValid std c → c.database_driver ≡ str "sqlite"
driver_of std c v = ground (arith, v.server.database_driver)

module _ {T : Type 0} (std : Parsers) (getenv : Var → Text) where
  -- `run` returns nil exactly if `Load` succeeds, the database opens and takes the pragmas, the template engine starts
  -- where templates are used, and the server neither fails before the signal nor in its shutdown: no
  -- configuration that `Load` returns is refused for its driver.
  pub run_ok_iff :
      (w : World T)
      → ((run (load std getenv) w).1 ≡ none) ↔ (
          (c : Config) × (load std getenv ≡ ok c)
          × Opens w.database c.database_dsn
          × (UsesTemplates c → IsOk w.engine)
          × (server_error w ≡ none)
          × (w.shutdown ≡ none))
  unfolding run
  run_ok_iff w = elim (Result-cases (load std getenv)) [
    | inr (e, failed) ↦ rw failed (λ h. cc, λ (c, h, _, _, _, _). cc)
    | inl (c, read) ↦
        let driver = driver_of std c (load-IsValid std getenv read).0 in
        let new = (new_store w.database c.database_dsn).0 in
        let (there, back) = after_open_ok_iff c w (open_store c.database_driver new) in
        let (opened, reopened) = open_store_sqlite new in
        let (takes, taken) = new_store_ok_iff w.database c.database_dsn in
        rw read (
          λ h.
              let (store, engine, ended, shut) = there h in
              (
                c,
                refl,
                takes (opened (subst (λ d. open_store d new ≡ ok tt) driver store)),
                engine,
                ended,
                shut,
              ),
          λ (d, same, store, engine, ended, shut).
              let e : c ≡ d = cc in
              back (
                subst (λ d. open_store d new ≡ ok tt) (sym driver)
                    (reopened (taken (subst (λ x. Opens w.database x.database_dsn) (sym e) store))),
                subst (λ x. UsesTemplates x → IsOk w.engine) (sym e) engine,
                ended,
                shut,
              ),
        )
  ]

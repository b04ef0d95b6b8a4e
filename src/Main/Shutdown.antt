-- ===== src/Main/Shutdown.antt =====
-- main.go: what `run` stops, in which order, and when it returns nil.
use alertmanager_webhook_rel.Base.{
  Bool, Bool-cases, List, Option, Result, Text, [], arith, err, false, if◌then◌else◌, inl, inr,
  is_empty, none, not, ok, refl, some, true, ◌&&◌, ◌++◌, ◌↔◌, ◌∷◌, ◌≡◌, ◌⊎◌,
}
use alertmanager_webhook_rel.Config.Data.{Config, ConfigError, TemplateConfig}
use alertmanager_webhook_rel.Storage.Connection.{OpenError, new_store}
use alertmanager_webhook_rel.Template.{Engine, EngineError}
use alertmanager_webhook_rel.Main.{
  Effect, RunError, World, run, serve, wait, after_open, awaits_dispatcher, cancels_dispatcher,
  closes_store, engine_failed, opens_store, releases_context, shuts_server, starts_dispatcher,
  starts_server, starts_watcher, server_failed, shut_down, build_channels, channel_names,
  config_failed, open_store, server_error, start_templates, receives_signal, cleanup,
}

-- What is up: the store is open, the goroutines run, a signal has come, and the dispatcher's context is
-- cancelled. The server counts as up until `Shutdown`, also where it has ended by itself.
pub record Up : Type 0 where
  pub signalled : Bool
  pub store : Bool
  pub watcher : Bool
  pub dispatcher : Bool
  pub cancelled : Bool
  pub server : Bool

abbrev pub nothing : Up
nothing = record {
  signalled = false;
  store = false;
  watcher = false;
  dispatcher = false;
  cancelled = false;
  server = false;
}

abbrev only_if : Bool → Up → Option Up
only_if b u = if b then some u else none

-- After a signal, the server is shut down before anything behind it is.
abbrev pub is_free : Up → Bool
is_free u = not (u.signalled && u.server)

-- An effect in its place: the dispatcher and the server start on an open store, the dispatcher is
-- awaited after its context has ended, and the store is closed when the dispatcher has returned.
-- After a signal, none of these two is done while the server is up.
abbrev pub apply : Up → Effect → Option Up
apply u opens_store = only_if (not u.store) (record u { store = true })
apply u starts_watcher = only_if (not u.watcher) (record u { watcher = true })
apply u (starts_dispatcher names) =
    only_if (u.store && not u.dispatcher) (record u { dispatcher = true })
apply u starts_server =
    only_if (u.store && u.dispatcher && not u.server) (record u { server = true })
apply u receives_signal =
    only_if (not u.signalled) (record u { watcher = false; cancelled = true; signalled = true })
apply u shuts_server = only_if (u.server && u.signalled) (record u { server = false })
apply u cancels_dispatcher = only_if (u.dispatcher && is_free u) (record u { cancelled = true })
apply u awaits_dispatcher =
    only_if (u.dispatcher && u.cancelled && is_free u) (record u { dispatcher = false })
apply u closes_store =
    only_if (u.store && not u.dispatcher && is_free u) (record u { store = false })
apply u releases_context = some (record u { watcher = false })

-- What is up after these effects, if each is in its place.
unfoldable pub replay : Up → List Effect → Option Up
replay u [] = some u
replay u (x ∷ xs) = elim (apply u x) [ none ↦ none | some v ↦ replay v xs ]

-- The template engine could not be started.
abbrev pub IsEngineFailure : Option RunError → Type 0
IsEngineFailure (some (engine_failed e)) = Unit
IsEngineFailure _ = ⊥

-- The server has ended before a signal came.
abbrev pub IsServerFailure : Option RunError → Type 0
IsServerFailure (some (server_failed e)) = Unit
IsServerFailure _ = ⊥

abbrev pub EndsWell : List Effect × Option RunError → Type 0
EndsWell (effects, error) =
    (u : Up) × (replay nothing effects ≡ some u)
    × (u.watcher ≡ false)
    × (u.dispatcher ≡ false)
    × ((u.server ≡ true) ↔ IsServerFailure error)
    × ((u.store ≡ true) ↔ IsEngineFailure error)

never : {P : Type 0} → ¬ P → (false ≡ true) ↔ P
never refute = (λ h. cc, λ h. absurd (refute h))

no_effects :
    (x : RunError) → ¬ IsEngineFailure (some x) → ¬ IsServerFailure (some x) → EndsWell ([], some x)
unfolding replay
no_effects x e s = (nothing, refl, refl, refl, never s, never e)

-- What the start of the channels may leave.
abbrev IsPrelude : List Effect → Type 0
IsPrelude effects = (effects ≡ []) ⊎ (effects ≡ starts_watcher ∷ [])

-- Where the server has ended by itself.
cleaned :
    (effects : List Effect) (names : List Text)
    → IsPrelude effects
    → replay nothing (
        opens_store ∷ (effects ++ starts_dispatcher names ∷ starts_server ∷ cleanup)
        ++ releases_context ∷ [])
      ≡ some (record nothing { cancelled = true; server = true })
unfolding replay
cleaned effects names (inl p) = rw p refl
cleaned effects names (inr p) = rw p refl

-- Where a signal has come.
shut :
    (effects : List Effect) (names : List Text)
    → IsPrelude effects
    → replay nothing (
        opens_store
          ∷ (effects
              ++ starts_dispatcher names ∷ starts_server ∷ receives_signal ∷ shuts_server ∷ cleanup)
        ++ releases_context ∷ [])
      ≡ some (record nothing { cancelled = true; signalled = true })
unfolding replay
shut effects names (inl p) = rw p refl
shut effects names (inr p) = rw p refl

wait-EndsWell :
    (effects : List Effect) (names : List Text) (ended shutdown : Option Text)
    → IsPrelude effects
    → EndsWell (
      opens_store ∷ (effects ++ starts_dispatcher names ∷ starts_server ∷ (wait ended shutdown).0)
          ++ releases_context ∷ [],
      (wait ended shutdown).1,
    )
unfolding wait shut_down
wait-EndsWell effects names (some e) shutdown p =
    (_, cleaned effects names p, refl, refl, (λ h. tt, λ h. refl), never (λ h. h))
wait-EndsWell effects names none (some e) p =
    (_, shut effects names p, refl, refl, never (λ h. h), never (λ h. h))
wait-EndsWell effects names none none p =
    (_, shut effects names p, refl, refl, never (λ h. h), never (λ h. h))

open_store_plain :
    (driver : Text) (opened : Result OpenError (Unit {0})) (x : RunError)
    → open_store driver opened ≡ err x
    → ¬ IsEngineFailure (some x) × ¬ IsServerFailure (some x)
unfolding open_store
open_store_plain driver (ok o) (engine_failed e) h = absurd (ground arith)
open_store_plain driver (err o) (engine_failed e) h = absurd (ground arith)
open_store_plain driver (ok o) (server_failed e) h = absurd (ground arith)
open_store_plain driver (err o) (server_failed e) h = absurd (ground arith)
open_store_plain driver opened _ h = (λ k. k, λ k. k)

abbrev Started : Result RunError (List Effect) → Type 0
Started r =
    ((e : EngineError) × (r ≡ err (engine_failed e)))
    ⊎ ((effects : List Effect) × (r ≡ ok effects) × IsPrelude effects)

module _ {T : Type 0} where
  -- Either the template engine fails, or at most the watcher is started.
  start_templates-Started :
      (t : TemplateConfig) (engine : Result EngineError (Engine T))
      → Started (start_templates t engine)
  unfolding start_templates
  start_templates-Started t (err e) = elim (Bool-cases (is_empty t.dir)) [
    | inl no_dir ↦ rw no_dir (inr ([], refl, inl refl))
    | inr a_dir ↦ rw a_dir (inl (e, refl))
  ]
  start_templates-Started t (ok g) = elim (Bool-cases (is_empty t.dir)) [
    | inl no_dir ↦ rw no_dir (inr ([], refl, inl refl))
    | inr a_dir ↦ elim (Bool-cases t.reload_enabled) [
      | inl on ↦ rw (a_dir, on) (inr (starts_watcher ∷ [], refl, inr refl))
      | inr off ↦ rw (a_dir, off) (inr ([], refl, inl refl))
    ]
  ]

  build_channels-Started :
      (c : Config) (engine : Result EngineError (Engine T)) → Started (build_channels c engine)
  unfolding build_channels
  build_channels-Started c engine = elim (Bool-cases c.email.enabled) [
    | inl on ↦ rw on (start_templates-Started c.template engine)
    | inr off ↦ rw off (inr ([], refl, inl refl))
  ]

  after_open-EndsWell :
      (c : Config) (w : World T) (opened : Result RunError (Unit {0}))
      → ((x : RunError) → opened ≡ err x → ¬ IsEngineFailure (some x) × ¬ IsServerFailure (some x))
      → EndsWell (after_open c w opened)
  unfolding after_open serve replay
  after_open-EndsWell c w (err x) plain = no_effects x (plain x refl).0 (plain x refl).1
  after_open-EndsWell c w (ok _) plain = elim (build_channels-Started c w.engine) [
    | inl (e, failed) ↦ rw failed (_, refl, refl, refl, never (λ h. h), (λ h. tt, λ h. refl))
    | inr (effects, built, prelude) ↦
        rw built (wait-EndsWell effects (channel_names c) (server_error w) w.shutdown prelude)
  ]

  -- Whatever the parts return, `run` starts and stops them in their order: the dispatcher and the
  -- server start on an open store, the dispatcher is awaited after its context has ended, and the
  -- store is closed only when the dispatcher has returned; after a signal the server is shut down
  -- before the dispatcher is awaited and the store is closed. In the end the watcher and the dispatcher
  -- are stopped, a server is left that was not shut exactly if it ended by itself with an error, and
  -- the store is left open exactly if the template engine could not be started.
  pub run-EndsWell : (loaded : Result ConfigError Config) (w : World T) → EndsWell (run loaded w)
  unfolding run
  run-EndsWell (err e) w = no_effects (config_failed e) (λ h. h) (λ h. h)
  run-EndsWell (ok c) w =
      let opened = (new_store w.database c.database_dsn).0 in
      after_open-EndsWell c w (open_store c.database_driver opened)
        (open_store_plain c.database_driver opened)

-- ===== src/Main/Tests.antt =====
-- main.go: runs that end by a signal and by a failure, and instances of the theorems. A set of templates
-- is here a number.
use alertmanager_webhook_rel.Base.{
  [], err, none, ok, refl, some, str, text_eq, true, ℕ, ◌↔◌, ◌∷◌, ◌≡◌,
}
use alertmanager_webhook_rel.Config.Data.{Config}
use alertmanager_webhook_rel.Config.Load.{load}
use alertmanager_webhook_rel.Config.Samples.{parsers, some_set, default_config}
use alertmanager_webhook_rel.Dialogue.{perform, after_answer}
use alertmanager_webhook_rel.Storage.Connection.{
  new_store, after_sql_open, configure_pragmas, initialized,
}
use alertmanager_webhook_rel.Storage.Connection.Lifetime.{Opens}
use alertmanager_webhook_rel.Template.{no_files}
use alertmanager_webhook_rel.Server.{Route, routes, start, serve_result, server_closed}
use alertmanager_webhook_rel.Main.{
  World, run, after_open, awaits_dispatcher, build_channels, cancels_dispatcher, channel_names,
  closes_store, engine_failed, open_store, opens_store, releases_context, serve, server_error,
  shut_down, shuts_server, start_templates, starts_dispatcher, starts_server, starts_watcher, wait,
  receives_signal, server_config,
}
use alertmanager_webhook_rel.Main.Shutdown.{EndsWell, run-EndsWell}
use alertmanager_webhook_rel.Main.Outcome.{IsOk, UsesTemplates, run_ok_iff}

-- Both channels, with templates that are watched.
abbrev both : Config
both = record default_config {
  pachca = record default_config.pachca { enabled = true };
  email = record default_config.email { enabled = true };
  template = record { dir = str "templates"; reload_enabled = true };
}

abbrev fine : World ℕ
fine = record {
  database = λ done c. none;
  engine = ok (record { tmpl = some 5 });
  listen = ok (str "[::]:9090");
  served = some server_closed;
  takes_signal = true;
  shutdown = none;
}

signalled : run (ok both) fine ≡ (
  opens_store
      ∷ starts_watcher
      ∷ starts_dispatcher (str "pachca" ∷ str "email" ∷ [])
      ∷ starts_server
      ∷ receives_signal
      ∷ shuts_server
      ∷ cancels_dispatcher
      ∷ awaits_dispatcher
      ∷ closes_store
      ∷ releases_context
      ∷ [],
  none,
)
unfolding run after_open open_store new_store after_sql_open configure_pragmas initialized perform
    after_answer serve wait shut_down build_channels start_templates server_error start serve_result
    channel_names text_eq
signalled = refl

-- The store that was opened stays open.
no_engine :
    run (ok both) (record fine { engine = err no_files })
    ≡ (opens_store ∷ releases_context ∷ [], some (engine_failed no_files))
unfolding run after_open open_store new_store after_sql_open configure_pragmas initialized perform
    after_answer serve build_channels start_templates text_eq
no_engine = refl

-- Without a delay there is no hook for the end of a pod.
three_routes : routes (server_config both) true ≡ (
    (str "GET /healthz", Route.healthz)
    ∷ (str "GET /readyz", Route.readyz)
    ∷ (str "POST /api/v1/alerts", Route.webhook)
    ∷ [])
unfolding routes server_config
three_routes = refl

run-EndsWell_example : EndsWell (run (ok both) fine)
run-EndsWell_example = run-EndsWell (ok both) fine

run_ok_iff_example : ((run (load parsers some_set) fine).1 ≡ none) ↔ (
    (c : Config) × (load parsers some_set ≡ ok c)
    × Opens fine.database c.database_dsn
    × (UsesTemplates c → IsOk fine.engine)
    × (server_error fine ≡ none)
    × (fine.shutdown ≡ none))
run_ok_iff_example = run_ok_iff parsers some_set fine

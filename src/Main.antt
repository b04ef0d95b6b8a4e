-- ===== src/Main.antt =====
-- main.go: `run`, as the list of what it starts and stops, in order, and the error that it returns.
pub mod Shutdown
pub mod Outcome
mod Tests
use alertmanager_webhook_rel.Base.{
  Bool, List, Option, Result, Text, [], err, if◌then◌else◌, is_empty, none, ok, some, str, text_eq,
  ◌++◌, ◌∷◌,
}
use alertmanager_webhook_rel.Config.Data.{Config, ConfigError, TemplateConfig}
use alertmanager_webhook_rel.Dialogue.{Answers}
use alertmanager_webhook_rel.Storage.Connection.{DbCall, OpenError, new_store}
use alertmanager_webhook_rel.Template.{Engine, EngineError}
use alertmanager_webhook_rel.Server.{ServerConfig, start, new_server, ServeError}

pub data Effect : Type 0 where
  opens_store starts_watcher : Effect
  -- With the names of the channels.
  starts_dispatcher : List Text → Effect
  starts_server : Effect
  -- The end of the context, from which the contexts of the watcher and of the dispatcher are derived.
  receives_signal : Effect
  shuts_server cancels_dispatcher awaits_dispatcher closes_store : Effect
  -- The deferred `stop`, which ends the context in any case.
  releases_context : Effect

-- The errors that `run` returns.
pub data RunError : Type 0 where
  config_failed : ConfigError → RunError
  unsupported_driver : Text → RunError
  store_failed : OpenError → RunError
  engine_failed : EngineError → RunError
  server_failed shutdown_failed : Text → RunError

-- What the parts return: the answers of the database, the template engine, what ends the server before a
-- signal does, whether the final `select` takes the signal though the server has failed too, and the
-- error of `Shutdown`. A signal comes at last.
pub record World (T : Type 0) : Type 0 where
  pub database : Answers DbCall
  pub engine : Result EngineError (Engine T)
  pub listen : Result Text Text
  pub served : Option ServeError
  pub takes_signal : Bool
  pub shutdown : Option Text

-- The switch over the driver.
unfoldable pub open_store : Text → Result OpenError (Unit {0}) → Result RunError (Unit {0})
open_store driver opened =
    if text_eq driver (str "sqlite")
    then elim opened [ ok _ ↦ ok tt | err e ↦ err (store_failed e) ]
    else err (unsupported_driver driver)

unfoldable pub channel_names : Config → List Text
channel_names c =
    (if c.pachca.enabled then str "pachca" ∷ [] else [])
    ++ (if c.email.enabled then str "email" ∷ [] else [])

unfoldable pub server_config : Config → ServerConfig
server_config c = record {
  port = c.port;
  shutdown_timeout = c.shutdown_timeout;
  pre_stop_delay = c.pre_stop_delay;
}

-- `cleanup`, and the last two steps of the shutdown.
abbrev pub cleanup : List Effect
cleanup = cancels_dispatcher ∷ awaits_dispatcher ∷ closes_store ∷ []

-- From the signal on.
unfoldable pub shut_down : Option Text → List Effect × Option RunError
shut_down none = (receives_signal ∷ shuts_server ∷ cleanup, none)
shut_down (some e) = (receives_signal ∷ shuts_server ∷ cleanup, some (shutdown_failed e))

-- The final `select`.
unfoldable pub wait : Option Text → Option Text → List Effect × Option RunError
unfolding shut_down
wait (some e) shutdown = (cleanup, some (server_failed e))
wait none shutdown = shut_down shutdown

module _ {T : Type 0} where
  -- The start of the template engine and its watcher.
  unfoldable pub start_templates :
      TemplateConfig → Result EngineError (Engine T) → Result RunError (List Effect)
  start_templates t engine = if is_empty t.dir then ok [] else (elim engine [
    | err e ↦ err (engine_failed e)
    | ok _ ↦ ok (if t.reload_enabled then starts_watcher ∷ [] else [])
  ])

  unfoldable pub build_channels :
      Config → Result EngineError (Engine T) → Result RunError (List Effect)
  unfolding start_templates
  build_channels c engine = if c.email.enabled then start_templates c.template engine else ok []

  -- The error that the final `select` finds, if it does not take the signal.
  unfoldable pub server_error : World T → Option Text
  server_error w = if w.takes_signal then none else (start w.listen w.served new_server).0

  -- After the channels are built.
  unfoldable pub serve :
      Config → World T → Result RunError (List Effect) → List Effect × Option RunError
  unfolding wait
  serve c w (err e) = ([], some e)
  serve c w (ok effects) =
      let rest = wait (server_error w) w.shutdown in
      (effects ++ starts_dispatcher (channel_names c) ∷ starts_server ∷ rest.0, rest.1)

  -- After the store is opened.
  unfoldable pub after_open :
      Config → World T → Result RunError (Unit {0}) → List Effect × Option RunError
  unfolding serve
  after_open c w (err e) = ([], some e)
  after_open c w (ok _) =
      let rest = serve c w (build_channels c w.engine) in
      (opens_store ∷ rest.0 ++ releases_context ∷ [], rest.1)

  -- With the result of `config.Load`.
  unfoldable pub run : Result ConfigError Config → World T → List Effect × Option RunError
  unfolding after_open
  run (err e) w = ([], some (config_failed e))
  run (ok c) w =
      after_open c w (open_store c.database_driver (new_store w.database c.database_dsn).0)

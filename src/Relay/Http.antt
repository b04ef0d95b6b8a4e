-- ===== src/Relay/Http.antt =====
-- main.go and internal/server/server.go: what a client of the assembled server receives on each route.
use alertmanager_webhook_rel.Base.{
  Bool, Dict, List, Option, Result, Text, [], err, false, none, ok, some, str, ℕ, ℤ, ◌∷◌,
}
use alertmanager_webhook_rel.Alerts.Handler.{Body, Decoded, Message, error_body, status_ok}
use alertmanager_webhook_rel.Middleware.{Act, ResponseWriter, served}
use alertmanager_webhook_rel.Health.{
  handle_healthz, handle_pre_stop, handle_readyz, ok_json, write_readiness, writes_json,
}
use alertmanager_webhook_rel.Notify.Dispatcher
use alertmanager_webhook_rel.Storage
use alertmanager_webhook_rel.Storage.{Codec, SaveCall, StoreError}
use alertmanager_webhook_rel.Storage.Rows.{Tables}
use alertmanager_webhook_rel.Relay.{Relay, answer}

-- The texts of errors, and what `json.Marshal` makes of the maps in the responses.
pub record Texts : Type 0 where
  pub of_error : StoreError → Text
  pub error_json : Message StoreError → Text
  pub checks_json : Dict → Text

-- A request to one of the routes, with what the database does on it.
pub data ClientRequest : Type 0 where
  gets_health gets_pre_stop : ClientRequest
  gets_ready : Bool → ℕ → ClientRequest
  posts_alerts : SaveCall → Text → Decoded → ClientRequest

module _ (texts : Texts) where
  unfoldable pub error_of : Result StoreError (Unit {0}) → Option Text
  error_of (ok _) = none
  error_of (err e) = some (texts.of_error e)

  -- The checkers that `run` hands to `server.New`, with the results of their checks.
  unfoldable pub checkers : Result StoreError (Unit {0}) → Relay → List (Text × Option Text)
  unfolding error_of
  checkers stored r =
      (str "sqlite", error_of stored) ∷ (str "dispatcher", Dispatcher.check r.dispatcher) ∷ []

  unfoldable pub body_text : Body StoreError → Text
  body_text status_ok = ok_json
  body_text (error_body m) = texts.error_json m

  module _ (codec : Codec) (max_alerts : ℤ) (delay : ℤ) (n : ℕ) where
    -- What the handler of the route does, and the tables then.
    unfoldable pub handle_request : ClientRequest → Relay → List Act × Tables
    unfolding checkers body_text
    handle_request gets_health r = (handle_healthz n, r.tables)
    handle_request gets_pre_stop r = ((handle_pre_stop delay n).1, r.tables)
    handle_request (gets_ready exec_fails now) r =
        let stored = Storage.check exec_fails now r.tables in
        (write_readiness texts.checks_json n (handle_readyz (checkers stored.0 r)), stored.1)
    handle_request (posts_alerts call content_type body) r =
        let done = answer codec max_alerts call content_type body r in
        (writes_json done.0.code (body_text done.0.body) n, done.1)

    -- The response through the chain of middleware.
    unfoldable pub respond_to : ClientRequest → Relay → (ResponseWriter × Bool) × Tables
    unfolding handle_request
    respond_to q r = let done = handle_request q r in (served done.0 false n, done.1)

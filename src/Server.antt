-- ===== src/Server.antt =====
-- internal/server/server.go: the routes, and how the server starts. What the listener and `Serve` of
-- net/http return is an argument.
use alertmanager_webhook_rel.Base.{
  Bool, List, Option, Result, Text, [], err, false, if◌then◌else◌, ltz, none, ok, pos, some, str,
  true, ℤ, ◌++◌, ◌∷◌,
}

-- The handlers that `New` registers.
pub data Route : Type 0 where
  healthz readyz webhook pre_stop : Route

-- `Config`
pub record ServerConfig : Type 0 where
  pub port : ℤ
  pub shutdown_timeout : ℤ
  pub pre_stop_delay : ℤ

abbrev route_if : Bool → Text → Route → List (Text × Route)
route_if b pattern route = if b then (pattern, route) ∷ [] else []

-- The patterns of the multiplexer; the flag says whether there is an alert handler.
unfoldable pub routes : ServerConfig → Bool → List (Text × Route)
routes cfg has_alert_handler =
    (str "GET /healthz", healthz)
      ∷ (str "GET /readyz", readyz)
      ∷ route_if has_alert_handler (str "POST /api/v1/alerts") webhook
    ++ route_if (ltz (pos 0) cfg.pre_stop_delay) (str "GET /lifecycle/pre-stop") pre_stop

-- `ready` says whether the channel of that name is closed.
pub record Server : Type 0 where
  pub ready : Bool
  pub listener : Option Text

abbrev pub new_server : Server
new_server = record { ready = false; listener = none }

-- The errors of `Serve`.
pub data ServeError : Type 0 where
  server_closed : ServeError
  serve_failed : Text → ServeError

unfoldable pub serve_result : Option ServeError → Option Text
serve_result none = none
serve_result (some server_closed) = none
serve_result (some (serve_failed e)) = some e

-- `Start`, with what `Listen` and then `Serve` return.
unfoldable pub start : Result Text Text → Option ServeError → Server → Option Text × Server
unfolding serve_result
start (err e) served s = (some e, record s { ready = true })
start (ok address) served s =
    (serve_result served, record s { ready = true; listener = some address })

unfoldable pub addr : Server → Text
addr s = elim s.listener [ none ↦ [] | some address ↦ address ]

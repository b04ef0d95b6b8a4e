-- ===== src/Health/Tests.antt =====
-- internal/server/health.go: a test on two checkers.
use alertmanager_webhook_rel.Base.{List, Option, Text, [], none, refl, some, str, ◌∷◌, ◌≡◌}
use alertmanager_webhook_rel.Health.{handle_readyz, failed_checks, not_ready, put}

abbrev two_checkers : List (Text × Option Text)
two_checkers = (str "sqlite", none) ∷ (str "dispatcher", some (str "not running")) ∷ []

one_down : handle_readyz two_checkers ≡ (503, not_ready ((str "dispatcher", str "unhealthy") ∷ []))
unfolding handle_readyz failed_checks put
one_down = refl

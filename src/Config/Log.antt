-- ===== src/Config/Log.antt =====
-- internal/config/config.go: what the logger is told of the configuration.
use alertmanager_webhook_rel.Base.{
  Bool, List, Text, [], arith, if◌then◌else◌, refl, str, text_eq, text_eq_iff, ℤ, ◌∷◌, ◌≡◌,
}
use alertmanager_webhook_rel.Config.Data.{Config, valid_log_levels}
use alertmanager_webhook_rel.Config.Checks.Laws.{IsOneOf}

-- `slog.Level`
pub data Level : Type 0 where
  debug info warn error : Level

unfoldable pub slog_level : Config → Level
slog_level c =
    if text_eq c.log_level (str "debug")
    then Level.debug
    else (if text_eq c.log_level (str "warn")
        then Level.warn
        else (if text_eq c.log_level (str "error") then Level.error else Level.info))

-- An attribute of a log record; a span is printed by `time.Duration.String`.
pub data Attr : Type 0 where
  number span : Text → ℤ → Attr
  word : Text → Text → Attr
  flag : Text → Bool → Attr
  words : Text → List Text → Attr

-- `slog.GroupValue`: attributes, then named groups of them.
pub record LogRecord : Type 0 where
  pub attrs : List Attr
  pub groups : List (Text × List Attr)

abbrev redacted : Text
redacted = str "[REDACTED]"

unfoldable pub log_value : Config → LogRecord
log_value c = record {
  attrs =
      number (str "port") c.port
      ∷ word (str "log_level") c.log_level
      ∷ span (str "shutdown_timeout") c.shutdown_timeout
      ∷ span (str "pre_stop_delay") c.pre_stop_delay
      ∷ word (str "database_driver") c.database_driver
      ∷ word (str "database_dsn") redacted
      ∷ number (str "max_payload_size") c.max_payload_size
      ∷ number (str "max_alerts_per_payload") c.max_alerts_per_payload
      ∷ span (str "notify_poll_interval") c.notify_poll_interval
      ∷ number (str "notify_batch_size") c.notify_batch_size
      ∷ number (str "notify_queue_size") c.notify_queue_size
      ∷ span (str "notify_send_timeout") c.notify_send_timeout
      ∷ [];
  groups =
      (
        str "pachca",
        flag (str "enabled") c.pachca.enabled
            ∷ word (str "base_url") c.pachca.base_url
            ∷ word (str "token") redacted
            ∷ number (str "chat_id") c.pachca.chat_id
            ∷ [],
      )
      ∷ (
        str "email",
        flag (str "enabled") c.email.enabled
            ∷ word (str "smtp_host") c.email.smtp_host
            ∷ number (str "smtp_port") c.email.smtp_port
            ∷ word (str "from") c.email.from
            ∷ words (str "to") c.email.to
            ∷ word (str "username") c.email.username
            ∷ word (str "password") redacted
            ∷ word (str "tls_mode") c.email.tls_mode
            ∷ word (str "subject_prefix") c.email.subject_prefix
            ∷ [],
      )
      ∷ (
        str "template",
        word (str "dir") c.template.dir
            ∷ flag (str "reload_enabled") c.template.reload_enabled
            ∷ [],
      )
      ∷ [];
}

-- The same configuration with other secrets.
abbrev pub with_secrets : Config → Text → Text → Text → Config
with_secrets c dsn token password = record c {
  database_dsn = dsn;
  pachca = record c.pachca { token = token };
  email = record c.email { password = password };
}

-- The log record of a configuration does not depend on the data source name, the Pachca token or the
-- mail password.
pub log_value-with_secrets :
    (c : Config) (dsn token password : Text)
    → log_value (with_secrets c dsn token password) ≡ log_value c
unfolding log_value
log_value-with_secrets c dsn token password = refl

abbrev pub level_name : Level → Text
level_name Level.debug = str "debug"
level_name Level.info = str "info"
level_name Level.warn = str "warn"
level_name Level.error = str "error"

-- The level of the logger is the one that a valid setting names.
pub level_name-slog_level :
    (c : Config) → IsOneOf c.log_level valid_log_levels → level_name (slog_level c) ≡ c.log_level
unfolding slog_level
level_name-slog_level c h = ground (
  arith,
  text_eq_iff c.log_level (str "debug"),
  text_eq_iff c.log_level (str "warn"),
  text_eq_iff c.log_level (str "error"),
)

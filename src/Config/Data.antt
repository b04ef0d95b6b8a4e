-- ===== src/Config/Data.antt =====
-- internal/config/config.go: the configuration and its limits. Durations are in nanoseconds.
use alertmanager_webhook_rel.Base.{Bool, List, Option, Text, [], str, ℕ, ℤ, ◌*◌, ◌∷◌}

-- The environment variables.
pub data Var : Type 0 where
  port log_level shutdown_timeout pre_stop_delay database_driver database_dsn : Var
  max_payload_size max_alerts_per_payload : Var
  notify_poll_interval notify_batch_size notify_queue_size notify_send_timeout : Var
  pachca_token pachca_base_url pachca_chat_id : Var
  email_smtp_host email_smtp_port email_from email_to email_username email_password : Var
  email_tls_mode email_subject_prefix template_dir template_reload : Var

-- What an error wrapping ErrInvalidConfig says of a variable.
pub data Problem : Type 0 where
  not_a_number not_a_duration not_a_bool : Problem
  out_of_range not_allowed unset too_short too_long : Problem
  control_chars not_printable : Problem
  dangerous : Text → Problem
  bad_url bad_scheme no_host bad_address : Problem
  below_batch_size not_below_shutdown_timeout only_one_credential : Problem

pub record ConfigError : Type 0 where
  pub var : Var
  pub problem : Problem

pub record PachcaConfig : Type 0 where
  pub enabled : Bool
  pub base_url : Text
  pub token : Text
  pub chat_id : ℤ

pub record EmailConfig : Type 0 where
  pub enabled : Bool
  pub smtp_host : Text
  pub smtp_port : ℤ
  pub from : Text
  pub to : List Text
  pub username : Text
  pub password : Text
  pub tls_mode : Text
  pub subject_prefix : Text

pub record TemplateConfig : Type 0 where
  pub dir : Text
  pub reload_enabled : Bool

pub record Config : Type 0 where
  pub port : ℤ
  pub log_level : Text
  pub shutdown_timeout : ℤ
  pub pre_stop_delay : ℤ
  pub database_driver : Text
  pub database_dsn : Text
  pub max_payload_size : ℤ
  pub max_alerts_per_payload : ℤ
  pub notify_poll_interval : ℤ
  pub notify_batch_size : ℤ
  pub notify_queue_size : ℤ
  pub notify_send_timeout : ℤ
  pub pachca : PachcaConfig
  pub email : EmailConfig
  pub template : TemplateConfig

abbrev pub second : ℕ
second = 1000000000

abbrev pub max_port : ℕ
max_port = 65535

abbrev pub max_shutdown_timeout : ℕ
max_shutdown_timeout = 300 * second

abbrev pub max_pre_stop_delay : ℕ
max_pre_stop_delay = 30 * second

abbrev pub max_max_payload_size : ℕ
max_max_payload_size = 10485760

abbrev pub max_dsn_len : ℕ
max_dsn_len = 2048

abbrev pub max_pachca_token_len : ℕ
max_pachca_token_len = 512

abbrev pub max_pachca_base_url_len : ℕ
max_pachca_base_url_len = 2048

abbrev pub max_pachca_chat_id : ℕ
max_pachca_chat_id = 999999999

abbrev pub max_email_password_len : ℕ
max_email_password_len = 512

abbrev pub max_email_username_len : ℕ
max_email_username_len = 256

abbrev pub max_email_subject_prefix_len : ℕ
max_email_subject_prefix_len = 128

abbrev pub max_email_smtp_host_len : ℕ
max_email_smtp_host_len = 253

abbrev pub max_template_dir_len : ℕ
max_template_dir_len = 512

abbrev pub valid_tls_modes : List Text
valid_tls_modes = str "starttls" ∷ str "tls" ∷ str "none" ∷ []

abbrev pub valid_log_levels : List Text
valid_log_levels = str "debug" ∷ str "info" ∷ str "warn" ∷ str "error" ∷ []

abbrev pub valid_database_drivers : List Text
valid_database_drivers = str "sqlite" ∷ []

-- What `url.Parse` returns of a URL that it accepts.
pub record Url : Type 0 where
  pub scheme : Text
  pub host : Text

-- The parsers of the standard library: `strconv.Atoi`, `time.ParseDuration`, `url.Parse` and whether
-- `mail.ParseAddress` accepts a text.
pub record Parsers : Type 0 where
  pub atoi : Text → Option ℤ
  pub parse_duration : Text → Option ℤ
  pub parse_url : Text → Option Url
  pub is_address : Text → Bool

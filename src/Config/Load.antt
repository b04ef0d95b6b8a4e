-- ===== src/Config/Load.antt =====
-- internal/config/config.go: `Load`, over the values of the environment's variables, "" if unset.
pub mod Spec
use alertmanager_webhook_rel.Base.{
  Bool, List, Option, Result, Text, [], err, false, if◌then◌else◌, is_empty, map, none, not, ok,
  pos, some, split_commas, str, text_eq, to_lower, trim_slashes, trim_space, true, ℤ, ◌*◌, ◌||◌,
  ◌∷◌, ◌>>=◌, ◌>>◌,
}
use alertmanager_webhook_rel.Config.Data.{
  Var, Config, ConfigError, Parsers, Problem, not_a_bool, not_a_duration, not_a_number, second,
}
use alertmanager_webhook_rel.Config.Validate.{validate}

-- `if v := os.Getenv(VAR); v != "" { … }` around a parser: the default stays where it is unset.
unfoldable pub read_or : (Text → Option ℤ) → Problem → Var → Text → ℤ → Result ConfigError ℤ
read_or parse problem var [] default = ok default
read_or parse problem var (b ∷ s) default = elim (parse (b ∷ s)) [
  | some x ↦ ok x
  | none ↦ err (record { var = var; problem = problem })
]

-- The same around an assignment.
unfoldable pub text_or : Text → Text → Text
text_or [] default = default
text_or (b ∷ s) default = b ∷ s

unfoldable pub read_flag : Text → Result ConfigError Bool
read_flag v =
    if is_empty v || text_eq v (str "false")
    then ok false
    else (if text_eq v (str "true")
        then ok true
        else err (record { var = Var.template_reload; problem = not_a_bool }))

-- The loop over the parts of EMAIL_TO.
unfoldable pub recipients : List Text → List Text
recipients [] = []
recipients (p ∷ ps) =
    let rest = recipients ps in
    let trimmed = trim_space p in if is_empty trimmed then rest else trimmed ∷ rest

unfoldable pub recipients_of : Text → List Text
recipients_of [] = []
recipients_of (b ∷ s) = recipients (split_commas (b ∷ s))

module _ (std : Parsers) (getenv : Var → Text) where
  unfoldable pub int_or : Var → ℤ → Result ConfigError ℤ
  int_or var default = read_or std.atoi not_a_number var (getenv var) default

  unfoldable pub duration_or : Var → ℤ → Result ConfigError ℤ
  duration_or var default = read_or std.parse_duration not_a_duration var (getenv var) default

  -- The defaults, overridden by the variables that are set.
  unfoldable pub read_config : Result ConfigError Config
  read_config = do
    http_port ← int_or Var.port (pos 8080)
    shutdown ← duration_or Var.shutdown_timeout (pos (15 * second))
    delay ← duration_or Var.pre_stop_delay (pos 0)
    payload ← int_or Var.max_payload_size (pos 1048576)
    per_payload ← int_or Var.max_alerts_per_payload (pos 100)
    poll ← duration_or Var.notify_poll_interval (pos (5 * second))
    batch ← int_or Var.notify_batch_size (pos 50)
    queue ← int_or Var.notify_queue_size (pos 100)
    timeout ← duration_or Var.notify_send_timeout (pos (30 * second))
    chat ← int_or Var.pachca_chat_id (pos 0)
    smtp ← int_or Var.email_smtp_port (pos 587)
    reload ← read_flag (getenv Var.template_reload)
    ok (record {
      port = http_port;
      log_level = text_or (getenv Var.log_level) (str "info");
      shutdown_timeout = shutdown;
      pre_stop_delay = delay;
      database_driver = text_or (getenv Var.database_driver) (str "sqlite");
      database_dsn = text_or (getenv Var.database_dsn) (str "data/alerts.db");
      max_payload_size = payload;
      max_alerts_per_payload = per_payload;
      notify_poll_interval = poll;
      notify_batch_size = batch;
      notify_queue_size = queue;
      notify_send_timeout = timeout;
      pachca = record {
        enabled = not (is_empty (getenv Var.pachca_token));
        base_url = text_or (getenv Var.pachca_base_url) (str "https://api.pachca.com");
        token = getenv Var.pachca_token;
        chat_id = chat;
      };
      email = record {
        enabled = not (is_empty (getenv Var.email_smtp_host));
        smtp_host = getenv Var.email_smtp_host;
        smtp_port = smtp;
        from = getenv Var.email_from;
        to = recipients_of (getenv Var.email_to);
        username = getenv Var.email_username;
        password = getenv Var.email_password;
        tls_mode = text_or (getenv Var.email_tls_mode) (str "starttls");
        subject_prefix = text_or (getenv Var.email_subject_prefix) (str "[Alert]");
      };
      template = record { dir = getenv Var.template_dir; reload_enabled = reload };
    })

-- An assignment under `if trimmed != x` leaves `trimmed` in any case.
unfoldable pub normalize : Config → Config
normalize c = record c {
  log_level = to_lower (trim_space c.log_level);
  database_driver = to_lower (trim_space c.database_driver);
  database_dsn = trim_space c.database_dsn;
  pachca = record c.pachca {
    base_url = trim_slashes (trim_space c.pachca.base_url);
    token = trim_space c.pachca.token;
  };
  email = record c.email {
    smtp_host = trim_space c.email.smtp_host;
    from = trim_space c.email.from;
    to = map trim_space c.email.to;
    username = trim_space c.email.username;
    password = trim_space c.email.password;
    tls_mode = to_lower (trim_space c.email.tls_mode);
    subject_prefix = trim_space c.email.subject_prefix;
  };
  template = record c.template { dir = trim_space c.template.dir };
}

-- The configuration, if it is valid.
abbrev pub validated : Parsers → Config → Result ConfigError Config
validated std c = do validate std c; ok c

unfoldable pub load : Parsers → (Var → Text) → Result ConfigError Config
load std getenv = do c ← read_config std getenv; validated std (normalize c)

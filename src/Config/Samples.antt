-- ===== src/Config/Samples.antt =====
-- internal/config: an environment and the configuration that it gives, for tests.
use alertmanager_webhook_rel.Base.{
  Text, [], contains, false, if◌then◌else◌, none, pos, some, str, text_eq,
}
use alertmanager_webhook_rel.Config.Data.{Var, Config, Parsers}

-- Parsers that know a few texts.
abbrev pub parsers : Parsers
parsers = record {
  atoi = λ s. if text_eq s (str "9090") then some (pos 9090) else none;
  parse_duration = λ s. none;
  parse_url = λ s. some (record { scheme = str "https"; host = str "api.pachca.com" });
  is_address = λ s. contains s (str "@");
}

abbrev pub some_set : Var → Text
some_set Var.port = str "9090"
some_set Var.log_level = str " DEBUG"
some_set v = []

abbrev pub default_config : Config
default_config = record {
  port = pos 9090;
  log_level = str "debug";
  shutdown_timeout = pos 15000000000;
  pre_stop_delay = pos 0;
  database_driver = str "sqlite";
  database_dsn = str "data/alerts.db";
  max_payload_size = pos 1048576;
  max_alerts_per_payload = pos 100;
  notify_poll_interval = pos 5000000000;
  notify_batch_size = pos 50;
  notify_queue_size = pos 100;
  notify_send_timeout = pos 30000000000;
  pachca = record {
    enabled = false;
    base_url = str "https://api.pachca.com";
    token = [];
    chat_id = pos 0;
  };
  email = record {
    enabled = false;
    smtp_host = [];
    smtp_port = pos 587;
    from = [];
    to = [];
    username = [];
    password = [];
    tls_mode = str "starttls";
    subject_prefix = str "[Alert]";
  };
  template = record { dir = []; reload_enabled = false };
}

-- ===== src/Config/Load/Spec.antt =====
-- internal/config/config.go: what `Load` promises of the configuration that it returns.
use alertmanager_webhook_rel.Base.{
  Option, Result, Text, [], arith, bind_elim, is_empty, not, ok, pos, some, subst, true, ℤ, ◌*◌,
  ◌↔◌, ◌∷◌, ◌≡◌, ◌≢◌,
}
use alertmanager_webhook_rel.Config.Data.{Var, Config, Parsers, Problem, second, ConfigError}
use alertmanager_webhook_rel.Config.Validate.{validate}
use alertmanager_webhook_rel.Config.Validate.Spec.{IsValid, validate_iff}
use alertmanager_webhook_rel.Config.Load.{
  load, duration_or, int_or, normalize, read_config, read_or, read_flag,
}

-- The default where the text is empty, and otherwise what the parser makes of it.
abbrev pub IsRead : (Text → Option ℤ) → Text → ℤ → ℤ → Type 0
IsRead parse [] default x = x ≡ default
IsRead parse (b ∷ s) default x = parse (b ∷ s) ≡ some x

read_or-IsRead :
    (parse : Text → Option ℤ) (problem : Problem) (var : Var) (s : Text) (default : ℤ) {x : ℤ}
    → read_or parse problem var s default ≡ ok x
    → IsRead parse s default x
unfolding read_or
read_or-IsRead parse problem var [] default h = ground arith
read_or-IsRead parse problem var (b ∷ s) default h = ground arith

set_iff : (s : Text) → (not (is_empty s) ≡ true) ↔ (s ≢ [])
set_iff [] = ground arith
set_iff (b ∷ s) = ground arith

ok_eq : {a b : Config} → ◌≡◌ {A = Result ConfigError Config} (ok a) (ok b) → a ≡ b
ok_eq h = cc

-- Each number and duration is read from its variable, and a channel is enabled by its variable.
pub record Reads (std : Parsers) (getenv : Var → Text) (c : Config) : Type 0 where
  pub port : IsRead std.atoi (getenv Var.port) (pos 8080) c.port
  pub shutdown :
      IsRead std.parse_duration (getenv Var.shutdown_timeout) (pos (15 * second)) c.shutdown_timeout
  pub delay : IsRead std.parse_duration (getenv Var.pre_stop_delay) (pos 0) c.pre_stop_delay
  pub payload : IsRead std.atoi (getenv Var.max_payload_size) (pos 1048576) c.max_payload_size
  pub alerts :
      IsRead std.atoi (getenv Var.max_alerts_per_payload) (pos 100) c.max_alerts_per_payload
  pub poll :
      IsRead std.parse_duration
        (getenv Var.notify_poll_interval)
        (pos (5 * second))
        c.notify_poll_interval
  pub batch : IsRead std.atoi (getenv Var.notify_batch_size) (pos 50) c.notify_batch_size
  pub queue : IsRead std.atoi (getenv Var.notify_queue_size) (pos 100) c.notify_queue_size
  pub timeout :
      IsRead std.parse_duration
        (getenv Var.notify_send_timeout)
        (pos (30 * second))
        c.notify_send_timeout
  pub chat : IsRead std.atoi (getenv Var.pachca_chat_id) (pos 0) c.pachca.chat_id
  pub smtp : IsRead std.atoi (getenv Var.email_smtp_port) (pos 587) c.email.smtp_port
  pub pachca : (c.pachca.enabled ≡ true) ↔ (getenv Var.pachca_token ≢ [])
  pub email : (c.email.enabled ≡ true) ↔ (getenv Var.email_smtp_host ≢ [])

module _ (std : Parsers) (getenv : Var → Text) where
  read_config-Reads : {c : Config} → read_config std getenv ≡ ok c → Reads std getenv (normalize c)
  unfolding read_config int_or duration_or normalize
  read_config-Reads =
      bind_elim (int_or std getenv Var.port (pos 8080)) _ λ http_port read_http_port.
        bind_elim (duration_or std getenv Var.shutdown_timeout (pos (15 * second))) _
          λ shutdown read_shutdown.
            bind_elim (duration_or std getenv Var.pre_stop_delay (pos 0)) _ λ delay read_delay.
              bind_elim (int_or std getenv Var.max_payload_size (pos 1048576)) _
                λ payload read_payload.
                  bind_elim (int_or std getenv Var.max_alerts_per_payload (pos 100)) _
                    λ alerts read_alerts.
                      bind_elim (duration_or std getenv Var.notify_poll_interval (pos (5 * second)))
                        _
                        λ poll read_poll.
                          bind_elim (int_or std getenv Var.notify_batch_size (pos 50)) _
                            λ batch read_batch.
                              bind_elim (int_or std getenv Var.notify_queue_size (pos 100)) _
                                λ queue read_queue.
                                  bind_elim
                                    (duration_or std getenv Var.notify_send_timeout
                                      (pos (30 * second)))
                                    _
                                    λ timeout read_timeout.
                                      bind_elim (int_or std getenv Var.pachca_chat_id (pos 0)) _
                                        λ chat read_chat.
                                          bind_elim
                                            (int_or std getenv Var.email_smtp_port (pos 587)) _
                                            λ smtp read_smtp.
                                              bind_elim (read_flag (getenv Var.template_reload)) _
                                                λ reload read_reload done.
                                                  subst
                                                    (λ (x : Config). Reads std getenv (normalize x))
                                                    (ok_eq done)
                                                    (record {
                                                      port =
                                                          read_or-IsRead _ _ _ _ _ read_http_port;
                                                      shutdown =
                                                          read_or-IsRead _ _ _ _ _ read_shutdown;
                                                      delay = read_or-IsRead _ _ _ _ _ read_delay;
                                                      payload =
                                                          read_or-IsRead _ _ _ _ _ read_payload;
                                                      alerts = read_or-IsRead _ _ _ _ _ read_alerts;
                                                      poll = read_or-IsRead _ _ _ _ _ read_poll;
                                                      batch = read_or-IsRead _ _ _ _ _ read_batch;
                                                      queue = read_or-IsRead _ _ _ _ _ read_queue;
                                                      timeout =
                                                          read_or-IsRead _ _ _ _ _ read_timeout;
                                                      chat = read_or-IsRead _ _ _ _ _ read_chat;
                                                      smtp = read_or-IsRead _ _ _ _ _ read_smtp;
                                                      pachca = set_iff (getenv Var.pachca_token);
                                                      email = set_iff (getenv Var.email_smtp_host);
                                                    })

  -- A configuration that `Load` returns is valid, each number and duration in it is the default or
  -- what the parser makes of its variable, and a channel is enabled exactly if its variable is set.
  pub load-IsValid : {c : Config} → load std getenv ≡ ok c → IsValid std c × Reads std getenv c
  unfolding load
  load-IsValid = bind_elim (read_config std getenv) _ λ raw read.
      bind_elim (validate std (normalize raw)) _ λ _ passed same.
        let e = ok_eq same in
        (
          subst (IsValid std) e ((validate_iff std (normalize raw)).0 passed),
          subst (Reads std getenv) e (read_config-Reads read),
        )

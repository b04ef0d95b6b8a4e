-- ===== src/Config/Validate.antt =====
-- internal/config/config.go: `validate` and its parts, in the order of the source. The parsers of
-- the standard library are arguments.
pub mod Spec
use alertmanager_webhook_rel.Base.{
  Bool, List, Option, Result, Text, [], err, fail_if, if◌then◌else◌, is_empty, length, ltb, ltz,
  none, not, ok, pos, some, str, text_eq, xor, ℕ, ◌&&◌, ◌*◌, ◌==◌, ◌∷◌, ◌>>=◌, ◌>>◌,
}
use alertmanager_webhook_rel.Config.Data.{
  Var, Config, ConfigError, EmailConfig, PachcaConfig, Problem, bad_address, bad_scheme, bad_url,
  below_batch_size, control_chars, dangerous, max_dsn_len, max_email_password_len,
  max_email_smtp_host_len, max_email_subject_prefix_len, max_email_username_len,
  max_max_payload_size, max_pachca_base_url_len, max_pachca_chat_id, max_pachca_token_len, max_port,
  max_pre_stop_delay, max_shutdown_timeout, max_template_dir_len, no_host, not_allowed,
  not_below_shutdown_timeout, not_printable, only_one_credential, out_of_range, second, too_long,
  too_short, unset, valid_database_drivers, valid_log_levels, valid_tls_modes, Parsers, Url,
}
use alertmanager_webhook_rel.Config.Checks.{
  is_outside, contains_control_chars, contains_dangerous_sequence, is_one_of, is_printable_ascii,
}

abbrev pub Check : Type 0
Check = Result ConfigError (Unit {0})

-- `if bad { return fmt.Errorf("VAR …: %w", ErrInvalidConfig) }`
abbrev pub reject_if : Bool → Var → Problem → Check
reject_if bad var problem = fail_if bad (record { var = var; problem = problem })

abbrev pub is_longer : Text → ℕ → Bool
is_longer s n = ltb n (length s)

-- `if found, desc := containsDangerousSequence(s); found { return … }`
unfoldable pub reject_dangerous : Var → Text → Check
reject_dangerous var s = elim (contains_dangerous_sequence s) [
  | some d ↦ err (record { var = var; problem = dangerous d })
  | none ↦ ok tt
]

-- Length, control characters, dangerous sequences.
unfoldable pub check_text : Var → ℕ → Text → Check
check_text var max s = do
  reject_if (is_longer s max) var too_long
  reject_if (contains_control_chars s) var control_chars
  reject_dangerous var s

-- Steps 1 to 4: the port, the enums, the data source name.
unfoldable pub validate_server : Config → Check
validate_server c = do
  reject_if (is_outside 1 max_port c.port) Var.port out_of_range
  reject_if (not (is_one_of c.log_level valid_log_levels)) Var.log_level not_allowed
  reject_if (not (is_one_of c.database_driver valid_database_drivers)) Var.database_driver
      not_allowed
  reject_if (is_empty c.database_dsn) Var.database_dsn unset
  check_text Var.database_dsn max_dsn_len c.database_dsn

-- Steps 5 to 7a: the payload's limits, the shutdown's delays.
unfoldable pub validate_limits : Config → Check
validate_limits c = do
  reject_if (is_outside 1024 max_max_payload_size c.max_payload_size) Var.max_payload_size
      out_of_range
  reject_if (is_outside 1 1000 c.max_alerts_per_payload) Var.max_alerts_per_payload out_of_range
  reject_if (not (ltz (pos 0) c.shutdown_timeout)) Var.shutdown_timeout out_of_range
  reject_if (ltz (pos max_shutdown_timeout) c.shutdown_timeout) Var.shutdown_timeout out_of_range
  reject_if (ltz c.pre_stop_delay (pos 0)) Var.pre_stop_delay out_of_range
  reject_if (ltz (pos max_pre_stop_delay) c.pre_stop_delay) Var.pre_stop_delay out_of_range

-- Steps 8 to 12a: the dispatcher's settings, and the checks across fields.
unfoldable pub validate_notify : Config → Check
validate_notify c = do
  reject_if (is_outside (1 * second) (60 * second) c.notify_poll_interval) Var.notify_poll_interval
      out_of_range
  reject_if (is_outside 1 500 c.notify_batch_size) Var.notify_batch_size out_of_range
  reject_if (is_outside 10 10000 c.notify_queue_size) Var.notify_queue_size out_of_range
  reject_if (is_outside (5 * second) (120 * second) c.notify_send_timeout) Var.notify_send_timeout
      out_of_range
  reject_if (ltz c.notify_queue_size c.notify_batch_size) Var.notify_queue_size below_batch_size
  reject_if (ltz (pos 0) c.pre_stop_delay && not (ltz c.pre_stop_delay c.shutdown_timeout))
      Var.pre_stop_delay not_below_shutdown_timeout

module _ (std : Parsers) where
  -- The scheme and the host of the base URL.
  unfoldable pub check_url : Option Url → Check
  check_url none = err (record { var = Var.pachca_base_url; problem = bad_url })
  check_url (some u) = do
    reject_if (not (text_eq u.scheme (str "http")) && not (text_eq u.scheme (str "https")))
        Var.pachca_base_url bad_scheme
    reject_if (is_empty u.host) Var.pachca_base_url no_host

  unfoldable pub validate_pachca : PachcaConfig → Check
  unfolding check_url
  validate_pachca p = do
    reject_if (ltb (length p.token) 1) Var.pachca_token too_short
    reject_if (is_longer p.token max_pachca_token_len) Var.pachca_token too_long
    reject_if (not (is_printable_ascii p.token)) Var.pachca_token not_printable
    reject_dangerous Var.pachca_token p.token
    reject_if (is_outside 1 max_pachca_chat_id p.chat_id) Var.pachca_chat_id out_of_range
    check_text Var.pachca_base_url max_pachca_base_url_len p.base_url
    check_url (std.parse_url p.base_url)

  -- The loop over the recipients.
  unfoldable pub check_recipients : List Text → Check
  check_recipients [] = ok tt
  check_recipients (addr ∷ to) = do
    reject_if (not (std.is_address addr)) Var.email_to bad_address
    check_recipients to

  -- The password, if there is one.
  unfoldable pub check_password : Text → Check
  check_password [] = ok tt
  check_password (b ∷ s) = do
    reject_if (is_longer (b ∷ s) max_email_password_len) Var.email_password too_long
    reject_if (not (is_printable_ascii (b ∷ s))) Var.email_password not_printable
    reject_dangerous Var.email_password (b ∷ s)

  -- The user name, if there is one.
  unfoldable pub check_username : Text → Check
  check_username [] = ok tt
  check_username (b ∷ s) = check_text Var.email_username max_email_username_len (b ∷ s)

  -- The server, the addresses and the TLS mode.
  unfoldable pub check_envelope : EmailConfig → Check
  check_envelope e = do
    reject_if (is_empty e.smtp_host) Var.email_smtp_host unset
    check_text Var.email_smtp_host max_email_smtp_host_len e.smtp_host
    reject_if (is_outside 1 max_port e.smtp_port) Var.email_smtp_port out_of_range
    reject_if (is_empty e.from) Var.email_from unset
    reject_if (not (std.is_address e.from)) Var.email_from bad_address
    reject_if (length e.to == 0) Var.email_to unset
    check_recipients e.to
    reject_if (not (is_one_of e.tls_mode valid_tls_modes)) Var.email_tls_mode not_allowed

  -- The password, the subject's prefix and the user name.
  unfoldable pub check_credentials : EmailConfig → Check
  check_credentials e = do
    check_password e.password
    check_text Var.email_subject_prefix max_email_subject_prefix_len e.subject_prefix
    check_username e.username
    reject_if (xor (is_empty e.username) (is_empty e.password)) Var.email_username
        only_one_credential

  unfoldable pub validate_email : EmailConfig → Check
  validate_email e = do check_envelope e; check_credentials e

  unfoldable pub check_dir : Text → Check
  check_dir [] = ok tt
  check_dir (b ∷ s) = check_text Var.template_dir max_template_dir_len (b ∷ s)

  -- Steps 13 to 15: the channels that are enabled, the template directory if one is set.
  unfoldable pub validate_channels : Config → Check
  validate_channels c = do
    if c.pachca.enabled then validate_pachca c.pachca else ok tt
    if c.email.enabled then validate_email c.email else ok tt
    check_dir c.template.dir

  unfoldable pub validate : Config → Check
  validate c = do validate_server c; validate_limits c; validate_notify c; validate_channels c

-- ===== src/Config/Validate/Spec.antt =====
-- internal/config/config.go: which configurations `validate` accepts.
use alertmanager_webhook_rel.Base.{
  All, List, Option, Option-cases, Text, [], arith, false, inl, inr, is_empty, length, none, ok,
  pos, refl, some, str, text_eq_iff, true, xor, ℕ, ◌*◌, ◌<ℤ◌, ◌↔◌, ◌∷◌, ◌≡◌, ◌≢◌, ◌≤ℤ◌, ◌≤◌, ◌⊎◌,
}
use alertmanager_webhook_rel.Config.Data.{
  Var, Config, EmailConfig, PachcaConfig, max_dsn_len, max_email_password_len,
  max_email_smtp_host_len, max_email_subject_prefix_len, max_email_username_len,
  max_max_payload_size, max_pachca_base_url_len, max_pachca_chat_id, max_pachca_token_len, max_port,
  max_pre_stop_delay, max_shutdown_timeout, max_template_dir_len, second, valid_database_drivers,
  valid_log_levels, valid_tls_modes, Parsers,
}
use alertmanager_webhook_rel.Config.Checks.{contains_dangerous_sequence}
use alertmanager_webhook_rel.Config.Checks.Laws.{
  IsBetween, IsHarmless, IsOneOf, IsPlain, IsPrintable, contains_control_chars_iff,
  contains_dangerous_sequence_iff, is_one_of_iff, is_printable_ascii_iff,
}
use alertmanager_webhook_rel.Config.Validate.{
  Url, check_text, reject_dangerous, validate_limits, validate_notify, validate_server, check_dir,
  check_password, check_recipients, check_url, check_username, validate, validate_channels,
  validate_email, validate_pachca, check_credentials, check_envelope,
}

-- A text of at most this many bytes, with no control character and nothing dangerous.
abbrev pub IsText : ℕ → Text → Type 0
IsText max s = (length s ≤ max) × IsPlain s × IsHarmless s

-- The same with printable ASCII characters only.
abbrev pub IsSecret : ℕ → Text → Type 0
IsSecret max s = (length s ≤ max) × IsPrintable s × IsHarmless s

abbrev pub IsHttpUrl : Option Url → Type 0
IsHttpUrl none = ⊥
IsHttpUrl (some u) = ((u.scheme ≡ str "http") ⊎ (u.scheme ≡ str "https")) × (u.host ≢ [])

-- If there is a text, it meets this.
abbrev pub IfSet : (Text → Type 0) → Text → Type 0
IfSet P [] = Unit
IfSet P (b ∷ s) = P (b ∷ s)

pub record ServerIsValid (c : Config) : Type 0 where
  pub port : IsBetween 1 max_port c.port
  pub log_level : IsOneOf c.log_level valid_log_levels
  pub database_driver : IsOneOf c.database_driver valid_database_drivers
  pub dsn_set : c.database_dsn ≢ []
  pub dsn : IsText max_dsn_len c.database_dsn

pub record LimitsAreValid (c : Config) : Type 0 where
  pub payload_size : IsBetween 1024 max_max_payload_size c.max_payload_size
  pub alerts : IsBetween 1 1000 c.max_alerts_per_payload
  pub shutdown : IsBetween 1 max_shutdown_timeout c.shutdown_timeout
  pub pre_stop : IsBetween 0 max_pre_stop_delay c.pre_stop_delay

pub record NotifyIsValid (c : Config) : Type 0 where
  pub poll : IsBetween (1 * second) (60 * second) c.notify_poll_interval
  pub batch : IsBetween 1 500 c.notify_batch_size
  pub queue : IsBetween 10 10000 c.notify_queue_size
  pub timeout : IsBetween (5 * second) (120 * second) c.notify_send_timeout
  pub queue_holds_batch : c.notify_batch_size ≤ℤ c.notify_queue_size
  pub drain_after_delay : (c.pre_stop_delay ≤ℤ pos 0) ⊎ (c.pre_stop_delay <ℤ c.shutdown_timeout)

pub record CredentialsAreValid (e : EmailConfig) : Type 0 where
  pub password : IfSet (IsSecret max_email_password_len) e.password
  pub subject : IsText max_email_subject_prefix_len e.subject_prefix
  pub username : IfSet (IsText max_email_username_len) e.username
  pub both_or_neither : (e.username ≡ []) ↔ (e.password ≡ [])

module _ (std : Parsers) where
  pub record PachcaIsValid (p : PachcaConfig) : Type 0 where
    pub token_set : p.token ≢ []
    pub token : IsSecret max_pachca_token_len p.token
    pub chat : IsBetween 1 max_pachca_chat_id p.chat_id
    pub base_url : IsText max_pachca_base_url_len p.base_url
    pub http : IsHttpUrl (std.parse_url p.base_url)

  pub record EnvelopeIsValid (e : EmailConfig) : Type 0 where
    pub host_set : e.smtp_host ≢ []
    pub host : IsText max_email_smtp_host_len e.smtp_host
    pub port : IsBetween 1 max_port e.smtp_port
    pub from_set : e.from ≢ []
    pub from : std.is_address e.from ≡ true
    pub to_set : e.to ≢ []
    pub to : All (λ a. std.is_address a ≡ true) e.to
    pub tls_mode : IsOneOf e.tls_mode valid_tls_modes

  pub record IsValid (c : Config) : Type 0 where
    pub server : ServerIsValid c
    pub limits : LimitsAreValid c
    pub notify : NotifyIsValid c
    pub pachca : c.pachca.enabled ≡ true → PachcaIsValid c.pachca
    pub email : c.email.enabled ≡ true → EnvelopeIsValid c.email × CredentialsAreValid c.email
    pub dir : IfSet (IsText max_template_dir_len) c.template.dir

reject_dangerous_iff : (var : Var) (s : Text) → (reject_dangerous var s ≡ ok tt) ↔ IsHarmless s
unfolding reject_dangerous
reject_dangerous_iff var s = elim (Option-cases (contains_dangerous_sequence s)) [
  | inl clear ↦
      rw (clear, reject_dangerous) (λ h. (contains_dangerous_sequence_iff s).0 clear, λ h. refl)
  | inr (d, found) ↦
      rw (found, reject_dangerous)
        (λ h. cc, λ h. let none_found = (contains_dangerous_sequence_iff s).1 h in cc)
]

check_text_iff : (var : Var) (max : ℕ) (s : Text) → (check_text var max s ≡ ok tt) ↔ IsText max s
unfolding check_text
check_text_iff var max s = ground (arith, contains_control_chars_iff s, reject_dangerous_iff var s)

server_iff : (c : Config) → (validate_server c ≡ ok tt) ↔ ServerIsValid c
unfolding validate_server
server_iff c = ground (
  arith,
  is_one_of_iff c.log_level valid_log_levels,
  is_one_of_iff c.database_driver valid_database_drivers,
  check_text_iff Var.database_dsn max_dsn_len c.database_dsn,
)

limits_iff : (c : Config) → (validate_limits c ≡ ok tt) ↔ LimitsAreValid c
unfolding validate_limits
limits_iff c = ground arith

notify_iff : (c : Config) → (validate_notify c ≡ ok tt) ↔ NotifyIsValid c
unfolding validate_notify
notify_iff c = ground arith

module _ (std : Parsers) where
  url_iff : (u : Option Url) → (check_url std u ≡ ok tt) ↔ IsHttpUrl u
  unfolding check_url
  url_iff none = ground arith
  url_iff (some u) =
      ground (arith, text_eq_iff u.scheme (str "http"), text_eq_iff u.scheme (str "https"))

  pachca_iff : (p : PachcaConfig) → (validate_pachca std p ≡ ok tt) ↔ PachcaIsValid std p
  unfolding validate_pachca
  pachca_iff p = ground (
    arith,
    is_printable_ascii_iff p.token,
    reject_dangerous_iff Var.pachca_token p.token,
    check_text_iff Var.pachca_base_url max_pachca_base_url_len p.base_url,
    url_iff (std.parse_url p.base_url),
  )

  recipients_iff :
      (to : List Text) → (check_recipients std to ≡ ok tt) ↔ All (λ a. std.is_address a ≡ true) to
  unfolding check_recipients
  recipients_iff [] = ground arith
  recipients_iff (a ∷ to) = ground (arith, recipients_iff to)

  password_iff :
      (s : Text) → (check_password std s ≡ ok tt) ↔ IfSet (IsSecret max_email_password_len) s
  unfolding check_password
  password_iff [] = ground arith
  password_iff (b ∷ s) =
      ground
        (arith, is_printable_ascii_iff (b ∷ s), reject_dangerous_iff Var.email_password (b ∷ s))

  username_iff :
      (s : Text) → (check_username std s ≡ ok tt) ↔ IfSet (IsText max_email_username_len) s
  unfolding check_username
  username_iff [] = ground arith
  username_iff (b ∷ s) = check_text_iff Var.email_username max_email_username_len (b ∷ s)

  dir_iff : (s : Text) → (check_dir std s ≡ ok tt) ↔ IfSet (IsText max_template_dir_len) s
  unfolding check_dir
  dir_iff [] = ground arith
  dir_iff (b ∷ s) = check_text_iff Var.template_dir max_template_dir_len (b ∷ s)

  envelope_iff : (e : EmailConfig) → (check_envelope std e ≡ ok tt) ↔ EnvelopeIsValid std e
  unfolding check_envelope
  envelope_iff e = ground (
    arith,
    check_text_iff Var.email_smtp_host max_email_smtp_host_len e.smtp_host,
    recipients_iff e.to,
    is_one_of_iff e.tls_mode valid_tls_modes,
  )

  both_iff : (u p : Text) → (xor (is_empty u) (is_empty p) ≡ false) ↔ ((u ≡ []) ↔ (p ≡ []))
  unfolding xor
  both_iff [] [] = (λ h. (λ e. e, λ e. e), λ h. refl)
  both_iff [] (b ∷ p) = (λ h. cc, λ h. let e = h.0 refl in cc)
  both_iff (a ∷ u) [] = (λ h. cc, λ h. let e = h.1 refl in cc)
  both_iff (a ∷ u) (b ∷ p) = (λ h. (λ e. cc, λ e. cc), λ h. refl)

  credentials_iff : (e : EmailConfig) → (check_credentials std e ≡ ok tt) ↔ CredentialsAreValid e
  unfolding check_credentials
  credentials_iff e = ground (
    arith,
    password_iff e.password,
    check_text_iff Var.email_subject_prefix max_email_subject_prefix_len e.subject_prefix,
    username_iff e.username,
    both_iff e.username e.password,
  )

  email_iff :
      (e : EmailConfig)
      → (validate_email std e ≡ ok tt) ↔ (EnvelopeIsValid std e × CredentialsAreValid e)
  unfolding validate_email
  email_iff e = ground (arith, envelope_iff e, credentials_iff e)

  -- `validate` returns nil exactly on the valid configurations: every setting in its range, the
  -- queue no smaller than a batch, the delay before shutdown shorter than the shutdown, and the
  -- enabled channels complete.
  pub validate_iff : (c : Config) → (validate std c ≡ ok tt) ↔ IsValid std c
  unfolding validate validate_channels
  validate_iff c = ground (
    arith,
    server_iff c,
    limits_iff c,
    notify_iff c,
    pachca_iff c.pachca,
    email_iff c.email,
    dir_iff c.template.dir,
  )

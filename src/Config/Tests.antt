-- ===== src/Config/Tests.antt =====
-- internal/config: tests on one environment, and instances of the theorems.
use alertmanager_webhook_rel.Base.{
  Text, [], contains, has_prefix, none, ok, refl, str, text_eq, to_lower, trim_slashes, trim_space,
  ◌↔◌, ◌≡◌,
}
use alertmanager_webhook_rel.Config.Data.{Var}
use alertmanager_webhook_rel.Config.Samples.{parsers, some_set, default_config}
use alertmanager_webhook_rel.Config.Checks.{
  contains_dangerous_sequence, contains_control_chars, first_found, is_one_of,
}
use alertmanager_webhook_rel.Config.Checks.Laws.{IsHarmless, contains_dangerous_sequence_iff}
use alertmanager_webhook_rel.Config.Validate.{
  validate, check_dir, check_text, reject_dangerous, validate_channels, validate_limits,
  validate_notify, validate_server,
}
use alertmanager_webhook_rel.Config.Validate.Spec.{IsValid, validate_iff}
use alertmanager_webhook_rel.Config.Load.{
  load, duration_or, int_or, normalize, read_config, read_flag, read_or, recipients_of, text_or,
}
use alertmanager_webhook_rel.Config.Load.Spec.{Reads, load-IsValid}
use alertmanager_webhook_rel.Config.Log.{log_value, log_value-with_secrets, with_secrets}

abbrev nothing_set : Var → Text
nothing_set v = []

loaded : load parsers some_set ≡ ok default_config
unfolding load read_config int_or duration_or read_or text_or read_flag recipients_of normalize
    trim_space trim_slashes to_lower validate validate_server validate_limits validate_notify
    validate_channels check_text reject_dangerous check_dir contains_dangerous_sequence first_found
    contains contains_control_chars is_one_of text_eq has_prefix
loaded = refl

-- A space before the slash that is trimmed stays.
space_left : trim_slashes (trim_space (str "https://h/p /")) ≡ str "https://h/p "
unfolding trim_slashes trim_space
space_left = refl

load-IsValid_example : IsValid parsers default_config × Reads parsers some_set default_config
load-IsValid_example = load-IsValid parsers some_set loaded

validate_iff_example : (validate parsers default_config ≡ ok tt) ↔ IsValid parsers default_config
validate_iff_example = validate_iff parsers default_config

contains_dangerous_sequence_iff_example :
    (contains_dangerous_sequence (str "a%0Ab") ≡ none) ↔ IsHarmless (str "a%0Ab")
contains_dangerous_sequence_iff_example = contains_dangerous_sequence_iff (str "a%0Ab")

log_value-with_secrets_example :
    log_value (with_secrets default_config (str "file:x") (str "t0k") (str "pw"))
    ≡ log_value default_config
log_value-with_secrets_example =
    log_value-with_secrets default_config (str "file:x") (str "t0k") (str "pw")

-- ===== src/Channel.antt =====
-- internal/channel: what the formatters of both channels share; the source has it twice.
pub mod Reorder
pub mod Content
mod Samples
pub mod Pachca
pub mod Email
use alertmanager_webhook_rel.Base.{
  Bool, Dict, List, Option, Text, [], filter_map, if◌then◌else◌, leb, ltz, map, none, pos, some,
  str, suc, text_eq, ℕ, ◌&&◌, ◌-◌, ◌||◌, ◌∷◌,
}
use alertmanager_webhook_rel.Alerts.{Alert, Instant, status_firing, status_resolved}
use alertmanager_webhook_rel.Notify.{Notification}
use alertmanager_webhook_rel.Config.Checks.{is_one_of}

abbrev pub filtered_labels : List Text
filtered_labels = str "alertname" ∷ str "severity" ∷ []

abbrev kept_key : Text × Text → Option Text
kept_key (k, v) = if is_one_of k filtered_labels then none else some k

-- The keys of the labels that are not filtered.
unfoldable pub kept_keys : Dict → List Text
kept_keys labels = filter_map kept_key labels

unfoldable pub count_by_status : List Alert → Text → ℕ
count_by_status [] status = 0
count_by_status (a ∷ alerts) status =
    let rest = count_by_status alerts status in if text_eq a.status status then suc rest else rest

upper_byte : ℕ → ℕ
upper_byte c = if leb b'a' c && leb c b'z' then c - 32 else c

-- `strings.ToUpper` on an ASCII text, as every status that was validated is.
unfoldable pub to_upper : Text → Text
unfolding upper_byte
to_upper s = map upper_byte s

-- `!t.IsZero()`
abbrev pub is_set : Instant → Bool
is_set t = ltz t (pos 0) || ltz (pos 0) t

-- The count in a notification's title.
unfoldable pub title_count : Notification → ℕ
title_count n =
    if text_eq n.status status_resolved
    then count_by_status n.alerts status_resolved
    else count_by_status n.alerts status_firing

abbrev pub is_resolved : Text → Bool
is_resolved status = text_eq status status_resolved

unfoldable pub title_label : Text → Text
title_label status = if is_resolved status then str "RESOLVED" else str "FIRING"

-- ===== src/Channel/Reorder.antt =====
-- internal/channel: notifications that differ only in the order in which Go visits their maps.
use mathlib.Core.List.Perm
use alertmanager_webhook_rel.Base.{
  Dict, HasUniqueKeys, List, Perm, Permᴰ, Text, [], arith, at, at_perm, refl, ∥∥₁_elim, ◌∙◌, ◌∷◌,
  ◌≡◌,
}
use alertmanager_webhook_rel.Alerts.{Alert, status_firing, status_resolved}
use alertmanager_webhook_rel.Config.Checks.{is_one_of}
use alertmanager_webhook_rel.Notify.{Notification}
use alertmanager_webhook_rel.Channel.{kept_keys, count_by_status, kept_key, title_count}

-- Two listings of one map.
abbrev pub SameMap : Dict → Dict → Type 0
SameMap l m = Perm l m × HasUniqueKeys l

pub record SameAlert (a b : Alert) : Type 0 where
  pub status : a.status ≡ b.status
  pub labels : SameMap a.labels b.labels
  pub annotations : SameMap a.annotations b.annotations
  pub starts_at : a.starts_at ≡ b.starts_at
  pub ends_at : a.ends_at ≡ b.ends_at
  pub generator_url : a.generator_url ≡ b.generator_url

abbrev pub SameAlerts : List Alert → List Alert → Type 0
SameAlerts [] [] = Unit
SameAlerts (a ∷ xs) (b ∷ ys) = SameAlert a b × SameAlerts xs ys
SameAlerts _ _ = ⊥

-- The same notification, with its maps listed in another order.
pub record SameContent (n m : Notification) : Type 0 where
  pub status : n.status ≡ m.status
  pub receiver : n.receiver ≡ m.receiver
  pub alerts : SameAlerts n.alerts m.alerts
  pub common_labels : SameMap n.common_labels m.common_labels
  pub external_url : n.external_url ≡ m.external_url
  pub alerts_count : n.alerts_count ≡ m.alerts_count
  pub truncated_alerts : n.truncated_alerts ≡ m.truncated_alerts

pub at_same : (l m : Dict) (k : Text) → SameMap l m → at l k ≡ at m k
at_same l m k s = at_perm l m k s.0 s.1

pub kept_keys_perm : (l m : Dict) → Perm l m → Perm (kept_keys l) (kept_keys m)
unfolding kept_keys
kept_keys_perm l m p = Perm.filter_map kept_key p

is_one_of-Permᴰ : {l m : List Text} (k : Text) → Permᴰ l m → is_one_of k l ≡ is_one_of k m
unfolding is_one_of
is_one_of-Permᴰ k Permᴰ.nil = refl
is_one_of-Permᴰ k (Permᴰ.cons e p) = ground (arith, is_one_of-Permᴰ k p)
is_one_of-Permᴰ k (Permᴰ.swap e f) = ground arith
is_one_of-Permᴰ k (Permᴰ.trans p q) = is_one_of-Permᴰ k p ∙ is_one_of-Permᴰ k q

pub is_one_of_perm : (l m : List Text) (k : Text) → Perm l m → is_one_of k l ≡ is_one_of k m
is_one_of_perm l m k p = ∥∥₁_elim p (hlevel) (λ d. is_one_of-Permᴰ k d)

pub count_by_status_same :
    (xs ys : List Alert) (status : Text)
    → SameAlerts xs ys
    → count_by_status xs status ≡ count_by_status ys status
unfolding count_by_status
count_by_status_same [] [] status s = refl
count_by_status_same (a ∷ xs) (b ∷ ys) status s =
    let same = s.0.status in ground (arith, count_by_status_same xs ys status s.1)
count_by_status_same [] (b ∷ ys) status s = absurd s
count_by_status_same (a ∷ xs) [] status s = absurd s

pub title_count_same : (n m : Notification) → SameContent n m → title_count n ≡ title_count m
unfolding title_count
title_count_same n m s =
    let status = s.status in
    let fired = count_by_status_same n.alerts m.alerts status_firing s.alerts in
    let resolved = count_by_status_same n.alerts m.alerts status_resolved s.alerts in cc

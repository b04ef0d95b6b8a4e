-- ===== src/Notify/Dispatcher/Invariant.antt =====
-- internal/notify/dispatcher.go: what holds in every state that a schedule can reach.
use alertmanager_webhook_rel.Base.{
  All, Text, arith, false, get_elem?, if◌then◌else◌, length, length-set, set, some, true, ℕ, ◌+◌,
  ◌<◌, ◌≡◌, ◌≤◌,
}
use alertmanager_webhook_rel.Notify.State.{State, Phase, Lane, collecting, fanning}
use alertmanager_webhook_rel.Notify.Dispatcher.Lanes.{
  total, All-get, All-set, Carries, failure, failures, load, total-set, unsent,
}

-- How many results the dispatcher still expects.
abbrev pub expected : Phase → ℕ
expected (fanning n i enqueued gs) = enqueued
expected (collecting n k all_ok gs) = k
expected _ = 0

-- All that is under way is about the current notification.
abbrev pub IsCurrent : State → Phase → Type 0
IsCurrent s (fanning n i enqueued gs) =
    All (Carries n.group_key) s.lanes × All (λ r. r.group_key ≡ n.group_key) s.results
IsCurrent s (collecting n k all_ok gs) =
    All (Carries n.group_key) s.lanes × All (λ r. r.group_key ≡ n.group_key) s.results
IsCurrent s _ = Unit {0}

-- The failed sends that the dispatcher has not received yet.
abbrev pub unseen : State → ℕ
unseen s = total failure s.lanes + failures s.results

-- `allOK` says whether a failure was received.
abbrev pub IsHonest : State → Phase → Type 0
IsHonest s (fanning n i enqueued gs) =
    (s.round.failed ≡ unseen s)
    × (s.round.accepted ≡ enqueued)
    × (enqueued ≤ i)
    × (i ≤ length s.lanes)
IsHonest s (collecting n k all_ok gs) =
    (if all_ok then s.round.failed ≡ unseen s else (unseen s < s.round.failed))
    × (0 < s.round.accepted)
    × (k ≤ s.round.accepted)
    × (s.round.accepted ≤ length s.lanes)
IsHonest s _ = Unit {0}

-- The invariant, with the dispatcher at this place.
pub record InvAt (s : State) (p : Phase) : Type 0 where
  pub counts : total load s.lanes + length s.results ≡ expected p
  pub sums : s.round.delivered + s.round.failed + total unsent s.lanes ≡ s.round.accepted
  pub current : IsCurrent s p
  pub honest : IsHonest s p

abbrev pub Inv : State → Type 0
Inv s = InvAt s s.phase

IsHonest-keep :
    (s t : State) (p : Phase)
    → t.round.accepted ≡ s.round.accepted
    → length t.lanes ≡ length s.lanes
    → t.round.failed + unseen s ≡ s.round.failed + unseen t
    → IsHonest s p
    → IsHonest t p
IsHonest-keep s t (fanning n i enqueued gs) a l f h = omega arith
IsHonest-keep s t (collecting n k true gs) a l f h = omega arith
IsHonest-keep s t (collecting n k false gs) a l f h = omega arith
IsHonest-keep s t _ a l f h = tt

module _ (s t : State) (i : ℕ) (old new : Lane) (at_i : get_elem? s.lanes i ≡ some old)
    (lanes : t.lanes ≡ set s.lanes i new) where
  IsCurrent-keep :
      (p : Phase)
      → ((key : Text)
          → Carries key old
          → All (λ r. r.group_key ≡ key) s.results
          → Carries key new × All (λ r. r.group_key ≡ key) t.results)
      → IsCurrent s p
      → IsCurrent t p
  IsCurrent-keep (fanning n j enqueued gs) keep h =
      let (carried, found) =
        keep n.group_key (All-get (Carries n.group_key) s.lanes i old h.0 at_i) h.1 in
      (rw lanes (All-set (Carries n.group_key) s.lanes i new h.0 carried), found)
  IsCurrent-keep (collecting n k all_ok gs) keep h =
      let (carried, found) =
        keep n.group_key (All-get (Carries n.group_key) s.lanes i old h.0 at_i) h.1 in
      (rw lanes (All-set (Carries n.group_key) s.lanes i new h.0 carried), found)
  IsCurrent-keep _ keep h = tt

  -- A step that rewrites one lane, and perhaps appends a result, keeps the invariant if it keeps
  -- these sums.
  pub lane-InvAt :
      (p : Phase)
      → t.round.accepted ≡ s.round.accepted
      → load new + length t.results ≡ load old + length s.results
      → t.round.delivered + t.round.failed + unsent new
        ≡ s.round.delivered + s.round.failed + unsent old
      → t.round.failed + failure old + failures s.results
        ≡ s.round.failed + failure new + failures t.results
      → ((key : Text)
          → Carries key old
          → All (λ r. r.group_key ≡ key) s.results
          → Carries key new × All (λ r. r.group_key ≡ key) t.results)
      → InvAt s p
      → InvAt t p
  lane-InvAt p a l u f keep v =
      let loads = total-set load s.lanes i old new at_i in
      let unsents = total-set unsent s.lanes i old new at_i in
      let fails = total-set failure s.lanes i old new at_i in
      let size = length-set s.lanes i new in
      record {
        counts = rw lanes (omega (arith, v.counts));
        sums = rw lanes (omega (arith, v.sums));
        current = IsCurrent-keep p keep v.current;
        honest = IsHonest-keep s t p a (rw lanes size) (rw lanes (omega arith)) v.honest;
      }

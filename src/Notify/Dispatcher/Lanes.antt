-- ===== src/Notify/Dispatcher/Lanes.antt =====
-- internal/notify/dispatcher.go: what the lanes hold together, and how a write to one lane changes it.
use alertmanager_webhook_rel.Base.{
  All, List, Text, [], arith, get_elem?, if◌then◌else◌, length, set, some, subst, suc, zero, ℕ, ◌+◌,
  ◌∷◌, ◌≡◌, ◌≤◌,
}
use alertmanager_webhook_rel.Notify.{Notification, SendResult}
use alertmanager_webhook_rel.Notify.State.{
  Worker, Lane, idle, reporting, returned, sending, waiting,
}
use alertmanager_webhook_rel.Notify.Dispatcher.{succeeded}

-- Notifications that a worker has taken and not yet reported.
abbrev pub busy : Worker → ℕ
busy (sending n) = 1
busy (reporting r) = 1
busy _ = 0

abbrev pub unsent_by : Worker → ℕ
unsent_by (sending n) = 1
unsent_by _ = 0

abbrev pub failures : List SendResult → ℕ
failures [] = 0
failures (r ∷ rest) = (if succeeded r.err then 0 else 1) + failures rest

abbrev pub failure_by : Worker → ℕ
failure_by (reporting r) = if succeeded r.err then 0 else 1
failure_by _ = 0

-- Queued or with the worker; not yet sent; failed and not yet reported.
abbrev pub load : Lane → ℕ
load lane = length lane.queue.ch + busy lane.worker

abbrev pub unsent : Lane → ℕ
unsent lane = length lane.queue.ch + unsent_by lane.worker

abbrev pub failure : Lane → ℕ
failure lane = failure_by lane.worker

abbrev pub total : (Lane → ℕ) → List Lane → ℕ
total f [] = 0
total f (lane ∷ lanes) = f lane + total f lanes

pub total-set :
    (f : Lane → ℕ) (lanes : List Lane) (i : ℕ) (old new : Lane)
    → get_elem? lanes i ≡ some old
    → total f (set lanes i new) + f old ≡ total f lanes + f new
total-set f [] i old new h = cc
total-set f (l ∷ lanes) zero old new h = ground arith
total-set f (l ∷ lanes) (suc i) old new h = omega (arith, total-set f lanes i old new h)

pub unsent-le-load : (lanes : List Lane) → total unsent lanes ≤ total load lanes
unsent-le-load [] = omega arith
unsent-le-load (l ∷ lanes) = ground (arith, unsent-le-load lanes)

failure_of_worker : (w : Worker) → failure_by w ≤ busy w
failure_of_worker (reporting r) = ground arith
failure_of_worker _ = omega arith

pub failure-le-load : (lanes : List Lane) → total failure lanes ≤ total load lanes
failure-le-load [] = omega arith
failure-le-load (l ∷ lanes) = omega (arith, failure_of_worker l.worker, failure-le-load lanes)

-- Everything in the lane is about the alert group with this key.
abbrev pub HasKey : Text → Worker → Type 0
HasKey key (sending n) = n.group_key ≡ key
HasKey key (reporting r) = r.group_key ≡ key
HasKey key _ = Unit

abbrev pub Carries : Text → Lane → Type 0
Carries key lane = All (λ n. n.group_key ≡ key) lane.queue.ch × HasKey key lane.worker

pub All-set :
    (P : Lane → Type 0) (lanes : List Lane) (i : ℕ) (new : Lane)
    → All P lanes
    → P new
    → All P (set lanes i new)
All-set P [] i new h p = tt
All-set P (l ∷ lanes) zero new h p = (p, h.1)
All-set P (l ∷ lanes) (suc i) new h p = (h.0, All-set P lanes i new h.1 p)

pub All-get :
    (P : Lane → Type 0) (lanes : List Lane) (i : ℕ) (l : Lane)
    → All P lanes
    → get_elem? lanes i ≡ some l
    → P l
All-get P [] i l h e = cc
All-get P (x ∷ lanes) zero l h e = let same : x ≡ l = cc e in subst P same h.0
All-get P (x ∷ lanes) (suc i) l h e = All-get P lanes i l h.1 e

queue_carries :
    (key : Text) (ns : List Notification) → length ns ≡ 0 → All (λ n. n.group_key ≡ key) ns
queue_carries key [] h = tt
queue_carries key (n ∷ ns) h = absurd (omega arith)

worker_carries : (key : Text) (w : Worker) → busy w ≡ 0 → HasKey key w
worker_carries key idle h = tt
worker_carries key waiting h = tt
worker_carries key (sending n) h = absurd (omega arith)
worker_carries key (reporting r) h = absurd (omega arith)
worker_carries key returned h = tt

lane-Carries : (key : Text) (l : Lane) → load l ≡ 0 → Carries key l
lane-Carries key l h =
    (queue_carries key l.queue.ch (omega arith), worker_carries key l.worker (omega arith))

-- Lanes that hold nothing carry any key.
pub Carries-of_empty :
    (key : Text) (lanes : List Lane) → total load lanes ≡ 0 → All (Carries key) lanes
Carries-of_empty key [] h = tt
Carries-of_empty key (l ∷ lanes) h =
    (lane-Carries key l (omega arith), Carries-of_empty key lanes (omega arith))

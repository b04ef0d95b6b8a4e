-- ===== src/Notify/Dispatcher/FanOut.antt =====
-- internal/notify: the dispatcher offers a group to every queue, where each has room.
use alertmanager_webhook_rel.Base.{
  All, Bool, List, [], ap, arith, at, false, get_elem?, length, length-append, ltb, none, ok, refl,
  set, snoc-append, some, subst, suc, sym, true, ℕ, ◌++◌, ◌+◌, ◌<◌, ◌∙◌, ◌∷◌, ◌≡◌,
}
use alertmanager_webhook_rel.Alerts.{AlertGroup, Instant}
use alertmanager_webhook_rel.Notify.{Notification, new_notification}
use alertmanager_webhook_rel.Notify.Queue.{Queue, enqueue, enqueue_select, on_buffer}
use alertmanager_webhook_rel.Notify.State.{State, Lane, collecting, fanning, no_round, polling}
use alertmanager_webhook_rel.Notify.Dispatcher.Ends.{run-snoc}
use alertmanager_webhook_rel.Notify.Dispatcher.{
  step, run, Action, advance, advance_phase, after_enqueue, begin, begin_group, begin_phase, offer,
  offer_lane, offer_phase, settle,
}

-- The queue is not closed, and its buffer has room.
abbrev pub HasRoom : Lane → Type 0
HasRoom lane = (lane.queue.closed ≡ false) × (length lane.queue.ch < lane.queue.size)

-- The next `Enqueue` finds room.
abbrev pub offers : List Lane → List Action
offers [] = []
offers (lane ∷ lanes) = offer false on_buffer ∷ offers lanes

pub get_elem-append :
    (before : List Lane) (lane : Lane) (behind : List Lane)
    → get_elem? (before ++ lane ∷ behind) (length before) ≡ some lane
get_elem-append [] lane behind = refl
get_elem-append (l ∷ before) lane behind = get_elem-append before lane behind

pub set-append :
    (before : List Lane) (lane new : Lane) (behind : List Lane)
    → set (before ++ lane ∷ behind) (length before) new ≡ before ++ new ∷ behind
set-append [] lane new behind = refl
set-append (l ∷ before) lane new behind = ap (λ ls. l ∷ ls) (set-append before lane new behind)

pub get_elem_beyond : (lanes : List Lane) → get_elem? lanes (length lanes) ≡ none
get_elem_beyond [] = refl
get_elem_beyond (l ∷ lanes) = get_elem_beyond lanes

enqueue_room :
    (q : Queue Notification) (expired : Bool) (n : Notification)
    → q.closed ≡ false
    → length q.ch < q.size
    → enqueue q expired n on_buffer ≡ some (ok tt, record q { ch = q.ch ++ n ∷ [] })
unfolding enqueue enqueue_select
enqueue_room q expired n not_closed room =
    let free : ltb (length q.ch) q.size ≡ true = ground (arith, room) in
    simp (not_closed, free) refl

-- What the fan-out leaves as it is.
abbrev pub Untouched : State → State → Type 0
Untouched s t =
    (length t.lanes ≡ length s.lanes) × (t.round.failed ≡ s.round.failed) × (t.marked ≡ s.marked)

module _ (n : Notification) (gs : List AlertGroup) where
  -- The queue of this lane has taken the notification.
  loaded : Lane → Lane
  loaded lane = record lane { queue = record lane.queue { ch = lane.queue.ch ++ n ∷ [] } }

  taken : State → List Lane → Lane → List Lane → ℕ → State
  taken s before lane behind e = record s {
    lanes = before ++ loaded lane ∷ behind;
    phase = fanning n (suc (length before)) (suc e) gs;
    round = record s.round { accepted = suc s.round.accepted };
  }

  offer-taken :
      (s : State) (before : List Lane) (lane : Lane) (behind : List Lane) (e : ℕ)
      → s.phase ≡ fanning n (length before) e gs
      → s.lanes ≡ before ++ lane ∷ behind
      → HasRoom lane
      → step s (offer false on_buffer) ≡ taken s before lane behind e
  unfolding step offer_phase offer_lane after_enqueue taken loaded
  offer-taken s before lane behind e at split (not_closed, room) =
      let there : get_elem? s.lanes (length before) ≡ some lane =
        ap (λ ls. get_elem? ls (length before)) split ∙ get_elem-append before lane behind in
      let same : set s.lanes (length before) (loaded lane) ≡ before ++ loaded lane ∷ behind =
        ap (λ ls. set ls (length before) (loaded lane)) split
        ∙ set-append before lane (loaded lane) behind in
      ap (offer_phase s false on_buffer) at
      ∙ ap (offer_lane s n (length before) e gs s.ctx_done on_buffer) there
      ∙ ap (after_enqueue s n (length before) e gs lane)
          (enqueue_room lane.queue s.ctx_done n not_closed room)
      ∙ ap
          (λ ls. record s {
            lanes = ls;
            phase = fanning n (suc (length before)) (suc e) gs;
            round = record s.round { accepted = suc s.round.accepted };
          })
          same

  pub fanning_eq : {i j e f : ℕ} → i ≡ j → e ≡ f → fanning n i e gs ≡ fanning n j f gs
  fanning_eq p q = cc

  fan_out :
      (s : State) (before todo : List Lane) (e : ℕ)
      → s.phase ≡ fanning n (length before) e gs
      → s.lanes ≡ before ++ todo
      → All HasRoom todo
      → let t = run s (offers todo) in
        (t.phase ≡ fanning n (length s.lanes) (e + length todo) gs) × Untouched s t
  unfolding run taken
  fan_out s before [] e here split room = (
    here ∙ fanning_eq (omega (arith, ap length split, length-append before [])) (omega arith),
    (refl, refl, refl),
  )
  fan_out s before (lane ∷ todo) e here split room =
      let t = taken s before lane todo e in
      let new = loaded lane in
      let size : length (before ++ new ∷ todo) ≡ length s.lanes = omega (
        arith,
        ap length split,
        length-append before (lane ∷ todo),
        length-append before (new ∷ todo),
      ) in
      let (later, (lanes, failed, marked)) =
        fan_out t (before ++ new ∷ []) todo (suc e)
          (fanning_eq (omega (arith, length-append before (new ∷ []))) refl)
          (sym (snoc-append before new todo)) room.1 in
      subst
        (λ x.
          ((run x (offers todo)).phase ≡ fanning n (length s.lanes) (e + suc (length todo)) gs)
          × Untouched s (run x (offers todo)))
        (sym (offer-taken s before lane todo e here split room.0))
        (later ∙ fanning_eq size (omega arith), (lanes ∙ size, failed, marked))

  -- Every lane was visited.
  settled :
      (t : State) (i k : ℕ)
      → t.phase ≡ fanning n i (suc k) gs
      → get_elem? t.lanes i ≡ none
      → step t advance ≡ record t { phase = collecting n (suc k) true gs }
  unfolding step advance_phase settle
  settled t i k here beyond = ap (advance_phase t) here ∙ ap (settle t n (suc k) gs) beyond

-- The dispatcher takes the group and offers its notification to every queue.
abbrev pub round_begins : State → Instant → List Action
round_begins s now = begin now ∷ offers s.lanes ++ advance ∷ []

pub round_begins-collecting :
    (s : State) (now : Instant) (g : AlertGroup) (gs : List AlertGroup) (lane : Lane)
    (lanes : List Lane)
    → s.phase ≡ polling (g ∷ gs)
    → s.lanes ≡ lane ∷ lanes
    → All HasRoom s.lanes
    → let t = run s (round_begins s now) in
      (t.phase ≡ collecting (new_notification now g) (length s.lanes) true gs)
      × (t.round.failed ≡ 0)
      × (t.marked ≡ s.marked)
unfolding run begin_phase begin_group
round_begins-collecting s now g gs lane lanes here some_lane room =
    let n = new_notification now g in
    let s1 : State = record s { phase = fanning n 0 0 gs; round = no_round } in
    let begun : step s (begin now) ≡ s1 = unfold step in ap (begin_phase s now) here in
    let t = run s1 (offers s.lanes) in
    let (offered, (as_many, failed, marked)) = fan_out n gs s1 [] s.lanes 0 refl refl room in
    let count : length s.lanes ≡ suc (length lanes) = ap length some_lane in
    let beyond : get_elem? t.lanes (length s.lanes) ≡ none =
      ap (get_elem? t.lanes) (sym as_many) ∙ get_elem_beyond t.lanes in
    let whole : run s (round_begins s now)
        ≡ record t { phase = collecting n (suc (length lanes)) true gs } =
      ap (λ x. run x (offers s.lanes ++ advance ∷ [])) begun
      ∙ run-snoc s1 (offers s.lanes) advance
      ∙ settled n gs t (length s.lanes) (length lanes)
          (offered ∙ fanning_eq n gs {f = suc (length lanes)} refl (omega (arith, count))) beyond in
    (
      ap (λ (x : State). x.phase) whole ∙ ap (λ k. collecting n k true gs) (sym count),
      ap (λ (x : State). x.round.failed) whole ∙ failed,
      ap (λ (x : State). x.marked) whole ∙ marked,
    )

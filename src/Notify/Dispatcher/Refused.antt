-- ===== src/Notify/Dispatcher/Refused.antt =====
-- internal/notify: a round of a cancelled dispatcher in which no queue takes the notification.
use alertmanager_webhook_rel.Base.{
  Bool-cases, List, [], ap, append_nil, arith, err, false, get_elem?, inl, inr, length,
  length-append, refl, set, snoc-append, some, suc, sym, true, zero, ℕ, ◌++◌, ◌∙◌, ◌∷◌, ◌≡◌,
}
use alertmanager_webhook_rel.Alerts.{AlertGroup, Instant}
use alertmanager_webhook_rel.Notify.{Notification, new_notification}
use alertmanager_webhook_rel.Notify.Queue.{
  Queue, QueueError, enqueue, enqueue_select, on_ctx, queue_closed, queue_full,
}
use alertmanager_webhook_rel.Notify.State.{State, Lane, fanning, no_round, polling}
use alertmanager_webhook_rel.Notify.Dispatcher.{
  step, run, Action, advance, advance_phase, after_enqueue, begin, begin_group, begin_phase, offer,
  offer_lane, offer_phase, settle,
}
use alertmanager_webhook_rel.Notify.Dispatcher.Ends.{run-snoc}
use alertmanager_webhook_rel.Notify.Dispatcher.FanOut.{get_elem-append, get_elem_beyond, set-append}

-- The `select` of each `Enqueue` takes the context, which the dispatcher's cancellation has ended.
abbrev pub refusals : List Lane → List Action
refusals [] = []
refusals (l ∷ lanes) = offer false on_ctx ∷ refusals lanes

abbrev pub refused_round : State → Instant → List Action
refused_round s now = begin now ∷ refusals s.lanes ++ advance ∷ []

enqueue_refused :
    (q : Queue Notification) (n : Notification)
    → (e : QueueError) × (enqueue q true n on_ctx ≡ some (err e, q))
unfolding enqueue enqueue_select
enqueue_refused q n = elim (Bool-cases q.closed) [
  | inl is_closed ↦ rw is_closed (queue_closed, refl)
  | inr is_open ↦ rw is_open (queue_full, refl)
]

module _ (n : Notification) (gs : List AlertGroup) where
  passed : State → ℕ → State
  passed s i = record s { phase = fanning n i zero gs }

  offer-passed :
      (s : State) (before : List Lane) (lane : Lane) (behind : List Lane)
      → s.lanes ≡ before ++ lane ∷ behind
      → s.ctx_done ≡ true
      → step (passed s (length before)) (offer false on_ctx) ≡ passed s (suc (length before))
  unfolding step offer_phase offer_lane after_enqueue passed
  offer-passed s before lane behind split over =
      let i = length before in
      let t = passed s i in
      let there : get_elem? s.lanes i ≡ some lane =
        ap (λ ls. get_elem? ls i) split ∙ get_elem-append before lane behind in
      let same : set s.lanes i lane ≡ s.lanes =
        ap (λ ls. set ls i lane) split ∙ set-append before lane lane behind ∙ sym split in
      let (e, refused) = enqueue_refused lane.queue n in
      ap (offer_lane t n i zero gs s.ctx_done on_ctx) there
      ∙ ap (λ b. after_enqueue t n i zero gs lane (enqueue lane.queue b n on_ctx)) over
      ∙ ap (after_enqueue t n i zero gs lane) refused
      ∙ ap (λ ls. record s { lanes = ls; phase = fanning n (suc i) zero gs }) same

  all_refused :
      (s : State) (before todo : List Lane)
      → s.lanes ≡ before ++ todo
      → s.ctx_done ≡ true
      → run (passed s (length before)) (refusals todo) ≡ passed s (length s.lanes)
  unfolding run
  all_refused s before [] split over =
      ap (λ ls. passed s (length ls)) (sym (split ∙ append_nil before))
  all_refused s before (lane ∷ todo) split over =
      let new = before ++ lane ∷ [] in
      let count : suc (length before) ≡ length new =
        omega (arith, length-append before (lane ∷ [])) in
      ap (λ t. run t (refusals todo))
        (offer-passed s before lane todo split over ∙ ap (passed s) count)
      ∙ all_refused s new todo (split ∙ sym (snoc-append before lane todo)) over

  passed-settled :
      (s : State) → step (passed s (length s.lanes)) advance ≡ record s { phase = polling gs }
  unfolding step advance_phase settle passed
  passed-settled s = ap (settle (passed s (length s.lanes)) n zero gs) (get_elem_beyond s.lanes)

-- The round leaves nothing but the group behind.
pub refused_round-skips :
    (s : State) (now : Instant) (g : AlertGroup) (gs : List AlertGroup)
    → s.phase ≡ polling (g ∷ gs)
    → s.ctx_done ≡ true
    → run s (refused_round s now) ≡ record s { phase = polling gs; round = no_round }
unfolding run begin_phase begin_group passed
refused_round-skips s now g gs here over =
    let n = new_notification now g in
    let s0 : State = record s { round = no_round } in
    let begun : step s (begin now) ≡ passed n gs s0 0 =
      unfold step in ap (begin_phase s now) here in
    ap (λ x. run x (refusals s.lanes ++ advance ∷ [])) begun
    ∙ run-snoc (passed n gs s0 0) (refusals s.lanes) advance
    ∙ ap (λ x. step x advance) (all_refused n gs s0 [] s.lanes refl over)
    ∙ passed-settled n gs s0

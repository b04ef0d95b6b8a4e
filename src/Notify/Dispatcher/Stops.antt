-- ===== src/Notify/Dispatcher/Stops.antt =====
-- internal/notify: the shutdown ends.
use alertmanager_webhook_rel.Base.{
  All, All-append, List, Text, [], ap, arith, false, inl, inr, length, length-append, map, refl,
  subst, true, ℕ, ◌*◌, ◌++◌, ◌+◌, ◌∙◌, ◌∷◌, ◌≡◌,
}
use alertmanager_webhook_rel.Notify.Queue.{on_done}
use alertmanager_webhook_rel.Notify.State.{State, Lane, selecting, stopped, start}
use alertmanager_webhook_rel.Notify.Dispatcher.{
  step, run, Action, advance, advance_phase, all_done, all_returned, close_queue, work,
}
use alertmanager_webhook_rel.Notify.Dispatcher.Open.{OpenAt}
use alertmanager_webhook_rel.Notify.Dispatcher.OpenSteps.{run-start-OpenAt}
use alertmanager_webhook_rel.Notify.Dispatcher.Invariant.{InvAt}
use alertmanager_webhook_rel.Notify.Dispatcher.Reach.{run-start-Inv}
use alertmanager_webhook_rel.Notify.Dispatcher.NextGroup.{run-append}
use alertmanager_webhook_rel.Notify.Dispatcher.Closing.{
  IsQuiet, IsQuiet-All, shut, gone, closings, closing_at, run-closings, all_done-shut,
  length-closings,
}
use alertmanager_webhook_rel.Notify.Dispatcher.Returning.{
  joining_at, returns, run-returns, all_returned-gone, length-returns,
}

-- A step of the dispatcher's goroutine or of a worker whose queue is closed.
abbrev pub IsEnding : Action → Type 0
IsEnding advance = Unit
IsEnding (close_queue i) = Unit
IsEnding (work i choice e) = choice ≡ on_done
IsEnding _ = ⊥

IsEnding-closings : (before lanes : List Lane) → All IsEnding (closings before lanes)
IsEnding-closings before [] = tt
IsEnding-closings before (l ∷ lanes) = (tt, IsEnding-closings (before ++ shut l ∷ []) lanes)

IsEnding-returns : (before lanes : List Lane) → All IsEnding (returns before lanes)
IsEnding-returns before [] = tt
IsEnding-returns before (l ∷ lanes) = (refl, (refl, IsEnding-returns (before ++ gone l ∷ []) lanes))

abbrev last_steps : List Lane → List Action
last_steps lanes = returns [] lanes ++ advance ∷ []

abbrev closing_steps : List Lane → List Action
closing_steps lanes = closings [] lanes ++ advance ∷ last_steps lanes

-- The goroutine leaves its `select` and closes the queues; the workers return, and it ends.
abbrev ending : List Lane → List Action
ending lanes = advance ∷ closing_steps lanes

abbrev ended_at : State → List Lane → State
ended_at s lanes = record s {
  lanes = lanes;
  results = [];
  worker_ctx_done = true;
  running = false;
  phase = stopped;
}

advance-selecting :
    (s : State) → s.phase ≡ selecting → s.ctx_done ≡ true → step s advance ≡ closing_at s s.lanes
unfolding step advance_phase
advance-selecting s here over = ap (advance_phase s) here ∙ simp over refl

advance-closing :
    (s : State) (lanes : List Lane)
    → all_done lanes ≡ true
    → step (closing_at s lanes) advance ≡ joining_at s lanes
unfolding step advance_phase
advance-closing s lanes h = simp h refl

advance-joining :
    (s : State) (lanes : List Lane)
    → all_returned lanes ≡ true
    → step (joining_at s lanes) advance ≡ ended_at s lanes
unfolding step advance_phase
advance-joining s lanes h = simp h refl

run-ending :
    (s : State)
    → s.phase ≡ selecting
    → s.ctx_done ≡ true
    → All IsQuiet s.lanes
    → run s (ending s.lanes) ≡ ended_at s (map gone s.lanes)
unfolding run
run-ending s here over quiet =
    let lanes = s.lanes in
    let last = last_steps lanes in
    ap (λ t. run t (closing_steps lanes)) (advance-selecting s here over)
    ∙ run-append (closing_at s lanes) (closings [] lanes) (advance ∷ last)
    ∙ ap (λ t. run t (advance ∷ last)) (run-closings s [] lanes quiet)
    ∙ ap (λ t. run t last) (advance-closing s (map shut lanes) (all_done-shut lanes))
    ∙ run-append (joining_at s (map shut lanes)) (returns [] lanes) (advance ∷ [])
    ∙ ap (λ t. step t advance) (run-returns s [] lanes quiet)
    ∙ advance-joining s (map gone lanes) (all_returned-gone lanes)

-- The steps that end the dispatcher, in a number that only the number of channels bounds.
abbrev pub Stops : State → Type 0
Stops s =
    (later : List Action) × All IsEnding later
    × (length later ≡ 3 * length s.lanes + 3)
    × (let t = run s later in
        (t.phase ≡ stopped)
        × (t.running ≡ false)
        × (all_returned t.lanes ≡ true)
        × (t.marked ≡ s.marked))

IsQuiet-of_open :
    (size : ℕ) (s : State) → InvAt s selecting → OpenAt size s selecting → All IsQuiet s.lanes
IsQuiet-of_open size s v (inl h) = absurd h
IsQuiet-of_open size s v (inr (all_open, h)) =
    IsQuiet-All size s.lanes (omega (arith, v.counts)) all_open

selecting-IsQuiet :
    (names : List Text) (batch size : ℕ) (actions : List Action)
    → let s = run (start names batch size) actions in s.phase ≡ selecting → All IsQuiet s.lanes
selecting-IsQuiet names batch size actions here =
    let s = run (start names batch size) actions in
    IsQuiet-of_open size s (subst (InvAt s) here (run-start-Inv names batch size actions))
      (subst (OpenAt size s) here (run-start-OpenAt names batch size actions))

IsEnding-ending : (lanes : List Lane) → All IsEnding (ending lanes)
IsEnding-ending lanes =
    let ends : All IsEnding (last_steps lanes) =
      All-append IsEnding (returns [] lanes) (advance ∷ []) (IsEnding-returns [] lanes) (tt, tt) in
    (
      tt,
      All-append IsEnding (closings [] lanes) (advance ∷ last_steps lanes)
          (IsEnding-closings [] lanes) (tt, ends),
    )

length-ending : (lanes : List Lane) → length (ending lanes) ≡ 3 * length lanes + 3
length-ending lanes = omega (
  arith,
  length-append (closings [] lanes) (advance ∷ last_steps lanes),
  length-append (returns [] lanes) (advance ∷ []),
  length-closings [] lanes,
  length-returns [] lanes,
)

-- In any state that a schedule can reach in which the dispatcher waits in its `select` and its context is
-- cancelled, three steps for each channel and three more end the shutdown: all the workers have
-- returned, the dispatcher no longer runs, and no group is marked on the way.
pub shutdown-Stops :
    (names : List Text) (batch size : ℕ) (actions : List Action)
    → let s = run (start names batch size) actions in
      s.phase ≡ selecting → s.ctx_done ≡ true → Stops s
shutdown-Stops names batch size actions here over =
    let s = run (start names batch size) actions in
    let ends = run-ending s here over (selecting-IsQuiet names batch size actions here) in
    (
      ending s.lanes,
      IsEnding-ending s.lanes,
      length-ending s.lanes,
      (
        ap (λ (t : State). t.phase) ends,
        ap (λ (t : State). t.running) ends,
        ap (λ (t : State). all_returned t.lanes) ends ∙ all_returned-gone s.lanes,
        ap (λ (t : State). t.marked) ends,
      ),
    )

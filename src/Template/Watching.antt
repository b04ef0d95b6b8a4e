-- ===== src/Template/Watching.antt =====
-- internal/template: a reload never loses templates, and no change on the disk is missed.
use alertmanager_webhook_rel.Base.{
  All, Bool, Bool-cases, List, Option, Option-cases, [], any, ap, arith, false, inl, inr, none, ok,
  refl, some, suc, true, ℕ, ◌++◌, ◌∙◌, ◌∷◌, ◌≡◌, ◌⊎◌,
}
use alertmanager_webhook_rel.Template.{
  Engine, watch, Disk, Happening, Watcher, ctx_done, errors_closed, events_closed, file_event, fire,
  load, new_engine, new_watcher, react, reload, timer_fires, watch_error, watch_step, Op,
  is_watched,
}

-- The engine has a set of templates.
abbrev pub IsLoaded : {T : Type 0} → Engine T → Type 0
IsLoaded {T} e = (t : T) × (e.tmpl ≡ some t)

module _ {T : Type 0} where
  -- A load either fails and changes nothing, or takes what the disk holds.
  load_cases :
      (disk : Disk T) (e : Engine T)
      → ((load disk e).1 ≡ e)
        ⊎ ((t : T) × (disk.parsed ≡ some t) × ((load disk e).1 ≡ record { tmpl = some t }))
  unfolding load
  load_cases disk e = ground (arith, Option-cases disk.matches, Option-cases disk.parsed)

  load-IsLoaded : (disk : Disk T) (e : Engine T) → IsLoaded e → IsLoaded (load disk e).1
  load-IsLoaded disk e v = elim (load_cases disk e) [
    | inl same ↦ rw same v
    | inr (t, _, taken) ↦ (t, ap (λ (x : Engine T). x.tmpl) taken)
  ]

  fire-IsLoaded :
      (disk : Disk T) (w : Watcher T) → IsLoaded w.engine → IsLoaded (fire disk w).engine
  unfolding fire reload
  fire-IsLoaded disk w v = elim (Bool-cases w.timer) [
    | inl on ↦ simp on (load-IsLoaded disk w.engine v)
    | inr off ↦ simp off v
  ]

  watch_step-IsLoaded :
      (w : Watcher T) (h : Happening T) → IsLoaded w.engine → IsLoaded (watch_step w h).engine
  unfolding watch_step react
  watch_step-IsLoaded w (timer_fires disk) v = fire-IsLoaded disk w v
  watch_step-IsLoaded w ctx_done v = ground arith
  watch_step-IsLoaded w events_closed v = ground arith
  watch_step-IsLoaded w errors_closed v = ground arith
  watch_step-IsLoaded w watch_error v = ground arith
  watch_step-IsLoaded w (file_event ops) v = ground arith

  watch-IsLoaded :
      (w : Watcher T) (hs : List (Happening T)) → IsLoaded w.engine → IsLoaded (watch w hs).engine
  unfolding watch
  watch-IsLoaded w [] v = v
  watch-IsLoaded w (h ∷ hs) v = watch-IsLoaded (watch_step w h) hs (watch_step-IsLoaded w h v)

  new_engine-IsLoaded :
      (stat : Option Bool) (disk : Disk T) (e : Engine T) → new_engine stat disk ≡ ok e → IsLoaded e
  unfolding new_engine load
  new_engine-IsLoaded none disk e h = cc
  new_engine-IsLoaded (some false) disk e h = cc
  new_engine-IsLoaded (some true) disk e h =
      ground (arith, Option-cases disk.matches, Option-cases disk.parsed)

  -- An engine that NewEngine returned has templates for ever, whatever happens in its directory, and
  -- whichever reloads fail.
  pub new_engine-watch-IsLoaded :
      (stat : Option Bool) (disk : Disk T) (e : Engine T) (hs : List (Happening T))
      → new_engine stat disk ≡ ok e
      → IsLoaded (watch (new_watcher e) hs).engine
  new_engine-watch-IsLoaded stat disk e hs h =
      watch-IsLoaded (new_watcher e) hs (new_engine-IsLoaded stat disk e h)

  -- Neither the end of the context nor the timer.
  abbrev pub IsQuiet : Happening T → Type 0
  IsQuiet ctx_done = ⊥
  IsQuiet (timer_fires _) = ⊥
  IsQuiet _ = Unit

  quiet_step :
      (w : Watcher T) (h : Happening T) → IsQuiet h → w.timer ≡ true → (watch_step w h).timer ≡ true
  unfolding watch_step react
  quiet_step w ctx_done q v = absurd q
  quiet_step w (timer_fires disk) q v = absurd q
  quiet_step w events_closed q v = ground arith
  quiet_step w errors_closed q v = ground arith
  quiet_step w watch_error q v = ground arith
  quiet_step w (file_event ops) q v = ground arith

  -- While nothing but further events happens, the timer stays on.
  quiet_timer :
      (w : Watcher T) (hs : List (Happening T))
      → All IsQuiet hs
      → w.timer ≡ true
      → (watch w hs).timer ≡ true
  unfolding watch
  quiet_timer w [] q v = v
  quiet_timer w (h ∷ hs) (qh, qs) v = quiet_timer (watch_step w h) hs qs (quiet_step w h qh v)

  watch-append :
      (w : Watcher T) (before after : List (Happening T))
      → watch w (before ++ after) ≡ watch (watch w before) after
  unfolding watch
  watch-append w [] after = refl
  watch-append w (h ∷ hs) after = watch-append (watch_step w h) hs after

  event-timer :
      (w : Watcher T) (ops : List Op)
      → w.watching ≡ true
      → any is_watched ops ≡ true
      → (watch_step w (file_event ops)).timer ≡ true
  unfolding watch_step react
  event-timer w ops running watched = simp (running, watched) refl

  load_good :
      (n : ℕ) (t : T) (e : Engine T)
      → (load (record { matches = some (suc n); parsed = some t }) e).1 ≡ record { tmpl = some t }
  unfolding load
  load_good n t e = ground arith

  fire_good :
      (w : Watcher T) (n : ℕ) (t : T)
      → w.timer ≡ true
      → (watch_step w (timer_fires (record { matches = some (suc n); parsed = some t }))).engine
        ≡ record { tmpl = some t }
  unfolding watch_step fire reload
  fire_good w n t on = ground (arith, load_good n t w.engine)

  picked_up :
      (w : Watcher T) (between : List (Happening T)) (ops : List Op) (n : ℕ) (t : T)
      → w.watching ≡ true
      → any is_watched ops ≡ true
      → All IsQuiet between
      → (watch w (
          file_event ops
          ∷ (between
              ++ timer_fires (record { matches = some (suc n); parsed = some t }) ∷ []))).engine
        ≡ record { tmpl = some t }
  unfolding watch
  picked_up w between ops n t running watched quiet =
      rw
        (watch-append (watch_step w (file_event ops)) between
          (timer_fires (record { matches = some (suc n); parsed = some t }) ∷ []))
        (fire_good (watch (watch_step w (file_event ops)) between) n t (
          quiet_timer (watch_step w (file_event ops)) between quiet
            (event-timer w ops running watched)))

  -- A change that the running watcher is told of is picked up when the timer fires: whatever happened
  -- before, and whatever but the end of the context happens in between, the engine then has the
  -- templates of the disk, if there is a file and the files parse.
  pub watch_picks_up :
      (w : Watcher T) (before between : List (Happening T)) (ops : List Op) (n : ℕ) (t : T)
      → (watch w before).watching ≡ true
      → any is_watched ops ≡ true
      → All IsQuiet between
      → (watch w (
          before
          ++ file_event ops
            ∷ (between
                ++ timer_fires (record { matches = some (suc n); parsed = some t }) ∷ []))).engine
        ≡ record { tmpl = some t }
  watch_picks_up w before between ops n t running watched quiet =
      ap (λ x. x.engine) (watch-append w before _)
      ∙ picked_up (watch w before) between ops n t running watched quiet

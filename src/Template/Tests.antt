-- ===== src/Template/Tests.antt =====
-- internal/template: a test on one history, and instances of the theorems. A set of templates is here a number.
use alertmanager_webhook_rel.Base.{List, [], ap, none, ok, refl, some, true, ℕ, ◌++◌, ◌∷◌, ◌≡◌}
use alertmanager_webhook_rel.Template.{
  Disk, Engine, Happening, watch, new_engine, new_watcher, file_event, fire, load, op_chmod,
  op_create, op_remove, op_write, react, reload, timer_fires, watch_error, watch_step,
}
use alertmanager_webhook_rel.Template.Watching.{new_engine-watch-IsLoaded, watch_picks_up, IsLoaded}

abbrev holds : ℕ → Disk ℕ
holds t = record { matches = some 1; parsed = some t }

abbrev broken : Disk ℕ
broken = record { matches = some 1; parsed = none }

abbrev first_engine : Engine ℕ
first_engine = record { tmpl = some 5 }

-- A write whose reload fails, and an error of the watcher.
abbrev events : List (Happening ℕ)
events = file_event (op_chmod ∷ op_write ∷ []) ∷ watch_error ∷ timer_fires broken ∷ []

started : new_engine (some true) (holds 5) ≡ ok first_engine
unfolding new_engine load
started = refl

kept : watch (new_watcher first_engine) events ≡ new_watcher first_engine
unfolding watch watch_step react fire reload load
kept = refl

new_engine-watch-IsLoaded_example : IsLoaded (watch (new_watcher first_engine) events).engine
new_engine-watch-IsLoaded_example =
    new_engine-watch-IsLoaded (some true) (holds 5) first_engine events started

still_watching : (watch (new_watcher first_engine) events).watching ≡ true
still_watching = ap (λ x. x.watching) kept

watch_picks_up_example :
    (watch (new_watcher first_engine) (
      events
      ++ (file_event (op_create ∷ [])
          ∷ ((file_event (op_remove ∷ []) ∷ []) ++ timer_fires (holds 6) ∷ [])))).engine
    ≡ record { tmpl = some 6 }
watch_picks_up_example =
    watch_picks_up (new_watcher first_engine) events (file_event (op_remove ∷ []) ∷ [])
      (op_create ∷ []) 0 6 still_watching refl (tt, tt)

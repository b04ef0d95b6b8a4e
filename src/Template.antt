-- ===== src/Template.antt =====
-- internal/template: the template engine, and the watcher that reloads it. What the file system and
-- html/template return is an argument; a set of templates is of any type.
pub mod Watching
mod Tests
use alertmanager_webhook_rel.Base.{
  Bool, List, Option, Result, Text, [], any, err, false, if◌then◌else◌, none, ok, some, true, ℕ,
  ◌==◌, ◌∷◌,
}
use alertmanager_webhook_rel.Alerts.{Instant}
use alertmanager_webhook_rel.Notify.{Notification}
use alertmanager_webhook_rel.Channel.Email.Format.{format_body_default}

-- One constructor for each `fmt.Errorf`.
pub data EngineError : Type 0 where
  stat_failed not_a_directory glob_failed no_files parse_failed no_templates render_failed :
      EngineError

-- What is found on the disk: how many files match, or an error of the pattern; and what they parse to.
pub record Disk (T : Type 0) : Type 0 where
  pub matches : Option ℕ
  pub parsed : Option T

-- `tmpl` is nil or a set of templates.
pub record Engine (T : Type 0) : Type 0 where
  pub tmpl : Option T

module _ {T : Type 0} where
  abbrev pub parse_into : Option T → Engine T → Option EngineError × Engine T
  parse_into none e = (some parse_failed, e)
  parse_into (some t) e = (none, record e { tmpl = some t })

  unfoldable pub load : Disk T → Engine T → Option EngineError × Engine T
  load disk e = elim disk.matches [
    | none ↦ (some glob_failed, e)
    | some n ↦ if n == 0 then (some no_files, e) else parse_into disk.parsed e
  ]

  abbrev pub loaded : Option EngineError × Engine T → Result EngineError (Engine T)
  loaded (none, e) = ok e
  loaded (some x, e) = err x

  -- `stat` says whether the path is a directory, or is none on an error.
  unfoldable pub new_engine : Option Bool → Disk T → Result EngineError (Engine T)
  unfolding load
  new_engine none disk = err stat_failed
  new_engine (some false) disk = err not_a_directory
  new_engine (some true) disk = loaded (load disk (record { tmpl = none }))

  -- The error is logged and returned.
  unfoldable pub reload : Disk T → Engine T → Option EngineError × Engine T
  unfolding load
  reload disk e = load disk e

  module _ (execute : T → Text → Notification → Option Text) where
    abbrev pub rendered : Option Text → Result EngineError Text
    rendered none = err render_failed
    rendered (some s) = ok s

    unfoldable pub render : Engine T → Text → Notification → Result EngineError Text
    render e name n = elim e.tmpl [ none ↦ err no_templates | some t ↦ rendered (execute t name n) ]

    -- `TemplateFormatter.FormatBody`
    unfoldable pub format_body : (Instant → Text) → Engine T → Text → Notification → Text
    unfolding render
    format_body format_time e name n = elim (render e name n) [
      | ok s ↦ s
      | err _ ↦ format_body_default format_time n
    ]

-- What a file event reports.
pub data Op : Type 0 where
  op_create op_write op_remove op_rename op_chmod : Op

abbrev pub is_watched : Op → Bool
is_watched op_create = true
is_watched op_write = true
is_watched op_remove = true
is_watched _ = false

-- What the loop of `Watch` waits for, and the firing of the timer, which finds this on the disk.
pub data Happening (T : Type 0) : Type 0 where
  ctx_done events_closed errors_closed watch_error : Happening T
  file_event : List Op → Happening T
  timer_fires : Disk T → Happening T

-- `timer` says whether a timer is running.
pub record Watcher (T : Type 0) : Type 0 where
  pub engine : Engine T
  pub timer : Bool
  pub watching : Bool

module _ {T : Type 0} where
  unfoldable pub fire : Disk T → Watcher T → Watcher T
  unfolding reload
  fire disk w = if w.timer then record w { engine = (reload disk w.engine).1; timer = false } else w

  -- A case of the `select`, while the loop runs.
  unfoldable pub react : Happening T → Watcher T → Watcher T
  react ctx_done w = record w { timer = false; watching = false }
  react events_closed w = record w { watching = false }
  react errors_closed w = record w { watching = false }
  react watch_error w = w
  react (file_event ops) w = if any is_watched ops then record w { timer = true } else w
  react (timer_fires disk) w = w

  unfoldable pub watch_step : Watcher T → Happening T → Watcher T
  unfolding fire react
  watch_step w (timer_fires disk) = fire disk w
  watch_step w h = if w.watching then react h w else w

  unfoldable pub watch : Watcher T → List (Happening T) → Watcher T
  watch w [] = w
  watch w (h ∷ hs) = watch (watch_step w h) hs

  abbrev pub new_watcher : Engine T → Watcher T
  new_watcher e = record { engine = e; timer = false; watching = true }

-- ===== src/Schedule/Editor.antt =====
-- The schedule editor (ui/src/components/schedule-editor.jsx) as a state machine.
use restic_golang.Api.{Response, error_of}
use restic_golang.Base.{
  ℕ, String, Bool, true, false, not, ◌&&◌, Option, some, List, [], ◌∷◌, ◌++◌, if◌then◌else◌, ◌==◌,
  eqb, concat, any, keep, sort, or_text,
}
use restic_golang.Schedule.{
  Schedule, schedule_form_from_job, schedule_payload, describe_schedule_title, by_number,
}

pub record Editor : Type 0 where
  pub form : Schedule
  pub busy : Bool
  pub error : String

pub data Effect : Type 0 where
  save_schedule : Schedule → Effect
  toast_success : String → Effect
  on_saved : Effect

unfoldable pub opened : Option Schedule → Editor
unfolding schedule_form_from_job
opened s = record { form = schedule_form_from_job s; busy = false; error = "" }

-- The effect on `[job]`.
unfoldable pub on_job : Option Schedule → Editor → Editor
unfolding schedule_form_from_job
on_job s e = record e { form = schedule_form_from_job s; error = "" }

-- The patches of `set`.
unfoldable pub set_enabled : Bool → Editor → Editor
set_enabled on e = record e { form = record e.form { enabled = on } }

unfoldable pub set_kind : String → Editor → Editor
set_kind kind e = record e { form = record e.form { kind = kind } }

unfoldable pub set_every : String → Editor → Editor
set_every every e = record e { form = record e.form { every = every } }

unfoldable pub set_at : String → Editor → Editor
set_at at e = record e { form = record e.form { at = at } }

-- The new `weekdays` of `toggleDay`.
unfoldable pub toggled : ℕ → List ℕ → List ℕ
unfolding by_number sort
toggled day days =
    if any (eqb day) days
    then keep (λ d. not (eqb d day)) days
    else sort by_number (days ++ day ∷ [])

unfoldable pub toggle_day : ℕ → Editor → Editor
unfolding toggled
toggle_day day e = record e { form = record e.form { weekdays = toggled day e.form.weekdays } }

-- `!(form.weekdays || []).length`
unfoldable pub no_days : List ℕ → Bool
no_days [] = true
no_days (_ ∷ _) = false

-- `onSubmit`, and `save` up to its `await`.
unfoldable pub submit : Editor → Editor × List Effect
unfolding no_days schedule_payload
submit e =
    if e.form.enabled && (e.form.kind == "weekly" && no_days e.form.weekdays)
    then (record e { error = "Choose at least one weekday." }, [])
    else (record e { busy = true; error = "" }, save_schedule (schedule_payload e.form) ∷ [])

-- `save` behind its `await`.
unfoldable pub saved : Schedule → Response → Editor → Editor × List Effect
unfolding describe_schedule_title error_of
saved schedule res e =
    if res.ok
    then (
      record e { busy = false },
      toast_success (
            if schedule.enabled
            then concat ("Automatic backup: " ∷ describe_schedule_title (some schedule) ∷ "." ∷ [])
            else "Automatic backup paused.")
          ∷ on_saved
          ∷ [],
    )
    else (record e { busy = false; error = error_of res "Could not save the schedule." }, [])

-- The line under the form; `next_due` is "" without a next run, `relative` is `fmtRelative`.
unfoldable pub next_line : (String → String) → String → String → String
next_line relative schedule_state next_due =
    let state = or_text schedule_state "off" in
    if state == "overdue"
    then "Overdue — a backup will run when the app can."
    else if state == "running"
    then "A backup is running now."
    else if next_due == ""
    then ""
    else concat ("Next run " ∷ relative next_due ∷ [])

-- ===== src/JobCard.antt =====
-- The card of a job (`JobCard` of ui/src/components/job-card.jsx) while it runs and between runs, and
-- the strips of recent backups (`useJobStrips`). Its texts are in History.
use restic_golang.Api.{Request, Response}
use restic_golang.Api.Endpoints.{RunCall, run, jobs_call, runs_call}
use restic_golang.Api.Json.{str, num}
use restic_golang.Base.{
  ℕ, ◌+◌, String, Bool, true, false, not, ◌&&◌, Option, none, some, List, [], ◌∷◌, if◌then◌else◌,
  ◌==◌, eqb, concat, or_text, find, join,
}
use restic_golang.Format.{Clock, fmt_relative}
use restic_golang.History.{last_run_summary}
use restic_golang.Runs.{Run, Progress, is_active, display_percent}
use restic_golang.StartRun.{handle_start_response}
use restic_golang.StartRun

abbrev pub strip_slots : ℕ
strip_slots = 24

-- `useJobStrips`: an effect is known by its number; `alive` is that of the last one.
pub record Strips : Type 0 where
  pub strips : List (String × List Run)
  pub generation : ℕ
  pub alive : Bool

abbrev pub no_strips : Strips
no_strips = record { strips = []; generation = 0; alive = false }

unfoldable pub strip_call : (id : String) → Request
unfolding runs_call
strip_call id =
    runs_call
      (RunCall.list (("jobId", str id) ∷ ("kind", str "backup") ∷ ("limit", num strip_slots) ∷ []))

-- `run_effect`: the ids or the version changed; `answered`: all the lists of an effect are there.
pub data Event : Type 0 where
  run_effect : List String → Event
  answered : (mine : ℕ) → List (String × List Run) → Event
  unmount : Event

unfoldable pub effect_run : List String → Strips → Strips
effect_run ids s =
    if join "," ids == ""
    then record s { strips = []; generation = s.generation + 1; alive = false }
    else record s { generation = s.generation + 1; alive = true }

unfoldable pub step : Strips → Event → Strips
unfolding effect_run
step s (run_effect ids) = effect_run ids s
step s (answered mine entries) =
    if s.alive && eqb mine s.generation then record s { strips = entries } else s
step s unmount = record s { alive = false }

unfoldable pub steps : Strips → List Event → Strips
unfolding step
steps s [] = s
steps s (e ∷ es) = steps (step s e) es

-- The job's run of the shared list, and `liveRun || activeRun`.
unfoldable pub active_run : (job_id : String) → List Run → Option Run
active_run job_id active = find (λ (r : Run). r.job_id == job_id) active

unfoldable pub live : (streamed active : Option Run) → Option Run
live none active = active
live (some r) active = some r

-- The bar of a running job: a part of 100 in millionths, or a sweep.
pub data Bar : Type 0 where
  no_bar sweep : Bar
  part : (percent : ℕ) → Bar

unfoldable pub knows_size : Option Progress → Bool
knows_size none = false
knows_size (some p) = not (eqb p.total_bytes 0)

unfoldable pub bar_of : Run → Bar
unfolding is_active knows_size
bar_of r =
    let pct = display_percent (some r) in
    if is_active r.status
    then (if eqb pct 0 && not (knows_size r.progress) then sweep else part pct)
    else no_bar

unfoldable pub bar : Option Run → Bar
unfolding bar_of
bar none = no_bar
bar (some r) = bar_of r

unfoldable pub is_running : Option Run → Bool
unfolding is_active
is_running none = false
is_running (some r) = is_active r.status

-- The badge: the running status, that of the last run, or "Never run".
unfoldable pub badge_of : (last : Option Run) → String
badge_of none = "Never run"
badge_of (some r) = r.status

unfoldable pub live_badge : (live last : Option Run) → String
unfolding is_active badge_of
live_badge none last = badge_of last
live_badge (some r) last = if is_active r.status then r.status else badge_of last

-- `job.folderName || job.databaseName || job.sourceLabel`, and what is shown without one.
unfoldable pub source : (folder_name database_name source_label : String) → String
source folder_name database_name source_label =
    or_text (or_text (or_text folder_name database_name) source_label) "—"

-- The line of the last run, which is there while nothing runs.
unfoldable pub summary_part : Option String → String
summary_part none = ""
summary_part (some s) = if s == "" then "" else concat (" · " ∷ s ∷ [])

unfoldable pub last_text : Clock → Option Run → String
unfolding fmt_relative last_run_summary summary_part
last_text clock none = "No backups yet"
last_text clock (some r) =
    concat ("Last run " ∷ fmt_relative clock r.started_at ∷ summary_part (last_run_summary r) ∷ [])

-- The button: the page of the run, or the start of one by whether it can be pressed.
pub data Button : Type 0 where
  view_progress : (target : String) → Button
  run_backup : (disabled : Bool) → Button

unfoldable pub button : (starting : Bool) → Option Run → Button
unfolding is_active
button starting none = run_backup starting
button starting (some r) =
    if is_active r.status
    then view_progress (concat ("/runs/" ∷ r.id ∷ []))
    else run_backup starting

-- `runNow` up to its `await`, and behind it, where `onRan` is called whatever the answer is.
unfoldable pub run_now : (job_id : String) → Bool × Request
unfolding jobs_call
run_now job_id = (true, jobs_call (run job_id))

unfoldable pub ran : Response → Bool × List StartRun.Effect
unfolding handle_start_response
ran res =
    let (_, effects) = handle_start_response res "Could not start the backup." false in
    (false, effects)

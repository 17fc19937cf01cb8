-- ===== src/RunPage/View.antt =====
-- `RunView` of ui/src/routes/run.jsx: the first load, the run that is shown, its header, its facts,
-- and stopping it.
use restic_golang.Api.{Request, Response, error_of}
use restic_golang.Api.Endpoints.{stop, runs_call, download_url}
use restic_golang.Base.{
  ℕ, ◌+◌, String, Bool, true, false, not, ◌&&◌, ◌||◌, Option, none, some, List, [], ◌∷◌, ◌++◌,
  if◌then◌else◌, ◌==◌, eqb, concat, join, or_text, truthy, keep, show,
}
use restic_golang.Confirm.{Given}
use restic_golang.Format.{Clock, fmt_bytes, fmt_time, run_duration}
use restic_golang.ListPage.{question}
use restic_golang.Runs.{Run, is_active}

-- `initial`, and the effect on `[id]` whose answer it waits for; `alive` is that of the last effect.
pub record Initial : Type 0 where
  pub loading : Bool
  pub run : Option Run
  pub missing : Bool
  pub generation : ℕ
  pub alive : Bool

abbrev pub mounted : Initial
mounted = record { loading = true; run = none; missing = false; generation = 0; alive = false }

-- `visit`: the effect runs, for a page that opens or an `id` that changes.
pub data Event : Type 0 where
  visit leave : Event
  answered : (mine status : ℕ) → Option Run → Event

unfoldable pub loaded : (status : ℕ) → Option Run → Initial → Initial
loaded status body s =
    if eqb status 404
    then record s { loading = false; run = none; missing = true }
    else record s { loading = false; run = body; missing = false }

unfoldable pub step : Initial → Event → Initial
unfolding loaded
step s visit = record s {
  loading = true;
  run = none;
  missing = false;
  generation = s.generation + 1;
  alive = true;
}
step s leave = record s { alive = false }
step s (answered mine status body) =
    if s.alive && eqb mine s.generation then loaded status body s else s

unfoldable pub steps : Initial → List Event → Initial
unfolding step
steps s [] = s
steps s (e ∷ es) = steps (step s e) es

-- `run || initial.run`
unfoldable pub current : (streamed : Option Run) → Initial → Option Run
current none s = s.run
current (some run) s = some run

pub data View : Type 0 where
  not_found skeleton : View
  showing : Run → View

unfoldable pub view_of : Option Run → View
view_of none = skeleton
view_of (some run) = showing run

unfoldable pub view : (streamed : Option Run) → Initial → View
unfolding current view_of
view streamed s = if s.missing then not_found else view_of (current streamed s)

-- The header: where the breadcrumb leads to, its label, the line under the title, and the buttons.
unfoldable pub back_to : Run → String × String
back_to run =
    if truthy run.job_id
    then (concat ("/jobs/" ∷ run.job_id ∷ []), or_text run.job_name "Job")
    else ("/activity", "Activity")

unfoldable pub description : Clock → Run → String × String
unfolding run_duration
description clock run = (
  or_text (join " · " (keep truthy (run.job_name ∷ run.repo_name ∷ []))) "—",
  run_duration clock run.started_at run.finished_at,
)

unfoldable pub download_button : Run → Option String
unfolding download_url
download_button run =
    if run.kind == "download" && run.status == "success" then some (download_url run.id) else none

unfoldable pub stop_button : (stopping : Bool) → Run → Option Bool
unfolding is_active
stop_button stopping run = if is_active run.status then some (not stopping) else none

unfoldable pub stop_question : Given
unfolding question
stop_question =
    question "Stop this operation?"
      "restic is interrupted cleanly: it releases its lock and writes no partial snapshot. Anything already uploaded stays in the repository."
      "Stop it"

pub data Effect : Type 0 where
  send : Request → Effect
  toast_error : String → Effect

-- `stop` behind its question, and behind the answer; the state is `stopping`.
unfoldable pub stop_confirmed : (id : String) → Bool → Bool → Bool × List Effect
unfolding runs_call
stop_confirmed id ok stopping =
    if ok then (true, send (runs_call (stop id)) ∷ []) else (stopping, [])

unfoldable pub stop_answered : Response → Bool × List Effect
stop_answered res =
    (false, if res.ok then [] else toast_error (error_of res "Could not stop this run.") ∷ [])

-- What the facts read beside the run itself.
pub record More : Type 0 where
  pub folder_path : String
  pub database_id : String
  pub target : String
  pub size_bytes : ℕ
  pub exit_code : Option ℕ

unfoldable pub fact_if : Bool → (label value : String) → List (String × String)
fact_if b label value = if b then (label, value) ∷ [] else []

unfoldable pub exit_fact : Option ℕ → List (String × String)
exit_fact none = []
exit_fact (some n) = if eqb n 0 then [] else ("Exit code", show n) ∷ []

unfoldable pub facts : Clock → Run → More → List (String × String)
unfolding fact_if exit_fact fmt_bytes fmt_time
facts clock run m =
    fact_if (truthy run.job_id) "Job" (or_text run.job_name "Open job")
    ++ fact_if (truthy run.repository_id) "Repository" (or_text run.repo_name "Open repository")
    ++ fact_if (run.kind == "backup" && truthy m.folder_path && not (truthy m.database_id)) "Source"
        m.folder_path
    ++ fact_if (run.kind == "speedtest" && not (eqb m.size_bytes 0)) "Test size"
        (concat (fmt_bytes m.size_bytes ∷ " each way" ∷ []))
    ++ ("Started", fmt_time clock run.started_at)
      ∷ (fact_if (truthy run.finished_at) "Finished" (fmt_time clock run.finished_at)
          ++ fact_if (truthy m.target) "Restored into" m.target
          ++ fact_if (run.kind == "restore_db" || truthy m.database_id)
              (if run.kind == "restore_db" then "Restored into" else "Database") m.folder_path
          ++ exit_fact m.exit_code)

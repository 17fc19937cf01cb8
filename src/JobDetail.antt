-- ===== src/JobDetail.antt =====
-- The page of one job (ui/src/routes/job-detail.jsx): its loader, the page of its history, starting
-- it, deleting it, and its overview.
pub mod Laws
use restic_golang.Api.{Request, Response, error_of}
use restic_golang.Api.Endpoints.{JobCall, run, remove, forget, jobs_call}
use restic_golang.Base.{
  ℕ, zero, ◌+◌, ◌-◌, ◌*◌, String, Bool, true, false, not, ◌&&◌, ◌||◌, Option, none, some, List, [],
  ◌∷◌, if◌then◌else◌, ◌==◌, eqb, ltb, concat, or_text, show, keep, find,
}
use restic_golang.DetailPage.{Detail, missing, found, load_detail}
use restic_golang.Format.{Clock, fmt_relative, fmt_time}
use restic_golang.History.{last_run_summary, schedule_text}
use restic_golang.ListPage.{Loaded, listed}
use restic_golang.Pagination.{page_size, pages}
use restic_golang.Runs.{Run, status_label}
use restic_golang.Schedule.{Schedule}
use restic_golang.StartRun.{handle_start_response}
use restic_golang.StartRun

-- What the page reads of the job itself.
pub record Job : Type 0 where
  pub id : String
  pub name : String
  pub source_label : String
  pub folder_path : String
  pub folder_name : String
  pub repository_id : String
  pub repo_name : String
  pub schedule : Option Schedule
  pub schedule_state : String
  pub next_due_at : String

-- What the loader found.
pub record Page : Type 0 where
  pub job : Option Job
  pub runs : List Run
  pub total : ℕ

-- `(page - 1) * PAGE_SIZE` of a page that is not 0.
unfoldable pub offset : ℕ → ℕ
offset page = (page - 1) * page_size

-- `total` is 0 where the answer lacks it.
unfoldable pub load : Response → Option Job → Option (List Run) → (total : ℕ) → Loaded (Detail Page)
unfolding load_detail listed
load res job runs total =
    load_detail "Could not load the job." res
      (record { job = job; runs = listed runs; total = total })

-- The effect that keeps the page in range: the page that it sets.
unfoldable pub clamp_found : Page → ℕ → Option ℕ
unfolding pages
clamp_found got page =
    let total_pages = pages got.total page_size in
    if ltb total_pages page then some total_pages else none

unfoldable pub clamp : Option (Detail Page) → ℕ → Option ℕ
unfolding clamp_found
clamp none page = none
clamp (some missing) page = none
clamp (some (found got)) page = clamp_found got page

-- The job's runs of the shared list, and the one whose progress the header leads to.
unfoldable pub job_active_runs : (id : String) → List Run → List Run
job_active_runs id active = keep (λ (r : Run). r.job_id == id) active

unfoldable pub first_run : List Run → List Run → Option Run
first_run [] runs = find (λ (r : Run). r.status == "running" || r.status == "starting") runs
first_run (r ∷ _) runs = some r

unfoldable pub active_run : (id : String) → (active runs : List Run) → Option Run
unfolding job_active_runs first_run
active_run id active runs = first_run (job_active_runs id active) runs

pub data Effect : Type 0 where
  send : Request → Effect
  started : StartRun.Effect → Effect
  toast_success toast_error navigate : String → Effect
  reload_page close_dialog : Effect

unfoldable pub all_started : List StartRun.Effect → List Effect → List Effect
all_started [] rest = rest
all_started (e ∷ es) rest = started e ∷ all_started es rest

-- `runNow` up to its `await`, and behind it; the state is `starting`.
unfoldable pub run_now : (id : String) → Bool × List Effect
unfolding jobs_call
run_now id = (true, send (jobs_call (run id)) ∷ [])

unfoldable pub run_answered : Response → Bool × List Effect
unfolding all_started handle_start_response
run_answered res =
    let (ok, effects) = handle_start_response res "Could not start the backup." true in
    (false, all_started effects (if ok then reload_page ∷ [] else []))

-- `remove`: its request, its result and what was done for it.
unfoldable pub remove_call : (id : String) → (forget_snapshots : Bool) → Request
unfolding jobs_call
remove_call id forget_snapshots =
    if forget_snapshots then jobs_call (forget id true) else jobs_call (remove id)

unfoldable pub removed : (name : String) → (forget_snapshots : Bool) → Response → Bool × List Effect
unfolding all_started handle_start_response
removed name forget_snapshots res =
    let (ok, effects) =
      handle_start_response res "Could not delete the job and its snapshots." false in
    if forget_snapshots
    then (ok, all_started effects [])
    else if res.ok
    then (true, toast_success (concat ("Job “" ∷ name ∷ "” deleted." ∷ [])) ∷ navigate "/jobs" ∷ [])
    else (false, toast_error (error_of res "Could not delete the job.") ∷ [])

-- `JobDeleteDialog`: its state, its events, and the requests that were sent.
pub record Dialog : Type 0 where
  pub is_open : Bool
  pub forget_snapshots : Bool
  pub busy : Bool
  pub sent : List Effect

abbrev pub closed : Dialog
closed = record { is_open = false; forget_snapshots = false; busy = false; sent = [] }

-- `open`: "Delete job" was pressed; `tick`: the box, which is disabled while the dialog is busy;
-- `press`: the form was submitted; `answer`: behind the request with `forget_snapshots`.
pub data Event : Type 0 where
  open_dialog cancel press : Event
  tick : Bool → Event
  answer : (forget_snapshots : Bool) → Response → Event

-- The effect on `[open]` runs when the dialog opens.
unfoldable pub opened : Dialog → Dialog
opened d =
    if d.is_open then d else record d { is_open = true; forget_snapshots = false; busy = false }

unfoldable pub pressed : (id : String) → Dialog → Dialog
unfolding remove_call
pressed id d =
    if d.is_open && not d.busy
    then record d { busy = true; sent = send (remove_call id d.forget_snapshots) ∷ d.sent }
    else d

unfoldable pub ticked : Bool → Dialog → Dialog
ticked v d = if d.is_open && not d.busy then record d { forget_snapshots = v } else d

unfoldable pub answered : (name : String) → (forget_snapshots : Bool) → Response → Dialog → Dialog
unfolding removed
answered name forget_snapshots res d =
    let (ok, _) = removed name forget_snapshots res in
    record d { busy = false; is_open = if ok then false else d.is_open }

unfoldable pub step : (id name : String) → Dialog → Event → Dialog
unfolding opened pressed ticked answered
step id name d open_dialog = opened d
step id name d cancel = record d { is_open = false }
step id name d press = pressed id d
step id name d (tick v) = ticked v d
step id name d (answer forget_snapshots res) = answered name forget_snapshots res d

unfoldable pub steps : (id name : String) → Dialog → List Event → Dialog
unfolding step
steps id name d [] = d
steps id name d (e ∷ es) = steps id name (step id name d e) es

unfoldable pub submit_text : Dialog → String
submit_text d =
    if d.busy
    then "Working…"
    else if d.forget_snapshots
    then "Delete job and snapshots"
    else "Delete job"

-- `Route`: the source and the repository in words.
unfoldable pub source_text : Job → String
source_text j = or_text (or_text (or_text j.source_label j.folder_path) j.folder_name) "?"

unfoldable pub repository_text : Job → String
repository_text j = or_text j.repo_name "?"

-- `Overview`: the last backup, with its tooltip and the line under it.
pub record Last : Type 0 where
  pub value : String
  pub tooltip : String
  pub note : String
  pub is_bad : Bool

unfoldable pub note_of : Option String → (status : String) → String
unfolding status_label
note_of none status = status_label status
note_of (some s) status = or_text s (status_label status)

unfoldable pub last_backup : Clock → List Run → Option Last
unfolding fmt_relative fmt_time status_label note_of last_run_summary
last_backup clock [] = none
last_backup clock (r ∷ _) = some (record {
  value = fmt_relative clock r.started_at;
  tooltip = concat (status_label r.status ∷ " · " ∷ fmt_time clock r.started_at ∷ []);
  note = note_of (last_run_summary r) r.status;
  is_bad = not (r.error == "");
})

unfoldable pub automatic : Clock → Job → String
unfolding schedule_text
automatic clock j = schedule_text clock j.schedule j.schedule_state j.next_due_at

-- `title` is the retention's, "" where it is off.
unfoldable pub retention_text : (title : String) → String
retention_text title = or_text title "Keeps every snapshot"

unfoldable pub operations_text : (total : ℕ) → String
operations_text total =
    concat (show total ∷ " operation" ∷ (if eqb total 1 then "" else "s") ∷ " so far" ∷ [])

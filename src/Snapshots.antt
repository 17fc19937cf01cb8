-- ===== src/Snapshots.antt =====
-- The list of snapshots (`SnapshotsPanel` of ui/src/components/snapshots-panel.jsx): its loads, what
-- it shows, the rows, and its operations. The two restore dialogs are in Restore.
pub mod Laws
pub mod Row
use restic_golang.Api.{Request, Response}
use restic_golang.Api.Endpoints.{
  JobCall, RepositoryCall, forget, download, jobs_call, repositories_call,
}
use restic_golang.Base.{
  ℕ, ◌+◌, ◌-◌, min, String, Bool, true, false, not, ◌&&◌, ◌||◌, Option, none, some, List, [], ◌∷◌,
  ◌++◌, if◌then◌else◌, ◌==◌, eqb, ltb, concat, join, or_text, show, truthy, present, keep, length,
  take, sort, Ordering,
}
use restic_golang.Confirm.{Given}
use restic_golang.Dashboard.{by_difference, time}
use restic_golang.Format.{Clock, fmt_bytes, fmt_count, short_id}
use restic_golang.ListPage.{question}
use restic_golang.Restore.{Snapshot, snapshot_engine, engine_label, is_safety_snapshot}
use restic_golang.StartRun.{handle_start_response}
use restic_golang.StartRun

-- A snapshot of the list.
pub record Listed : Type 0 where
  pub snapshot : Snapshot
  pub short : String
  pub taken_at : String
  pub size : Option ℕ
  pub files : Option ℕ

-- The body of an answer to `load`.
pub record Payload : Type 0 where
  pub ok : Bool
  pub code : String
  pub error : String
  pub snapshots : List Listed

-- The state of the panel. A request is known by its number; `asked` is how many there were.
pub record Panel : Type 0 where
  pub loading : Bool
  pub payload : Option Payload
  pub slow : Bool
  pub restoring : Option Snapshot
  pub restoring_db : Option Snapshot
  pub browsing : Option Snapshot
  pub downloading_id : Option String
  pub forgetting_id : Option String
  pub forgetting_all : Bool
  pub visible : ℕ
  pub asked : ℕ

abbrev pub page : ℕ
page = 20

abbrev pub initial : Panel
initial = record {
  loading = true;
  payload = none;
  slow = false;
  restoring = none;
  restoring_db = none;
  browsing = none;
  downloading_id = none;
  forgetting_id = none;
  forgetting_all = false;
  visible = page;
  asked = 0;
}

-- What happens to the panel: `refresh` by the effect or its button, the answer to a request, the
-- timer of eight seconds, the buttons under the list, the three dialogs, and the requests of the
-- operations with the moment behind their answers.
pub data Event : Type 0 where
  refresh : Event
  answered : (request : ℕ) → Option Payload → Event
  timer show_more show_fewer : Event
  restore browse : Snapshot → Event
  close_restore close_restore_db close_browser : Event
  downloads forgets : (id : String) → Event
  downloaded forgot forgets_all forgot_all : Event

-- `snapshotEngine(s) ? setRestoringDb(s) : setRestoring(s)`
unfoldable pub on_restore : Snapshot → Panel → Panel
unfolding snapshot_engine
on_restore s p =
    if truthy (snapshot_engine s)
    then record p { restoring_db = some s }
    else record p { restoring = some s }

-- The effect on `[state.loading]` clears `slow` where the list starts to load.
unfoldable pub refreshed : Panel → Panel
refreshed p = record p {
  loading = true;
  asked = p.asked + 1;
  slow = if p.loading then p.slow else false;
}

unfoldable pub step : Panel → Event → Panel
unfolding on_restore refreshed
step p refresh = refreshed p
step p (answered _ payload) = record p { loading = false; payload = payload }
step p timer = if p.loading then record p { slow = true } else p
step p show_more = record p { visible = p.visible + page }
step p show_fewer = record p { visible = page }
step p (restore s) = on_restore s p
step p (browse s) = record p { browsing = some s }
step p close_restore = record p { restoring = none }
step p close_restore_db = record p { restoring_db = none }
step p close_browser = record p { browsing = none }
step p (downloads id) = record p { downloading_id = some id }
step p (forgets id) = record p { forgetting_id = some id }
step p downloaded = record p { downloading_id = none }
step p forgot = record p { forgetting_id = none }
step p forgets_all = record p { forgetting_all = true }
step p forgot_all = record p { forgetting_all = false }

unfoldable pub steps : Panel → List Event → Panel
unfolding step
steps p [] = p
steps p (e ∷ es) = steps (step p e) es

-- `(payload && payload.ok && payload.snapshots) || []`
unfoldable pub stored : Option Payload → List Listed
stored none = []
stored (some b) = if b.ok then b.snapshots else []

-- `new Date(b.time) - new Date(a.time)`
unfoldable pub newest_first : Clock → Listed → Listed → Ordering
unfolding by_difference time
newest_first clock a b = by_difference (time clock b.taken_at) (time clock a.taken_at)

unfoldable pub snapshots : Clock → Panel → List Listed
unfolding stored newest_first
snapshots clock p = sort (newest_first clock) (stored p.payload)

unfoldable pub shown : Clock → Panel → List Listed
unfolding snapshots
shown clock p = take p.visible (snapshots clock p)

-- The line under the list: the two counts, and the two buttons where they are there.
pub record Footer : Type 0 where
  pub count : ℕ
  pub total : ℕ
  pub fewer : Bool
  pub more : Option ℕ

unfoldable pub more_of : (count total : ℕ) → Option ℕ
more_of count total = if ltb count total then some (min page (total - count)) else none

unfoldable pub footer_of : (visible count total : ℕ) → Option Footer
unfolding more_of
footer_of visible count total =
    if ltb page total
    then some (record {
      count = count;
      total = total;
      fewer = ltb page visible;
      more = more_of count total;
    })
    else none

unfoldable pub footer : Clock → Panel → Option Footer
unfolding shown snapshots footer_of
footer clock p = footer_of p.visible (length (shown clock p)) (length (snapshots clock p))

-- What stands in the place of the list, or the list with its footer.
pub data View : Type 0 where
  skeleton : (slow : Bool) → View
  problem : (title description : String) → View
  no_snapshots : View
  rows : List Listed → Option Footer → View

unfoldable pub problem_title : (code : String) → String
problem_title code =
    if code == "not_initialized"
    then "This repository is not set up yet"
    else if code == "timeout"
    then "The repository is slow to answer"
    else "Could not list snapshots"

unfoldable pub problem_text : (code error : String) → String
problem_text code error =
    if code == "not_initialized"
    then "Run a backup and the repository will be initialized automatically, or initialize it now from the repository page."
    else or_text error "The repository could not be reached."

unfoldable pub list_view : List Listed → List Listed → Option Footer → View
list_view [] _ _ = no_snapshots
list_view (_ ∷ _) visible foot = rows visible foot

unfoldable pub view_of : Clock → Panel → Option Payload → View
unfolding problem_title problem_text list_view snapshots shown footer
view_of clock p none =
    if p.loading then skeleton p.slow else problem (problem_title "") (problem_text "" "")
view_of clock p (some b) =
    if b.ok
    then list_view (snapshots clock p) (shown clock p) (footer clock p)
    else problem (problem_title b.code) (problem_text b.code b.error)

unfoldable pub view : Clock → Panel → View
unfolding view_of
view clock p = view_of clock p p.payload

-- "Delete all" is there for a job with snapshots; by whether it can be pressed.
unfoldable pub delete_all : Clock → (job_id : String) → Panel → Option Bool
unfolding snapshots
delete_all clock job_id p =
    if truthy job_id && ltb 0 (length (snapshots clock p))
    then some (not (p.loading || p.forgetting_all))
    else none

-- The requests, with the questions in front of them, and what their answers lead to.
unfoldable pub download_call : (repository_id : String) → Snapshot → Request
unfolding repositories_call
download_call repository_id s = repositories_call (download repository_id s.id none)

unfoldable pub forget_question : Snapshot → Given
unfolding short_id question
forget_question s =
    question (concat ("Delete snapshot " ∷ short_id s.id ∷ "?" ∷ []))
      "This forgets the snapshot and prunes unused data from the repository. Other jobs sharing the repository keep their snapshots. This cannot be undone."
      "Delete snapshot"

unfoldable pub forget_call : (repository_id : String) → Snapshot → Request
unfolding repositories_call
forget_call repository_id s = repositories_call (RepositoryCall.forget repository_id s.id)

unfoldable pub forget_all_question : Given
unfolding question
forget_all_question =
    question "Delete all snapshots from this job?"
      "This forgets every snapshot tagged for this job and prunes unused data. The job itself is kept. This cannot be undone."
      "Delete snapshots"

unfoldable pub forget_all_call : (job_id : String) → Request
unfolding jobs_call
forget_all_call job_id = jobs_call (JobCall.forget job_id false)

unfoldable pub download_answered : Response → (stay : Bool) → Bool × List StartRun.Effect
unfolding handle_start_response
download_answered res stay = handle_start_response res "Could not start the download." stay

unfoldable pub forget_answered : Response → (stay : Bool) → Bool × List StartRun.Effect
unfolding handle_start_response
forget_answered res stay = handle_start_response res "Could not delete the snapshot." stay

unfoldable pub forget_all_answered : Response → (stay : Bool) → Bool × List StartRun.Effect
unfolding handle_start_response
forget_all_answered res stay =
    handle_start_response res "Could not delete this job's snapshots." stay

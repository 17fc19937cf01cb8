-- ===== src/RepositoryDetail.antt =====
-- The page of one repository (ui/src/routes/repository-detail.jsx): its loader, the four maintenance
-- actions and what they report, and the facts.
use restic_golang.Api.{Request, Response, error_of}
use restic_golang.Api.Endpoints.{test, init, unlock, reset, repositories_call}
use restic_golang.Base.{
  String, Bool, true, false, not, ◌&&◌, Option, none, some, List, [], ◌∷◌, ◌++◌, if◌then◌else◌,
  ◌==◌, concat, or_text, keep,
}
use restic_golang.Confirm.{Given}
use restic_golang.DetailPage.{Detail, load_detail}
use restic_golang.ListPage.{Loaded, question, listed}
use restic_golang.Repositories.{Repository}
use restic_golang.Repositories.Card.{backend_label}
use restic_golang.StartRun.{handle_start_response}
use restic_golang.StartRun

-- What the loader keeps of a job.
pub record StoringJob : Type 0 where
  pub id : String
  pub name : String
  pub repository_id : String

pub record Page : Type 0 where
  pub repository : Option Repository
  pub jobs : Option (List StoringJob)

unfoldable pub jobs_of :
    (id : String) → Response → Option (List StoringJob) → Option (List StoringJob)
unfolding listed
jobs_of id res jobs =
    if res.ok then some (keep (λ (j : StoringJob). j.repository_id == id) (listed jobs)) else none

unfoldable pub load :
    (id : String)
    → Response
    → Option Repository
    → (jobs_res : Response) → Option (List StoringJob)
    → Loaded (Detail Page)
unfolding load_detail jobs_of
load id res repository jobs_res jobs =
    load_detail "Could not load the repository." res
      (record { repository = repository; jobs = jobs_of id jobs_res jobs })

pub data Tone : Type 0 where
  good bad info : Tone

pub record Result : Type 0 where
  pub kind : Tone
  pub message : String
  pub detail : String

-- The state: `busy` is the action that waits, "" for none.
pub record State : Type 0 where
  pub result : Option Result
  pub busy : String
  pub editing : Bool

-- What `test` and `unlock` read of the body; `initialized` may be missing.
pub record Report : Type 0 where
  pub ok : Bool
  pub initialized : Option Bool
  pub code : String
  pub message : String
  pub error : String
  pub detail : String

-- `res.body || {}`
abbrev pub no_report : Report
no_report = record {
  ok = false;
  initialized = none;
  code = "";
  message = "";
  error = "";
  detail = "";
}

unfoldable pub report_of : Option Report → Report
report_of none = no_report
report_of (some r) = r

unfoldable pub says_uninitialized : Option Bool → Bool
says_uninitialized (some false) = true
says_uninitialized _ = false

-- `b.initialized === false && b.code !== "timeout"`
unfoldable pub is_info : Report → Bool
unfolding says_uninitialized
is_info b = says_uninitialized b.initialized && not (b.code == "timeout")

unfoldable pub test_result : Report → Result
unfolding is_info
test_result b = record {
  kind = if b.ok then good else if is_info b then info else bad;
  message = or_text (or_text b.message b.error) "The test failed.";
  detail = b.detail;
}

unfoldable pub unlock_result : Report → Result
unlock_result b = record {
  kind = if b.ok then good else bad;
  message =
      or_text (or_text b.message b.error)
        (if b.ok then "Stale locks removed." else "Could not unlock.");
  detail = "";
}

pub data Effect : Type 0 where
  send : Request → Effect
  toast_success : String → Effect
  started : StartRun.Effect → Effect

unfoldable pub all_started : List StartRun.Effect → List Effect
all_started [] = []
all_started (e ∷ es) = started e ∷ all_started es

-- Each action up to its `await`, and behind it.
unfoldable pub test_started : (id : String) → State → State × List Effect
unfolding repositories_call
test_started id s = (
  record s {
    busy = "test";
    result = some (record { kind = info; message = "Testing the connection…"; detail = "" });
  },
  send (repositories_call (test id)) ∷ [],
)

unfoldable pub tested : Option Report → State → State
unfolding test_result report_of
tested body s = record s { busy = ""; result = some (test_result (report_of body)) }

unfoldable pub init_started : (id : String) → State → State × List Effect
unfolding repositories_call
init_started id s = (record s { busy = "init" }, send (repositories_call (init id)) ∷ [])

-- `if (!handleStartResponse(...)) setResult(...)`
unfoldable pub start_failed : (fallback : String) → Response → Bool → State → State
start_failed fallback res ok s = if ok then s else record s {
  result = some (record { kind = bad; message = error_of res fallback; detail = "" });
}

unfoldable pub start_answered : (fallback : String) → Response → State → State × List Effect
unfolding start_failed all_started handle_start_response
start_answered fallback res s =
    let (ok, effects) = handle_start_response res fallback false in
    (start_failed fallback res ok (record s { busy = "" }), all_started effects)

unfoldable pub initialized : Response → State → State × List Effect
unfolding start_answered
initialized res s = start_answered "Could not initialize the repository." res s

unfoldable pub unlock_started : (id : String) → State → State × List Effect
unfolding repositories_call
unlock_started id s = (record s { busy = "unlock" }, send (repositories_call (unlock id)) ∷ [])

unfoldable pub unlocked : Option Report → State → State × List Effect
unfolding unlock_result report_of
unlocked body s = (
  record s { busy = ""; result = some (unlock_result (report_of body)) },
  if (report_of body).ok then toast_success "Stale locks removed." ∷ [] else [],
)

unfoldable pub reset_question : (name : String) → Given
unfolding question
reset_question name =
    question (concat ("Empty “" ∷ name ∷ "”?" ∷ []))
      "Forget every snapshot in this repository and prune unused data. Jobs are not deleted. The repository stays initialized. This cannot be undone."
      "Empty repository"

-- Behind the answer to the question.
unfoldable pub reset_confirmed : (id : String) → Bool → State → State × List Effect
unfolding repositories_call
reset_confirmed id ok s =
    if ok then (record s { busy = "reset" }, send (repositories_call (reset id)) ∷ []) else (s, [])

unfoldable pub reset_answered : Response → State → State × List Effect
unfolding start_answered
reset_answered res s = start_answered "Could not empty the repository." res s

-- `ActionRow`: a row can be pressed unless its own action waits, and says so while it does.
unfoldable pub is_row_disabled : (action : String) → State → Bool
is_row_disabled action s = s.busy == action

unfoldable pub row_title : (title busy_title : String) → (busy : Bool) → String
row_title title busy_title busy = if busy then or_text busy_title title else title

-- The facts: label and value, those that are left out dropped.
unfoldable pub facts : Repository → (has_password : Bool) → List (String × String)
unfolding backend_label
facts r has_password =
    let f = r.form in
    let place =
      if f.backend_type == "S3"
      then ("Endpoint", f.endpoint) ∷ ("Bucket", f.bucket) ∷ ("Region", f.region) ∷ []
      else ("Directory", f.local_path) ∷ [] in
    ("Backend", backend_label f.backend_type)
    ∷ (place
        ++ ("Encryption", if has_password then "Password stored" else "No password stored") ∷ [])

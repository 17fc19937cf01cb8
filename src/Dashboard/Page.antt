-- ===== src/Dashboard/Page.antt =====
-- The dashboard as a page (`Dashboard` of ui/src/routes/dashboard.jsx): what its two loads keep, the
-- counts, and which of its parts are shown.
use restic_golang.Api.{Response, Body}
use restic_golang.Base.{
  ℕ, ◌+◌, String, Bool, false, not, ◌&&◌, ◌||◌, Option, none, some, List, [], ◌∷◌, if◌then◌else◌,
  ◌==◌, eqb, ltb, or_text, keep, length, take, present,
}
use restic_golang.Dashboard.{Job, Attention, select_attention, select_upcoming, order_job_cards}
use restic_golang.Dashboard.Failures.{merge_recent_backup_failures}
use restic_golang.Format.{Clock}
use restic_golang.ListPage.{Loaded, failed, loaded, listed}
use restic_golang.Runs.{Run}

abbrev pub job_cards_cap : ℕ
job_cards_cap = 6

abbrev pub latest_cap : ℕ
latest_cap = 6

-- The last check of a repository: its status and its run.
pub record Check : Type 0 where
  pub status : String
  pub run_id : String

pub record Repository : Type 0 where
  pub id : String
  pub name : String
  pub last_check : Option Check

-- What `loadJobs` returns.
pub record Data : Type 0 where
  pub jobs : List Job
  pub folders : List String
  pub repositories : List Repository
  pub recent_failures : List Run
  pub latest : List Run

-- The bodies of the other answers, each `none` where its list is missing.
pub record Answers : Type 0 where
  pub folders : Option (List String)
  pub repositories : Option (List Repository)
  pub latest : Option (List Run)
  pub failed : Option (List Run)
  pub interrupted : Option (List Run)

-- `jobsR.body?.error || "Could not load jobs"`
unfoldable pub own_error : Option Body → String
own_error none = "Could not load jobs"
own_error (some b) = or_text b.error "Could not load jobs"

-- The failures are asked for where a job needs attention.
unfoldable pub failures : Clock → List Attention → Answers → List Run
unfolding listed merge_recent_backup_failures
failures clock [] a = []
failures clock (_ ∷ _) a =
    merge_recent_backup_failures clock (listed a.failed) (listed a.interrupted)

-- Without a job the folders are asked for, and with one the runs.
unfoldable pub data_of : Clock → List Job → Answers → Data
unfolding listed failures select_attention
data_of clock [] a = record {
  jobs = [];
  folders = listed a.folders;
  repositories = listed a.repositories;
  recent_failures = [];
  latest = [];
}
data_of clock (j ∷ js) a = record {
  jobs = j ∷ js;
  folders = [];
  repositories = listed a.repositories;
  recent_failures = failures clock (select_attention clock (j ∷ js)) a;
  latest = listed a.latest;
}

unfoldable pub load_jobs : Clock → Response → Option (List Job) → Answers → Loaded Data
unfolding own_error data_of listed
load_jobs clock res jobs a =
    if res.ok then loaded (data_of clock (listed jobs) a) else failed (own_error res.body)

-- The counts of `/api/status`, which may be missing.
pub record Counts : Type 0 where
  pub repositories : ℕ
  pub folders : ℕ
  pub databases : ℕ
  pub jobs : ℕ

abbrev pub no_counts : Counts
no_counts = record { repositories = 0; folders = 0; databases = 0; jobs = 0 }

unfoldable pub counts_of : Option Counts → Counts
counts_of none = no_counts
counts_of (some c) = c

unfoldable pub jobs_of : Option Data → List Job
jobs_of none = []
jobs_of (some d) = d.jobs

unfoldable pub repositories_of : Option Data → List Repository
repositories_of none = []
repositories_of (some d) = d.repositories

unfoldable pub folders_of : Option Data → List String
folders_of none = []
folders_of (some d) = d.folders

unfoldable pub is_failed : Repository → Bool
is_failed r = elim r.last_check [ none ↦ false | some c ↦ c.status == "failed" ]

unfoldable pub failed_checks : Option Data → List Repository
unfolding is_failed repositories_of
failed_checks got = keep is_failed (repositories_of got)

unfoldable pub job_cards : Clock → List Job → List Job
unfolding order_job_cards select_attention
job_cards clock jobs = take job_cards_cap (order_job_cards clock jobs (select_attention clock jobs))

unfoldable pub scheduled_total : List Job → ℕ
scheduled_total jobs = length (keep (λ (j : Job). j.schedule_enabled) jobs)

-- The four tiles of `InventoryStrip`.
pub record Tiles : Type 0 where
  pub repositories : ℕ
  pub sources : ℕ
  pub jobs : ℕ
  pub scheduled : ℕ

unfoldable pub tiles : (loading : Bool) → Option Data → Option Counts → Tiles
unfolding counts_of jobs_of scheduled_total
tiles loading got status =
    let c = counts_of status in
    record {
      repositories = c.repositories;
      sources = c.folders + c.databases;
      jobs = if loading && not (present got) then c.jobs else length (jobs_of got);
      scheduled = scheduled_total (jobs_of got);
    }

-- `!loading && data && jobs.length === 0`
unfoldable pub is_empty : (loading : Bool) → Option Data → Bool
unfolding jobs_of
is_empty loading got = not loading && (present got && eqb (length (jobs_of got)) 0)

unfoldable pub has_folder : Option Data → Option Counts → Bool
unfolding folders_of counts_of
has_folder got status =
    ltb 0 (length (folders_of got))
    || ltb 0 ((counts_of status).folders + (counts_of status).databases)

unfoldable pub has_repo : Option Data → Option Counts → Bool
unfolding repositories_of counts_of
has_repo got status = ltb 0 (length (repositories_of got)) || ltb 0 (counts_of status).repositories

-- Which parts are shown. The first is the steps of a new install, or the headline, or nothing.
pub data Head : Type 0 where
  getting_started health_hero no_head : Head

unfoldable pub head : (loading : Bool) → Option Data → Head
unfolding is_empty
head loading got =
    if is_empty loading got then getting_started else if present got then health_hero else no_head

pub record Parts : Type 0 where
  pub error : Bool
  pub skeleton : Bool
  pub head : Head
  pub failed_checks : Bool
  pub attention : Bool
  pub recent_failures : Bool
  pub cards : Bool
  pub latest : Bool
  pub upcoming : Bool
  pub repositories : Bool

unfoldable pub failures_of : Option Data → List Run
failures_of none = []
failures_of (some d) = d.recent_failures

unfoldable pub parts :
    Clock → (loading : Bool) → (error : Option String) → Option Data → Option Counts → Parts
unfolding head is_empty failed_checks select_attention failures_of job_cards select_upcoming jobs_of
    repositories_of
parts clock loading error got status =
    let full = not (is_empty loading got) in
    let jobs = jobs_of got in
    let attention = ltb 0 (length (select_attention clock jobs)) in
    record {
      error = present error;
      skeleton = loading && (not (present got) && not (present status));
      head = head loading got;
      failed_checks = ltb 0 (length (failed_checks got));
      attention = full && attention;
      recent_failures = full && (attention && ltb 0 (length (failures_of got)));
      cards = full && ltb 0 (length (job_cards clock jobs));
      latest = full && present got;
      upcoming = full && (present got && ltb 0 (length (select_upcoming clock jobs)));
      repositories = full && ltb 0 (length (repositories_of got));
    }

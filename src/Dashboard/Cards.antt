-- ===== src/Dashboard/Cards.antt =====
-- The cards of the dashboard (ui/src/routes/dashboard.jsx): the texts of `AttentionCard`,
-- `UpcomingCard`, `RepositoryCards` and `FailedChecksCallout`.
use restic_golang.Base.{
  ℕ, ◌+◌, ◌-◌, String, Option, none, some, List, [], ◌∷◌, if◌then◌else◌, ◌==◌, eqb, ltb, concat,
  show, take, length, map, upsert, value_at,
}
use restic_golang.Dashboard.{Job, Attention, attention_cap}
use restic_golang.Dashboard.Page.{Repository, Check}
use restic_golang.Format.{Clock, fmt_relative}
use restic_golang.Runs.{Run}
use restic_golang.Schedule.{Schedule, describe_schedule_title}

-- `lastRunSummary` of this page: the error alone.
unfoldable pub error_of_run : Option Run → String
error_of_run none = ""
error_of_run (some r) = r.error

unfoldable pub attention_shown : List Attention → List Attention
attention_shown l = take attention_cap l

unfoldable pub see_all : List Attention → String
unfolding attention_shown
see_all l =
    let more = length l - length (attention_shown l) in
    if ltb 0 more then concat ("View all jobs (" ∷ show more ∷ " more)" ∷ []) else "View all jobs"

-- The badge: the status of the failed run, "Overdue", or none.
unfoldable pub attention_badge : Attention → Option String
attention_badge a = elim a.job.last_run [
  | none ↦ if a.overdue then some "Overdue" else none
  | some r ↦ if a.failed_last then some r.status else if a.overdue then some "Overdue" else none
]

unfoldable pub run_text : Clock → Run → String
unfolding fmt_relative
run_text clock r = concat (
    "Last run "
    ∷ fmt_relative clock r.started_at
    ∷ (if r.error == "" then "" else concat (" · " ∷ r.error ∷ []))
    ∷ [])

-- The line under the name, by the job's schedule.
unfoldable pub attention_text : Clock → Option Schedule → Attention → String
unfolding run_text describe_schedule_title
attention_text clock schedule a = elim a.job.last_run [
  | none ↦ if a.overdue then describe_schedule_title schedule else ""
  | some r ↦
      if a.failed_last
      then run_text clock r
      else if a.overdue
      then describe_schedule_title schedule
      else ""
]

-- `UpcomingCard`: when the job is due, and whether it is late.
unfoldable pub due_text : Clock → Job → String
unfolding fmt_relative
due_text clock j =
    if j.schedule_state == "overdue"
    then "Overdue"
    else if j.next_due_at == ""
    then "—"
    else fmt_relative clock j.next_due_at

-- `jobsPerRepo`, of the repositories of the jobs, and the text of a card.
unfoldable pub count_jobs : List (String × ℕ) → (repository_ids : List String) → List (String × ℕ)
count_jobs m [] = m
count_jobs m (id ∷ ids) = count_jobs (upsert id 0 (λ (n : ℕ). n + 1) m) ids

unfoldable pub jobs_text : (id : String) → (repository_ids : List String) → String
unfolding count_jobs
jobs_text id ids =
    let n = value_at id 0 (count_jobs [] ids) in
    concat (show n ∷ " job" ∷ (if eqb n 1 then "" else "s") ∷ [])

-- `FailedChecksCallout`: its title, and the repositories with the pages of their checks.
unfoldable pub callout_title : List Repository → String
callout_title rs =
    if eqb (length rs) 1
    then "A repository check found errors"
    else concat (show (length rs) ∷ " repository checks found errors" ∷ [])

unfoldable pub check_page : Option Check → String
check_page none = "/runs/"
check_page (some c) = concat ("/runs/" ∷ c.run_id ∷ [])

unfoldable pub check_links : List Repository → List (String × String)
unfolding check_page
check_links rs = map (λ (r : Repository). (r.name, check_page r.last_check)) rs

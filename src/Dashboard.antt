-- ===== src/Dashboard.antt =====
-- The dashboard's choices (ui/src/routes/dashboard.jsx): which jobs need attention, which backups
-- come next, the order of the cards, the headline and the recent failures.
pub mod Health
pub mod Failures
pub mod Laws
pub mod Recent
pub mod Page
pub mod Cards
use restic_golang.Base.{
  ℕ, suc, ◌+◌, String, Bool, true, false, not, ◌&&◌, ◌||◌, Option, none, some, List, [], ◌∷◌,
  if◌then◌else◌, ◌==◌, eqb, compare, Ordering, sort, keep, take, present,
}
use restic_golang.Format.{Clock}
use restic_golang.Runs.{Run}

-- What the dashboard reads of a job; `schedule_enabled` is `schedule?.enabled`.
pub record Job : Type 0 where
  pub id : String
  pub name : String
  pub last_run : Option Run
  pub schedule_state : String
  pub schedule_enabled : Bool
  pub next_due_at : String

pub record Attention : Type 0 where
  pub job : Job
  pub failed_last : Bool
  pub overdue : Bool

abbrev pub attention_cap : ℕ
attention_cap = 5

abbrev pub upcoming_cap : ℕ
upcoming_cap = 5

abbrev pub failures_cap : ℕ
failures_cap = 5

-- A number of the comparators: `nan` is not a number, `infinite` is `Infinity`.
pub data Time : Type 0 where
  at : ℕ → Time
  infinite nan : Time

-- The sign of `a - b`, as `sort` reads it: `NaN` counts as 0.
unfoldable pub by_difference : Time → Time → Ordering
by_difference (at a) (at b) = compare a b
by_difference (at _) infinite = Ordering.lt
by_difference infinite (at _) = Ordering.gt
by_difference _ _ = Ordering.eq

-- `new Date(iso).getTime()`
unfoldable pub time : Clock → String → Time
time clock iso = elim (clock.instant iso) [ none ↦ nan | some t ↦ at t ]

-- `run?.startedAt ? new Date(run.startedAt).getTime() : missing`
unfoldable pub started_time : Clock → Time → Option Run → Time
unfolding time
started_time clock missing none = missing
started_time clock missing (some run) =
    if run.started_at == "" then missing else time clock run.started_at

unfoldable pub ended_badly : Option Run → Bool
ended_badly none = false
ended_badly (some run) = run.status == "failed" || run.status == "interrupted"

unfoldable pub is_overdue : Job → Bool
is_overdue job = job.schedule_state == "overdue"

unfoldable pub failing_rank : Attention → ℕ
failing_rank a = if a.failed_last then 0 else 1

unfoldable pub by_attention : Clock → Attention → Attention → Ordering
unfolding failing_rank by_difference started_time
by_attention clock a b =
    if not (eqb (failing_rank a) (failing_rank b))
    then compare (failing_rank a) (failing_rank b)
    else by_difference (started_time clock infinite a.job.last_run)
        (started_time clock infinite b.job.last_run)

-- The loop of `selectAttention`.
unfoldable pub needing : List Job → List Attention
unfolding ended_badly is_overdue
needing [] = []
needing (job ∷ jobs) =
    let failed = ended_badly job.last_run in
    let overdue = is_overdue job in
    if not failed && not overdue
    then needing jobs
    else record { job = job; failed_last = failed; overdue = overdue } ∷ needing jobs

unfoldable pub select_attention : Clock → List Job → List Attention
unfolding needing by_attention
select_attention clock jobs = sort (by_attention clock) (needing jobs)

unfoldable pub by_due : Clock → Job → Job → Ordering
unfolding by_difference time
by_due clock a b =
    if a.next_due_at == "" && b.next_due_at == ""
    then Ordering.eq
    else if a.next_due_at == ""
    then Ordering.gt
    else if b.next_due_at == ""
    then Ordering.lt
    else by_difference (time clock a.next_due_at) (time clock b.next_due_at)

unfoldable pub select_upcoming : Clock → List Job → List Job
unfolding by_due
select_upcoming clock jobs =
    take upcoming_cap (sort (by_due clock) (keep (λ j. j.schedule_enabled) jobs))

-- `rank.get(id)`: the place of the job's last entry in the list, where there is one.
unfoldable pub rank_from : ℕ → String → List Attention → Time → Time
rank_from i id [] r = r
rank_from i id (a ∷ rest) r = rank_from (i + 1) id rest (if a.job.id == id then at i else r)

unfoldable pub rank : String → List Attention → Time
unfolding rank_from
rank id attention = rank_from 0 id attention infinite

unfoldable pub same_rank : Time → Time → Bool
same_rank (at a) (at b) = eqb a b
same_rank infinite infinite = true
same_rank _ _ = false

unfoldable pub by_card : Clock → List Attention → Job → Job → Ordering
unfolding same_rank by_difference rank started_time
by_card clock attention a b =
    let ra = rank a.id attention in
    let rb = rank b.id attention in
    if not (same_rank ra rb)
    then by_difference ra rb
    else by_difference (started_time clock (at 0) b.last_run) (started_time clock (at 0) a.last_run)

unfoldable pub order_job_cards : Clock → List Job → List Attention → List Job
unfolding by_card
order_job_cards clock jobs attention = sort (by_card clock attention) jobs

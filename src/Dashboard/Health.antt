-- ===== src/Dashboard/Health.antt =====
-- `HealthHero` of ui/src/routes/dashboard.jsx: the sentence that says whether the backups are well,
-- and the three facts under it.
use restic_golang.Base.{
  ℕ, ◌-◌, String, Bool, true, false, not, ◌&&◌, ◌||◌, Option, none, some, List, [], ◌∷◌,
  if◌then◌else◌, ◌==◌, eqb, ltb, length, keep, find, present, concat, show, Ordering,
}
use restic_golang.Dashboard.{Job, Attention, by_difference, time}
use restic_golang.Format.{Clock, fmt_relative}
use restic_golang.Runs.{Run}

pub data Tone : Type 0 where
  destructive warning neutral success : Tone

pub record Health : Type 0 where
  pub tone : Tone
  pub headline : String
  pub detail : String

-- `n === 1 ? one : many`
unfoldable pub plural : ℕ → String → String → String
plural n one many = if eqb n 1 then one else many

unfoldable pub also_overdue : ℕ → String
unfolding plural
also_overdue overdue =
    if ltb 0 overdue
    then concat (
        " "
        ∷ show overdue
        ∷ " scheduled backup"
        ∷ plural overdue " is" "s are"
        ∷ " overdue as well."
        ∷ [])
    else ""

-- The five branches, by the number of failing, damaged, overdue and new ones of `total` jobs.
unfoldable pub health_of : (failed checks overdue never_run total : ℕ) → Health
unfolding plural also_overdue
health_of failed checks overdue never_run total =
    if ltb 0 failed
    then record {
      tone = destructive;
      headline =
          concat (show failed ∷ " job" ∷ plural failed " needs" "s need" ∷ " attention" ∷ []);
      detail = concat (
          "The last run "
          ∷ plural failed "of this job" "of these jobs"
          ∷ " failed or was interrupted."
          ∷ also_overdue overdue
          ∷ []);
    }
    else if ltb 0 checks
    then record {
      tone = destructive;
      headline =
          concat (show checks ∷ " repositor" ∷ plural checks "y is" "ies are" ∷ " damaged" ∷ []);
      detail = "The last runs succeeded, but a repository check found errors in stored backups.";
    }
    else if ltb 0 overdue
    then record {
      tone = warning;
      headline =
          concat
            (show overdue ∷ " scheduled backup" ∷ plural overdue " is" "s are" ∷ " overdue" ∷ []);
      detail = "They missed their last slot. They run as soon as the repository is free.";
    }
    else if eqb never_run total
    then record {
      tone = neutral;
      headline = "No backups have run yet";
      detail = "Open a job and run it once to take the first snapshot.";
    }
    else record {
      tone = success;
      headline = "All backups are healthy";
      detail =
          if ltb 0 never_run
          then concat (
              "Every job that has run succeeded. "
              ∷ show never_run
              ∷ " job"
              ∷ plural never_run " has" "s have"
              ∷ " not run yet."
              ∷ [])
          else "The last run of every job succeeded.";
    }

unfoldable pub health : List Job → List Attention → ℕ → Health
unfolding health_of
health jobs attention failed_checks =
    health_of (length (keep (λ a. a.failed_last) attention)) failed_checks
      (length (keep (λ a. a.overdue) attention))
      (length (keep (λ j. not (present j.last_run)) jobs)) (length jobs)

-- `new Date(a) > new Date(b)`
unfoldable pub is_after : Clock → String → String → Bool
unfolding by_difference time
is_after clock a b = elim (by_difference (time clock a) (time clock b)) [
  | Ordering.gt ↦ true
  | _ ↦ false
]

unfoldable pub is_done : Run → Bool
is_done r = r.status == "success" || r.status == "success_warnings"

-- One round of the loop, on the first run of a job that was done well.
unfoldable pub later_backup : Clock → Option Run → Option Run → Option Run
unfolding is_after
later_backup clock none last = last
later_backup clock (some done) none = some done
later_backup clock (some done) (some last) =
    if is_after clock done.started_at last.started_at then some done else some last

unfoldable pub last_backup_from : Clock → List (List Run) → Option Run → Option Run
unfolding later_backup is_done
last_backup_from clock [] last = last
last_backup_from clock (runs ∷ strips) last =
    last_backup_from clock strips (later_backup clock (find is_done runs) last)

unfoldable pub last_backup : Clock → List (List Run) → Option Run
unfolding last_backup_from
last_backup clock strips = last_backup_from clock strips none

unfoldable pub next_job : List Job → Option Job
next_job upcoming =
    find (λ j. not (j.next_due_at == "") && not (j.schedule_state == "overdue")) upcoming

pub record Fact : Type 0 where
  pub label : String
  pub value : String
  pub sub : String

unfoldable pub last_fact : Clock → Option Run → Fact
last_fact clock none = record { label = "Last backup"; value = "—"; sub = "" }
last_fact clock (some r) = record {
  label = "Last backup";
  value = fmt_relative clock r.started_at;
  sub = r.job_name;
}

unfoldable pub next_fact : Clock → Option Job → Fact
next_fact clock none = record { label = "Next backup"; value = "—"; sub = "No schedules" }
next_fact clock (some j) = record {
  label = "Next backup";
  value = fmt_relative clock j.next_due_at;
  sub = j.name;
}

unfoldable pub count_fact : (running total failed : ℕ) → Fact
count_fact running total failed =
    if ltb 0 running
    then record { label = "Running now"; value = show running; sub = "live" }
    else record {
      label = "Healthy jobs";
      value = concat (show (total - failed) ∷ " of " ∷ show total ∷ []);
      sub = "";
    }

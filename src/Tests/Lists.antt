-- ===== src/Tests/Lists.antt =====
-- The dashboard and the run lists at concrete inputs.
use restic_golang.Base.{
  ℕ, ◌≤◌, ◌<◌, ◌≡◌, refl, true, not, ◌||◌, none, some, [], ◌∷◌, ◌++◌, String, List, All, arith, map,
  keep, length, Ranked, any, eq_iff, sort, ◌==◌, present,
}
use mathlib.Core.List.{Perm}
use restic_golang.Dashboard.{Job, ended_badly, is_overdue, failing_rank, select_attention}
use restic_golang.Dashboard.Failures.{merge_recent_backup_failures}
use restic_golang.Dashboard.Health.{health, success}
use restic_golang.Dashboard.Laws.{IsWell, IsTrue, health-success, select_attention_lem}
use restic_golang.Dashboard.Recent.{Fresh, merge_recent_backup_failures_lem}
use restic_golang.Format.{Clock}
use restic_golang.History.{by_day}
use restic_golang.History.Laws.{all_runs, IsDay, Apart, by_day_lem}
use restic_golang.Live.{Message, initial, receive_all, run_event}
use restic_golang.Live.Active.{find_id, receive_all-keeps}
use restic_golang.Runs.{Run}

abbrev a_run : String → String → Run
a_run id status = record {
  id = id;
  kind = "backup";
  status = status;
  job_id = "j1";
  job_name = "Nightly";
  repository_id = "r1";
  repo_name = "local";
  error = "";
  started_at = id;
  finished_at = "";
  safety_snapshot = "";
  progress = none;
  summary = none;
}

-- A date is the length of its text here.
abbrev clock : Clock
clock = record {
  instant = λ s. some 5;
  now = 9;
  locale_time = λ n. "time";
  locale_date = λ n. "date";
  locale_number = λ n. "number";
}

abbrev job : String → Run → Job
job id run = record {
  id = id;
  name = id;
  last_run = some run;
  schedule_state = "";
  schedule_enabled = true;
  next_due_at = "";
}

abbrev jobs : List Job
jobs = job "a" (a_run "1" "success") ∷ job "b" (a_run "2" "failed") ∷ []

abbrev well : List Job
well = job "a" (a_run "1" "success") ∷ []

well-success : (health well (select_attention clock well) 0).tone ≡ success
unfolding health select_attention sort
well-success = refl

abbrev no_checks : ℕ
no_checks = 0

health-success_example :
    All IsWell well
    × (no_checks ≡ 0)
    × (length (keep (λ j. not (present j.last_run)) well) < length well)
health-success_example = health-success clock well no_checks well-success

select_attention_lem_example :
    Perm
      (map (λ a. a.job) (select_attention clock jobs))
      (keep (λ j. ended_badly j.last_run || is_overdue j) jobs)
    × All IsTrue (select_attention clock jobs)
    × Ranked failing_rank (select_attention clock jobs)
select_attention_lem_example = select_attention_lem clock jobs

abbrev failed : List Run
failed = a_run "1" "failed" ∷ a_run "2" "failed" ∷ []

abbrev interrupted : List Run
interrupted = a_run "2" "interrupted" ∷ []

merge_recent_backup_failures_lem_example :
    Fresh [] (merge_recent_backup_failures clock failed interrupted)
    × (length (merge_recent_backup_failures clock failed interrupted) ≤ 5)
    × (length (merge_recent_backup_failures clock failed interrupted) < 5
        → All
            (λ r.
              any (λ x. x.id == r.id) (merge_recent_backup_failures clock failed interrupted)
              ≡ true)
            (failed ++ interrupted))
merge_recent_backup_failures_lem_example = merge_recent_backup_failures_lem clock failed interrupted

abbrev status_of : Run → String
status_of r = r.status

by_day_lem_example :
    (all_runs (by_day status_of (failed ++ interrupted)) ≡ failed ++ interrupted)
    × All (IsDay status_of) (by_day status_of (failed ++ interrupted))
    × Apart status_of (by_day status_of (failed ++ interrupted))
by_day_lem_example = by_day_lem status_of (failed ++ interrupted)

abbrev about : Run → Message
about r = some (record { type = "run"; run = some r; progress = none; line = none })

-- A second run starts and ends.
receive_all-keeps_example :
    find_id "1" (receive_all initial (about (a_run "2" "running") ∷ none ∷ [])).active_runs
    ≡ find_id "1" initial.active_runs
unfolding run_event
receive_all-keeps_example =
    receive_all-keeps "1" (about (a_run "2" "running") ∷ none ∷ []) initial
      ((λ e. ground (arith, (eq_iff "2" "1").1 e)), (tt, tt))

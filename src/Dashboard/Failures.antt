-- ===== src/Dashboard/Failures.antt =====
-- `mergeRecentBackupFailures` of ui/src/routes/dashboard.jsx: the failed and the interrupted
-- backups, newest first, each once, at most five.
use restic_golang.Base.{
  ℕ, zero, suc, String, List, [], ◌∷◌, ◌++◌, if◌then◌else◌, ◌==◌, any, sort, Ordering,
}
use restic_golang.Dashboard.{by_difference, time, failures_cap}
use restic_golang.Format.{Clock}
use restic_golang.Runs.{Run}

-- `(a, b) => new Date(b.startedAt) - new Date(a.startedAt)`
unfoldable pub newest_first : Clock → Run → Run → Ordering
unfolding by_difference time
newest_first clock a b = by_difference (time clock b.started_at) (time clock a.started_at)

-- The loop: `room` more runs may be taken; the ids of `seen` were.
unfoldable pub unique_from : ℕ → List String → List Run → List Run
unique_from zero seen runs = []
unique_from (suc room) seen [] = []
unique_from (suc room) seen (run ∷ runs) =
    let skipped = unique_from (suc room) seen runs in
    let taken = unique_from room (run.id ∷ seen) runs in
    if any (λ id. id == run.id) seen then skipped else run ∷ taken

unfoldable pub merge_recent_backup_failures : Clock → List Run → List Run → List Run
unfolding newest_first unique_from
merge_recent_backup_failures clock failed interrupted =
    unique_from failures_cap [] (sort (newest_first clock) (failed ++ interrupted))

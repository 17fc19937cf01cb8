-- ===== src/RunPage.antt =====
-- A run's page (ui/src/routes/run.jsx) and the row of an active run
-- (ui/src/components/active-runs.jsx): the figures of a summary, and the progress shown.
pub mod View
use restic_golang.Base.{
  ℕ, String, Bool, ◌&&◌, ◌||◌, Option, none, some, List, [], ◌∷◌, ◌++◌, if◌then◌else◌, ◌==◌, eqb,
  concat, show, or_text,
}
use restic_golang.Format.{Clock, fmt_bytes, fmt_count, fmt_dur, short_id, to_fixed_1}
use restic_golang.Runs.{Run, Summary, Speed, Progress, pos, is_active, display_percent}
use restic_golang.Speed.{fmt_speed}

pub record Stat : Type 0 where
  pub label : String
  pub value : String

abbrev stat : String → String → Stat
stat label value = record { label = label; value = value }

-- A figure that is left out where it is missing.
unfoldable pub duration_stat : ℕ → List Stat
duration_stat d = if eqb d 0 then [] else stat "Duration" (fmt_dur d) ∷ []

unfoldable pub id_stat : String → String → List Stat
id_stat label id = if id == "" then [] else stat label (short_id id) ∷ []

unfoldable pub is_restore : String → Bool
is_restore kind = kind == "restore" || kind == "download"

unfoldable pub speed_stats : Speed → List Stat
speed_stats sp =
    stat "Score" (concat (show sp.score ∷ " · " ∷ sp.rating ∷ []))
    ∷ stat "Upload" (fmt_speed sp.upload)
    ∷ stat "Download" (fmt_speed sp.download)
    ∷ stat "Overhead" (concat (to_fixed_1 sp.overhead 1000 ∷ " s" ∷ []))
    ∷ []

unfoldable pub other_stats : Clock → Run → Summary → List Stat
unfolding duration_stat id_stat is_restore
other_stats clock run s =
    if run.kind == "restore_db"
    then stat "Data imported" (fmt_bytes s.bytes_restored)
      ∷ (id_stat "Safety snapshot" run.safety_snapshot ++ duration_stat s.total_duration)
    else if is_restore run.kind
    then stat "Files restored" (fmt_count clock s.files_restored)
      ∷ stat "Data restored" (fmt_bytes s.bytes_restored)
      ∷ duration_stat s.total_duration
    else stat "New files" (fmt_count clock s.files_new)
      ∷ stat "Changed" (fmt_count clock s.files_changed)
      ∷ stat "Unchanged" (fmt_count clock s.files_unmodified)
      ∷ stat "Data added" (fmt_bytes s.data_added)
      ∷ (id_stat "Snapshot" s.snapshot_id ++ duration_stat s.total_duration)

unfoldable pub summary_stats_of : Clock → Run → Summary → Option Speed → List Stat
unfolding speed_stats other_stats
summary_stats_of clock run s none = other_stats clock run s
summary_stats_of clock run s (some sp) =
    if run.kind == "speedtest" then speed_stats sp else other_stats clock run s

-- `SummaryStats`; nothing is shown without a summary.
unfoldable pub summary_stats : Clock → Run → List Stat
unfolding summary_stats_of
summary_stats clock run = elim run.summary [
  | none ↦ []
  | some s ↦ summary_stats_of clock run s s.speed
]

abbrev pub no_progress : Progress
no_progress = record {
  percent = pos 0;
  files_done = 0;
  total_files = 0;
  bytes_done = 0;
  total_bytes = 0;
  current_file = "";
}

unfoldable pub progress_or_none : Option Progress → Progress
progress_or_none none = no_progress
progress_or_none (some p) = p

-- The counts of a summary in place of those of the last progress.
unfoldable pub counted : String → Summary → Progress → Progress
unfolding is_restore
counted kind s p = record p {
  files_done = if is_restore kind then s.files_restored else s.total_files_processed;
  total_files = s.total_files_processed;
  bytes_done = if is_restore kind then s.bytes_restored else s.total_bytes_processed;
  total_bytes = s.total_bytes_processed;
  current_file = "";
}

-- `p` of `ProgressHero`; a speed test counts its own progress.
unfoldable pub shown_progress : Run → Progress
unfolding counted progress_or_none
shown_progress run = elim run.summary [
  | none ↦ progress_or_none run.progress
  | some s ↦
      if run.kind == "speedtest"
      then progress_or_none run.progress
      else counted run.kind s (progress_or_none run.progress)
]

unfoldable pub is_indeterminate : Run → Bool
unfolding shown_progress
is_indeterminate run =
    is_active run.status
    && (eqb (display_percent (some run)) 0 && eqb (shown_progress run).total_bytes 0)

-- `ActiveRunRow`: the streamed run, or the one of the list, and whether its bar sweeps.
unfoldable pub live_of : Option Run → Run → Run
live_of none run = run
live_of (some live) run = live

unfoldable pub row_name : Run → String
row_name live = or_text (or_text live.job_name live.repo_name) "—"

unfoldable pub is_row_indeterminate : Run → Bool
unfolding progress_or_none
is_row_indeterminate live =
    eqb (display_percent (some live)) 0 && eqb (progress_or_none live.progress).total_bytes 0

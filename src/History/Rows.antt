-- ===== src/History/Rows.antt =====
-- Rows of runs: `RunRow` and `RunHistory` of ui/src/components/run-history.jsx, and the live ones of
-- ui/src/components/active-runs.jsx.
use restic_golang.Base.{
  ℕ, String, Bool, not, ◌&&◌, Option, none, some, List, [], ◌∷◌, if◌then◌else◌, eqb, length, map,
  concat, or_text, truthy, show, sort,
}
use restic_golang.Dashboard.Failures.{newest_first}
use restic_golang.Format.{Clock, fmt_relative, fmt_time, round, run_duration}
use restic_golang.History.{Day, Calendar, status_tone, stored_summary, by_day, day_label}
use restic_golang.RunPage.{live_of, row_name, is_row_indeterminate, progress_or_none}
use restic_golang.Runs.{Run, kind_label, lookup, display_percent}

-- A row of the history; `context` is there where it is shown and there is one.
pub record Row : Type 0 where
  pub to : String
  pub tone : String
  pub kind : String
  pub context : Option String
  pub status : String
  pub is_error : Bool
  pub outcome : String
  pub started : String
  pub tooltip : String
  pub duration : String

unfoldable pub context : (show_context : Bool) → Run → Option String
context show_context run =
    let name = or_text run.job_name run.repo_name in
    if show_context && truthy name then some name else none

-- The second line: the error, or what the run stored.
unfoldable pub stored_text : Option String → String
stored_text none = "—"
stored_text (some s) = or_text s "—"

unfoldable pub outcome : Run → String
unfolding stored_text
outcome run = if truthy run.error then run.error else stored_text (stored_summary run)

unfoldable pub row : Clock → (show_context : Bool) → Run → Row
unfolding context outcome
row clock show_context run = record {
  to = concat ("/runs/" ∷ run.id ∷ []);
  tone = or_text (lookup run.status status_tone) "neutral";
  kind = kind_label run.kind;
  context = context show_context run;
  status = run.status;
  is_error = truthy run.error;
  outcome = outcome run;
  started = fmt_relative clock run.started_at;
  tooltip = fmt_time clock run.started_at;
  duration = run_duration clock run.started_at run.finished_at;
}

-- A heading with the number of its runs, and their rows.
pub record Section : Type 0 where
  pub label : String
  pub count : ℕ
  pub rows : List Row

unfoldable pub section : Clock → Bool → Day → Section
unfolding row
section clock show_context day = record {
  label = day.label;
  count = length day.runs;
  rows = map (row clock show_context) day.runs;
}

pub data History : Type 0 where
  nothing : (message : String) → History
  days : List Section → History
  flat : List Row → History

unfoldable pub history :
    Clock
    → Calendar
    → (show_context group_by_day : Bool) (empty_message : String) → List Run
    → History
unfolding row section
history clock calendar show_context group_by_day empty_message runs =
    if eqb (length runs) 0
    then nothing empty_message
    else if group_by_day
    then days
        (map (section clock show_context) (by_day (λ r. day_label calendar r.started_at) runs))
    else flat (map (row clock show_context) runs)

-- `ActiveRunRow`: the run that is shown is the streamed one, or that of the list; `percent` is in
-- millionths.
pub record LiveRow : Type 0 where
  pub to : String
  pub kind : String
  pub name : String
  pub status : String
  pub started : String
  pub figure : String
  pub percent : ℕ
  pub indeterminate : Bool
  pub current_file : Option String

unfoldable pub file_text : String → Option String
file_text file = if truthy file then some file else none

unfoldable pub live_row_of : Clock → Run → LiveRow
unfolding row_name is_row_indeterminate file_text round
live_row_of clock live =
    let pct = display_percent (some live) in
    record {
      to = concat ("/runs/" ∷ live.id ∷ []);
      kind = kind_label live.kind;
      name = row_name live;
      status = live.status;
      started = concat (
          "started "
          ∷ fmt_relative clock live.started_at
          ∷ " · "
          ∷ run_duration clock live.started_at live.finished_at
          ∷ []);
      figure =
          if is_row_indeterminate live then "—" else concat (show (round pct 1000000) ∷ "%" ∷ []);
      percent = pct;
      indeterminate = is_row_indeterminate live;
      current_file = file_text (progress_or_none live.progress).current_file;
    }

unfoldable pub live_row : Clock → (streamed : Option Run) → Run → LiveRow
unfolding live_of live_row_of
live_row clock streamed run = live_row_of clock (live_of streamed run)

-- `ActiveRunsCard`; `streamed` is what the stream of each run has brought.
pub record Card : Type 0 where
  pub count : Option ℕ
  pub is_empty : Bool
  pub rows : List LiveRow
  pub link : Bool

unfoldable pub active_runs_card :
    Clock → (streamed : Run → Option Run) → (show_activity_link : Bool) → List Run → Card
unfolding live_row newest_first
active_runs_card clock streamed show_activity_link runs =
    let sorted = sort (newest_first clock) runs in
    let is_empty = eqb (length sorted) 0 in
    record {
      count = if is_empty then none else some (length sorted);
      is_empty = is_empty;
      rows = map (λ r. live_row clock (streamed r) r) sorted;
      link = show_activity_link && not is_empty;
    }

-- ===== src/History.antt =====
-- Runs in lists (ui/src/components/run-history.jsx, run-strip.jsx, log-panel.jsx and job-card.jsx):
-- what a run stored, its day, the strip of a job's backups, the log's filter and the card's texts.
pub mod Laws
pub mod Log
pub mod Rows
use restic_golang.Base.{
  ℕ, ◌-◌, String, Bool, true, false, not, ◌&&◌, ◌||◌, Option, none, some, List, [], ◌∷◌, ◌++◌,
  if◌then◌else◌, ◌==◌, eqb, length, take, replicate, reverse, map, keep, concat, join, or_text,
}
use restic_golang.Format.{Clock, fmt_bytes, fmt_relative, short_id}
use restic_golang.Live.{Line}
use restic_golang.Runs.{
  Run, Summary, Table, Progress, lookup, status_fill, is_active, status_label, display_percent,
}
use restic_golang.Schedule.{Schedule, describe_schedule_title}
use restic_golang.Speed.{speed_summary}

abbrev pub status_tone : Table
status_tone =
    ("starting", "brand")
    ∷ ("running", "brand")
    ∷ ("success", "success")
    ∷ ("success_warnings", "warning")
    ∷ ("failed", "destructive")
    ∷ ("interrupted", "destructive")
    ∷ ("canceled", "neutral")
    ∷ []

-- `parts.join(" · ") || null`
unfoldable pub some_text : String → Option String
some_text s = if s == "" then none else some s

unfoldable pub added : ℕ → List String
added n = if eqb n 0 then [] else concat (fmt_bytes n ∷ " added" ∷ []) ∷ []

unfoldable pub snapshot_part : String → List String
snapshot_part id = if id == "" then [] else concat ("snapshot " ∷ short_id id ∷ []) ∷ []

unfoldable pub summary_text : String → Summary → Option String
unfolding some_text added snapshot_part
summary_text kind s =
    if kind == "speedtest"
    then speed_summary s.speed
    else if kind == "restore" || kind == "download"
    then some (concat (fmt_bytes s.bytes_restored ∷ " restored" ∷ []))
    else some_text (join " · " (added s.data_added ++ snapshot_part s.snapshot_id))

unfoldable pub stored_summary : Run → Option String
unfolding summary_text
stored_summary run = elim run.summary [ none ↦ none | some s ↦ summary_text run.kind s ]

-- `byDay`: the label is a parameter, so that the grouping does not depend on the calendar.
pub record Day : Type 0 where
  pub label : String
  pub runs : List Run

-- The run joins the last group, or opens one.
unfoldable pub add_run : (Run → String) → List Day → Run → List Day
add_run label [] run = record { label = label run; runs = run ∷ [] } ∷ []
add_run label (g ∷ []) run =
    if g.label == label run
    then record g { runs = g.runs ++ run ∷ [] } ∷ []
    else g ∷ record { label = label run; runs = run ∷ [] } ∷ []
add_run label (g ∷ h ∷ gs) run = g ∷ add_run label (h ∷ gs) run

unfoldable pub by_day_from : (Run → String) → List Day → List Run → List Day
unfolding add_run
by_day_from label groups [] = groups
by_day_from label groups (run ∷ runs) = by_day_from label (add_run label groups run) runs

unfoldable pub by_day : (Run → String) → List Run → List Day
unfolding by_day_from
by_day label runs = by_day_from label [] runs

-- `dayLabel` of a date: the browser's calendar tells the whole days from it to today and its name;
-- a day of the future has no number.
pub record Calendar : Type 0 where
  pub days_ago : String → Option (Option ℕ)
  pub date_name : String → String

unfoldable pub day_name : Option ℕ → String → String
day_name none name = name
day_name (some n) name = if eqb n 0 then "Today" else if eqb n 1 then "Yesterday" else name

unfoldable pub day_label : Calendar → String → String
unfolding day_name
day_label calendar iso = elim (calendar.days_ago iso) [
  | none ↦ "Earlier"
  | some days ↦ day_name days (calendar.date_name iso)
]

-- `RunStrip`: the bars from the left, `none` for an empty slot.
unfoldable pub strip_runs : ℕ → List Run → List Run
strip_runs slots runs = reverse (take slots runs)

unfoldable pub strip : ℕ → List Run → List (Option Run)
unfolding strip_runs
strip slots runs =
    replicate (slots - length (strip_runs slots runs)) none ++ map some (strip_runs slots runs)

unfoldable pub bar_class : Run → String
bar_class run = or_text (lookup run.status status_fill) "bg-muted-foreground/45"

-- `LogPanel`
unfoldable pub is_problem : Line → Bool
is_problem l = l.level == "error" || l.level == "warn"

unfoldable pub shown_lines : String → List Line → List Line
unfolding is_problem
shown_lines filter lines = if filter == "problems" then keep is_problem lines else lines

unfoldable pub problem_count : List Line → ℕ
unfolding is_problem
problem_count lines = length (keep is_problem lines)

-- `LogPanel`'s copy: the lines shown, joined.
unfoldable pub copied_text : String → List Line → String
unfolding shown_lines
copied_text filter lines = join "\n" (map (λ l. l.message) (shown_lines filter lines))

-- `lastRunSummary` of a run that is there.
unfoldable pub last_run_summary : Run → Option String
last_run_summary run = if not (run.error == "") then some run.error else elim run.summary [
  | none ↦ none
  | some s ↦ some (
      if eqb s.data_added 0
      then "nothing changed"
      else concat (fmt_bytes s.data_added ∷ " added" ∷ []))
]

-- `scheduleText`, of the job's schedule, its state and its next date.
unfoldable pub schedule_title : Clock → Schedule → String → String → String
schedule_title clock s state next_due_at =
    let title = describe_schedule_title (some s) in
    if not s.enabled
    then "Manual only"
    else if state == "overdue"
    then concat ("Overdue · " ∷ title ∷ [])
    else if next_due_at == ""
    then title
    else concat (title ∷ " · next " ∷ fmt_relative clock next_due_at ∷ [])

unfoldable pub schedule_text : Clock → Option Schedule → String → String → String
unfolding schedule_title
schedule_text clock none state next_due_at = "Manual only"
schedule_text clock (some s) state next_due_at = schedule_title clock s state next_due_at

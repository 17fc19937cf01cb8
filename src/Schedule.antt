-- ===== src/Schedule.antt =====
-- Automatic-backup schedules of a job (ui/src/lib/schedule.js).
pub mod Editor
pub mod Laws
use restic_golang.Base.{
  ℕ, suc, String, Bool, true, false, not, ◌&&◌, Option, none, some, List, [], ◌∷◌, ◌++◌, map,
  if◌then◌else◌, ◌==◌, ltb, leb, concat, join, or_text, trim, capitalize, keep, sort, compare,
  Ordering, length, head_or, drop,
}

-- The API's JobSchedule; fields that a kind does not use are "" or []. A weekday is a natural
-- number: the form offers no others, and the server sends none.
pub record Schedule : Type 0 where
  pub enabled : Bool
  pub kind : String
  pub every : String
  pub at : String
  pub weekdays : List ℕ

pub record Weekday : Type 0 where
  pub value : ℕ
  pub label : String
  pub short : String

abbrev weekday : ℕ → String → String → Weekday
weekday value label short = record { value = value; label = label; short = short }

abbrev pub weekdays : List Weekday
weekdays =
    weekday 0 "Sun" "S"
    ∷ weekday 1 "Mon" "M"
    ∷ weekday 2 "Tue" "T"
    ∷ weekday 3 "Wed" "W"
    ∷ weekday 4 "Thu" "T"
    ∷ weekday 5 "Fri" "F"
    ∷ weekday 6 "Sat" "S"
    ∷ []

-- `names[d]`
unfoldable pub weekday_name : ℕ → String
weekday_name d = head_or "" (drop d (map (λ w. w.label) weekdays))

-- `describeSchedule` of a schedule that is there.
unfoldable pub describe_schedule : Schedule → String
unfolding weekday_name trim
describe_schedule s =
    if s.kind == "hourly"
    then "hourly"
    else if s.kind == "every"
    then concat ("every " ∷ trim s.every ∷ [])
    else if s.kind == "daily"
    then concat ("daily at " ∷ trim s.at ∷ [])
    else if s.kind == "weekly"
    then concat (
        "weekly on "
        ∷ join ", " (map weekday_name (keep (λ d. ltb d (length weekdays)) s.weekdays))
        ∷ " at "
        ∷ trim s.at
        ∷ [])
    else s.kind

unfoldable pub describe_schedule_title : Option Schedule → String
unfolding describe_schedule
describe_schedule_title none = ""
describe_schedule_title (some s) =
    let d = describe_schedule s in if d == "" then "" else capitalize d

abbrev pub default_form : Schedule
default_form = record {
  enabled = false;
  kind = "daily";
  every = "6h";
  at = "02:00";
  weekdays = 1 ∷ [];
}

-- `Array.isArray(w) && w.length ? [...w] : [1]`
unfoldable pub weekdays_or_monday : List ℕ → List ℕ
weekdays_or_monday [] = 1 ∷ []
weekdays_or_monday (d ∷ ds) = d ∷ ds

-- `scheduleFormFromJob`, of the job's `schedule`.
unfoldable pub schedule_form_from_job : Option Schedule → Schedule
unfolding weekdays_or_monday
schedule_form_from_job none = default_form
schedule_form_from_job (some s) = record {
  enabled = s.enabled;
  kind = or_text s.kind "daily";
  every = or_text s.every "6h";
  at = or_text s.at "02:00";
  weekdays = weekdays_or_monday s.weekdays;
}

-- `(a, b) => a - b`
unfoldable pub by_number : ℕ → ℕ → Ordering
by_number a b = compare a b

-- `[...weekdays].filter((d) => d >= 0 && d <= 6).sort(...)`
unfoldable pub sent_weekdays : List ℕ → List ℕ
unfolding by_number sort
sent_weekdays ds = sort by_number (keep (λ d. leb d 6) ds)

-- `base` of the payload: only `enabled` and `kind` are sent.
abbrev pub base : Bool → String → Schedule
base enabled kind = record { enabled = enabled; kind = kind; every = ""; at = ""; weekdays = [] }

-- `schedulePayload` of a form that is there.
unfoldable pub schedule_payload : Schedule → Schedule
unfolding sent_weekdays trim
schedule_payload form =
    let kind = or_text form.kind "daily" in
    let b = base form.enabled kind in
    if kind == "every"
    then record b { every = trim (or_text form.every "6h") }
    else if kind == "daily"
    then record b { at = trim (or_text form.at "02:00") }
    else if kind == "weekly"
    then record b { at = trim (or_text form.at "02:00"); weekdays = sent_weekdays form.weekdays }
    else b

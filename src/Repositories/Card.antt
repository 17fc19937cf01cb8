-- ===== src/Repositories/Card.antt =====
-- The card of a repository (`RepositoryCard` of ui/src/routes/repositories.jsx): its texts.
use restic_golang.Base.{
  ℕ, String, Bool, false, Option, none, some, [], ◌∷◌, if◌then◌else◌, ◌==◌, concat, show, or_text,
}
use restic_golang.Format.{Clock, fmt_relative, fmt_time, repo_location}
use restic_golang.RepoSettings.{Check, check_outcome, describe_check}
use restic_golang.Repositories.Usage.{Usage}
use restic_golang.Runs.{Run, status_label}
use restic_golang.Speed.{fmt_speed}

unfoldable pub backend_label : (backend_type : String) → String
backend_label t = if t == "S3" then "S3-compatible" else "Local directory"

unfoldable pub location : (backend_type endpoint bucket local_path : String) → String
unfolding repo_location
location t endpoint bucket local_path = or_text (repo_location t endpoint bucket local_path) "—"

unfoldable pub jobs_text : Option Usage → String
jobs_text none = "—"
jobs_text (some u) = show u.jobs

-- A value, and the text of its tooltip.
pub record Fact : Type 0 where
  pub value : String
  pub tooltip : String

abbrev plain : String → Fact
plain v = record { value = v; tooltip = "" }

unfoldable pub latest_of : Option Usage → Option Run
latest_of none = none
latest_of (some u) = u.latest

unfoldable pub latest_fact : Clock → Option Run → Fact
unfolding fmt_relative fmt_time status_label
latest_fact clock none = plain "Never"
latest_fact clock (some run) = record {
  value = fmt_relative clock run.started_at;
  tooltip = concat (status_label run.status ∷ " · " ∷ fmt_time clock run.started_at ∷ []);
}

-- What the card reads of the last speed test and of the last check.
pub record SpeedTest : Type 0 where
  pub upload : ℕ
  pub download : ℕ
  pub tested_at : String
  pub score : ℕ
  pub rating : String

pub record LastCheck : Type 0 where
  pub status : String
  pub started_at : String
  pub finished_at : String

unfoldable pub speed_score : SpeedTest → String
speed_score t = concat (show t.score ∷ " " ∷ t.rating ∷ [])

unfoldable pub speed_fact : Clock → Option SpeedTest → Fact
unfolding fmt_relative fmt_speed speed_score
speed_fact clock none = plain "Not tested"
speed_fact clock (some t) = record {
  value = speed_score t;
  tooltip = concat (
      "Up "
      ∷ fmt_speed t.upload
      ∷ " · down "
      ∷ fmt_speed t.download
      ∷ " · tested "
      ∷ fmt_relative clock t.tested_at
      ∷ []);
}

-- `repo.checkSchedule?.enabled`
unfoldable pub is_scheduled : Option Check → Bool
is_scheduled none = false
is_scheduled (some c) = c.enabled

unfoldable pub schedule_note : Option Check → String
unfolding describe_check
schedule_note none = " · not scheduled"
schedule_note (some c) =
    if c.enabled then concat (" · " ∷ describe_check c ∷ []) else " · not scheduled"

unfoldable pub check_fact : Clock → Option Check → Option LastCheck → Fact
unfolding is_scheduled schedule_note fmt_relative check_outcome
check_fact clock schedule none = plain (if is_scheduled schedule then "Scheduled" else "Never")
check_fact clock schedule (some c) = record {
  value = fmt_relative clock (or_text c.finished_at c.started_at);
  tooltip = concat (check_outcome c.status ∷ schedule_note schedule ∷ []);
}

unfoldable pub is_check_bad : Option LastCheck → Bool
is_check_bad none = false
is_check_bad (some c) = c.status == "failed"

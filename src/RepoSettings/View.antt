-- ===== src/RepoSettings/View.antt =====
-- What the two cards of ui/src/components/repo-settings.jsx show: the last check, the switch, the
-- next check, and the measured speeds.
use restic_golang.Base.{
  String, Bool, ◌&&◌, Option, none, some, [], ◌∷◌, if◌then◌else◌, ◌==◌, concat, or_text, truthy,
}
use restic_golang.Format.{Clock, fmt_relative}
use restic_golang.RepoSettings.{Check, Card, check_outcome, describe_check, payload}
use restic_golang.Runs.{Speed}
use restic_golang.Speed.{fmt_speed}

-- `repo.lastCheck`
pub record LastCheck : Type 0 where
  pub run_id : String
  pub status : String
  pub started_at : String
  pub finished_at : String

-- The line of the last check, whether it is red, and where its log is.
pub data LastLine : Type 0 where
  never : LastLine
  last : (text : String) (red : Bool) (log : String) → LastLine

unfoldable pub last_line : Clock → Option LastCheck → LastLine
unfolding check_outcome
last_line clock none = never
last_line clock (some c) =
    last
      (concat (
        "Last check: "
        ∷ check_outcome c.status
        ∷ " · "
        ∷ fmt_relative clock (or_text c.finished_at c.started_at)
        ∷ []))
      (c.status == "failed") (concat ("/runs/" ∷ c.run_id ∷ []))

unfoldable pub switch_text : Card → String
unfolding describe_check payload
switch_text card =
    if card.form.enabled
    then describe_check (payload card.form)
    else "Off: check by hand from Maintenance"

unfoldable pub next_text : Clock → Option Check → (next_check_at : String) → Option String
next_text clock none next_check_at = none
next_text clock (some c) next_check_at =
    if c.enabled && truthy next_check_at
    then some (concat ("Next check " ∷ fmt_relative clock next_check_at ∷ []))
    else none

-- A change of a field: `set`.
pub data Input : Type 0 where
  set_enabled : Bool → Input
  set_every set_at set_read_data : String → Input

unfoldable pub set : Check → Input → Check
set form (set_enabled enabled) = record form { enabled = enabled }
set form (set_every every) = record form { every = every }
set form (set_at at) = record form { at = at }
set form (set_read_data read_data) = record form { read_data = read_data }

unfoldable pub button_text : (busy : Bool) → String
button_text busy = if busy then "Saving…" else "Save"

-- The card of the speed limit: the last speed test.
unfoldable pub tested_text : Option Speed → Option String
unfolding fmt_speed
tested_text none = none
tested_text (some sp) = some (
    concat (
      "The last speed test measured up "
      ∷ fmt_speed sp.upload
      ∷ " and down "
      ∷ fmt_speed sp.download
      ∷ ". The speed test itself ignores these limits."
      ∷ []))

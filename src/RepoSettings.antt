-- ===== src/RepoSettings.antt =====
-- The automatic check of a repository (ui/src/components/repo-settings.jsx): the texts, the form and
-- what is sent.
pub mod Laws
pub mod View
use restic_golang.Api.{Response, error_of}
use restic_golang.Base.{
  String, Bool, true, false, ◌||◌, Option, none, some, List, [], ◌∷◌, if◌then◌else◌, ◌==◌, concat,
  or_text,
}
use restic_golang.Runs.{Table, lookup}

-- The API's check schedule, and the state of the form.
pub record Check : Type 0 where
  pub enabled : Bool
  pub every : String
  pub at : String
  pub read_data : String

abbrev pub every_label : Table
every_label = ("daily", "Daily") ∷ ("weekly", "Weekly") ∷ ("monthly", "Monthly") ∷ []

abbrev pub read_data_options : Table
read_data_options =
    ("none", "No: structure only (quick)")
    ∷ ("1%", "Yes: 1% of the data")
    ∷ ("5%", "Yes: 5% of the data")
    ∷ ("10%", "Yes: 10% of the data")
    ∷ []

-- `describeCheck` of a schedule that is there.
unfoldable pub describe_check : Check → String
unfolding lookup
describe_check c =
    let read =
      if c.read_data == "" then "" else concat (", reading " ∷ c.read_data ∷ " of the data" ∷ []) in
    if c.enabled
    then concat (or_text (lookup c.every every_label) c.every ∷ " at " ∷ c.at ∷ read ∷ [])
    else ""

-- `checkOutcome` of a check's status.
unfoldable pub check_outcome : String → String
check_outcome status =
    if status == "success" || status == "success_warnings"
    then "No errors"
    else if status == "failed"
    then "Found errors"
    else "Did not finish"

unfoldable pub check_form : Option Check → Check
check_form none = record { enabled = false; every = "weekly"; at = "04:00"; read_data = "none" }
check_form (some c) = record {
  enabled = c.enabled;
  every = or_text c.every "weekly";
  at = or_text c.at "04:00";
  read_data = or_text c.read_data "none";
}

unfoldable pub payload : Check → Check
payload form = record form { read_data = if form.read_data == "none" then "" else form.read_data }

pub record Card : Type 0 where
  pub form : Check
  pub busy : Bool
  pub error : String

pub data Effect : Type 0 where
  set_check_schedule : Check → Effect
  toast_success : String → Effect
  on_saved : Effect

-- The effect on `[repo]`.
unfoldable pub on_repo : Option Check → Card → Card
unfolding check_form
on_repo c card = record card { form = check_form c; error = "" }

-- `save` up to its `await`, and behind it.
unfoldable pub save : Card → Card × List Effect
unfolding payload
save card = (record card { busy = true; error = "" }, set_check_schedule (payload card.form) ∷ [])

unfoldable pub saved : Check → Response → Card → Card × List Effect
unfolding describe_check
saved sent res card =
    if res.ok
    then (
      record card { busy = false },
      toast_success (
            if sent.enabled
            then concat ("Automatic check: " ∷ describe_check sent ∷ "." ∷ [])
            else "Automatic check turned off.")
          ∷ on_saved
          ∷ [],
    )
    else (
      record card { busy = false; error = error_of res "Could not save the check schedule." },
      [],
    )

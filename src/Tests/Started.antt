-- ===== src/Tests/Started.antt =====
-- Starting, asking and restoring at concrete inputs.
use restic_golang.Api.{Response, empty_body}
use restic_golang.Base.{
  ◌≤◌, ◌≡◌, ◌≢◌, ◌⊎◌, String, Bool, refl, true, false, none, some, [], ◌∷◌, List, All, present,
}
use restic_golang.Browser.{Browser, browse, start_restore}
use restic_golang.Browser.Laws.{IsRight, sent_to, start_restore_lem}
use restic_golang.Confirm
use restic_golang.Confirm.Laws.{IsValid, steps-IsValid, step-lost}
use restic_golang.DockerStatus
use restic_golang.DockerStatus.Laws.{steps-sent}
use restic_golang.RepoSettings.{Check}
use restic_golang.Restore.Database
use restic_golang.Restore.Laws.{IsGuarded, inputs, start-IsGuarded}
use restic_golang.StartRun.{handle_start_response}
use restic_golang.StartRun.Laws.{Leads, Explains, handle_start_response_lem}

abbrev accepted : Response
accepted = record {
  status = 202;
  ok = true;
  body = some (record empty_body { run_id = "r7"; run_kind = "backup" });
}

handle_start_response_lem_example :
    Leads accepted true (handle_start_response accepted "Could not start." true)
    ⊎ Explains accepted (handle_start_response accepted "Could not start." true)
handle_start_response_lem_example = handle_start_response_lem accepted "Could not start." true

abbrev nothing_given : Confirm.Given
nothing_given = record {
  title = none;
  description = none;
  confirm_label = none;
  cancel_label = none;
  destructive = some true;
}

abbrev presses : List Confirm.Event
presses =
    Confirm.ask nothing_given
    ∷ Confirm.press_action
    ∷ Confirm.open_change false
    ∷ Confirm.ask nothing_given
    ∷ []

steps-IsValid_example : IsValid (Confirm.steps Confirm.initial presses)
steps-IsValid_example = steps-IsValid presses

step-lost_example :
    All
      (λ a. a.0 ≢ 0)
      (Confirm.steps
        (Confirm.step
          (Confirm.step Confirm.initial (Confirm.ask nothing_given))
          (Confirm.ask nothing_given))
        (Confirm.press_action ∷ [])).answers
unfolding Confirm.step
step-lost_example =
    step-lost (Confirm.step Confirm.initial (Confirm.ask nothing_given)) 0 nothing_given
      (Confirm.press_action ∷ []) (record { once = tt; made_before = tt; is_open = (refl, tt) })
      refl

abbrev mounts : List DockerStatus.Event
mounts =
    DockerStatus.mounted
    ∷ DockerStatus.mounted
    ∷ DockerStatus.answer none
    ∷ DockerStatus.mounted
    ∷ []

steps-sent_example :
    ((DockerStatus.steps DockerStatus.initial mounts).sent ≤ 1)
    × (present (DockerStatus.steps DockerStatus.initial mounts).cached ≡ true
        → (DockerStatus.steps DockerStatus.initial mounts).sent ≡ 1)
steps-sent_example = steps-sent mounts

abbrev a_check : Check
a_check = record { enabled = false; every = "monthly"; at = "03:30"; read_data = "none" }

abbrev browser : Browser
browser = record {
  path = "/data";
  loading = false;
  entries = [];
  error = "";
  selected = "/data/a" ∷ "/data/b" ∷ [];
  screen = browse;
  in_place = true;
  target = "";
  stop_site = true;
  busy = false;
  slow = false;
}

start_restore_lem_example :
    (target : String) × (stop : Bool) × IsRight ("/data" ∷ []) ("web" ∷ []) browser target stop
    × ((start_restore ("/data" ∷ []) ("web" ∷ []) browser).1 ≡ sent_to browser target stop)
start_restore_lem_example = start_restore_lem ("/data" ∷ []) ("web" ∷ []) browser

abbrev sources : List Database.Source
sources =
    record { id = "d1"; engine = "mysql"; database = "shop" }
    ∷ record { id = "d2"; engine = "postgres"; database = "shop" }
    ∷ []

abbrev dialog : Database.Dialog
dialog = record {
  sources = none;
  source_id = "";
  mode = "replace";
  into = "";
  safety = true;
  typed = "";
  busy = false;
}

start-IsGuarded_example :
    IsGuarded "postgres" sources
      (inputs
        (Database.type_name "shop" ∷ [])
        (Database.listed "postgres" "" "shop" sources dialog))
      (Database.start (
        inputs
          (Database.type_name "shop" ∷ [])
          (Database.listed "postgres" "" "shop" sources dialog))).1
start-IsGuarded_example =
    start-IsGuarded "postgres" "" "shop" sources dialog (Database.type_name "shop" ∷ [])

-- ===== src/Tests/Dialogs.antt =====
-- The dialogs and forms at concrete inputs.
use restic_golang.Api.Endpoints.{auth_setup}
use restic_golang.AuthForms.{
  SetupForm, send, submit_setup, login_page, follow, min_len, text_length,
}
use restic_golang.AuthForms.Laws.{home, follow-home, submit_setup_lem}
use restic_golang.Base.{
  ◌≡◌, ◌≤◌, ◌⊎◌, refl, true, false, some, List, [], ◌∷◌, All, any, trim, truthy, ◌==◌,
}
use restic_golang.JobDetail.{Dialog, Event, open_dialog, press, tick}
use restic_golang.JobDetail
use restic_golang.JobDetail.Laws.{IsPlain, steps-IsPlain}
use restic_golang.Jobs.{Lists, Input, set_name, opened, inputs, source_id, submit, submit_disabled}
use restic_golang.Jobs
use restic_golang.Jobs.Laws.{sources, create_call, submit-IsComplete}
use restic_golang.Jobs.Opening.{Props, Mounted, render}
use restic_golang.ListPage
use restic_golang.Repositories.{Repository, empty_form, password, type_all, body}
use restic_golang.Repositories
use restic_golang.Repositories.Secrets.{last_password, last_secret_key, body-secrets}
use restic_golang.Session.{Auth}

abbrev signed_in : Auth
signed_in = record { loading = false; setup_required = false; authenticated = true }

follow-home_example : follow 2 signed_in login_page ≡ some (home signed_in)
follow-home_example = follow-home 0 signed_in login_page refl

abbrev a_setup : SetupForm
a_setup = record {
  token = " 0123 ";
  password = "a-long-password";
  confirm = "a-long-password";
  busy = false;
  error = "";
}

submit_setup_lem_example :
    (((submit_setup a_setup).1 ≡ []) × (truthy (submit_setup a_setup).0.error ≡ true))
    ⊎ ((a_setup.password ≡ a_setup.confirm)
        × (min_len ≤ text_length "a-long-password")
        × (truthy (trim " 0123 ") ≡ true)
        × ((submit_setup a_setup).1 ≡ send (auth_setup "a-long-password" (trim " 0123 ")) ∷ []))
submit_setup_lem_example = submit_setup_lem a_setup

abbrev was_ticked : Dialog
was_ticked = record { is_open = false; forget_snapshots = true; busy = false; sent = [] }

abbrev presses : List Event
presses = open_dialog ∷ press ∷ tick false ∷ []

steps-IsPlain_example : All (IsPlain "j1") (JobDetail.steps "j1" "Nightly" was_ticked presses).sent
steps-IsPlain_example = steps-IsPlain "j1" "Nightly" was_ticked presses refl refl tt

abbrev lists : Lists
lists = record { jobs = []; folders = "f1" ∷ []; databases = []; repositories = "r1" ∷ [] }

abbrev blank_dialog : Jobs.Dialog
blank_dialog = record {
  name = "";
  kind = "folder";
  folder_id = "";
  database_id = "";
  repository_id = "";
  auto_daily = false;
  busy = false;
  error = "";
}

abbrev typed : List Input
typed = set_name "Nightly" ∷ []

abbrev now : Jobs.Dialog
now = inputs (opened "all" lists blank_dialog) typed

now-enabled : submit_disabled now ≡ false
unfolding submit_disabled inputs opened trim
now-enabled = refl

submit-IsComplete_example :
    ((submit now).1 ≡ ListPage.send (create_call now) ∷ [])
    × (truthy (trim now.name) ≡ true)
    × (any (λ i. i == now.repository_id) lists.repositories ≡ true)
    × (any (λ i. i == source_id now) (sources lists now) ≡ true)
submit-IsComplete_example = submit-IsComplete "all" lists blank_dialog typed (tt, tt) now-enabled

abbrev first_load : Props
first_load = record { is_open = true; prefer = "all"; lists = lists; load = 1 }

abbrev second_load : Props
second_load = record first_load { load = 2 }

abbrev typed_in : Mounted
typed_in = record { props = first_load; dialog = now }

emptied : (render second_load typed_in).dialog.name ≡ ""
unfolding render
emptied = refl

abbrev stored : Repository
stored = record { id = "r1"; form = record empty_form { name = "local"; password = "old" } }

abbrev blank_form : Repositories.Dialog
blank_form = record { form = empty_form; busy = false; error = "" }

body-secrets_example :
    ((body (
        type_all
          (Repositories.opened true (some stored) blank_form).form
          ((password, "new") ∷ []))).password
      ≡ last_password "" ((password, "new") ∷ []))
    × ((body (
          type_all
            (Repositories.opened true (some stored) blank_form).form
            ((password, "new") ∷ []))).secret_key
        ≡ last_secret_key "" ((password, "new") ∷ []))
body-secrets_example = body-secrets stored blank_form ((password, "new") ∷ [])

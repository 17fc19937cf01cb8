-- ===== src/QuickBackup.antt =====
-- `QuickBackupDialog` of ui/src/routes/coolify.jsx: a job for what was found on the host, and its
-- first run. Each step is the part of `submit` between two answers of the server.
use restic_golang.Api.{Response, error_of}
use restic_golang.Base.{
  String, Bool, true, false, ◌||◌, Option, none, some, List, [], ◌∷◌, if◌then◌else◌, ◌==◌, concat,
  trim, head_or, or_text, not, truthy,
}

pub record Target : Type 0 where
  pub kind : String
  pub path : String
  pub container : String
  pub database : String
  pub default_name : String

pub record Dialog : Type 0 where
  pub name : String
  pub repository_id : String
  pub daily : Bool
  pub run_now : Bool
  pub busy : Bool
  pub error : String

-- The body of the request: `schedule` is there where it is daily at 02:00.
pub record NewJob : Type 0 where
  pub target : Target
  pub name : String
  pub repository_id : String
  pub schedule : Option String

pub data Effect : Type 0 where
  create_job : NewJob → Effect
  run_job : String → Effect
  toast_created : (job_name open_page : String) → Effect
  start_response : (fallback : String) → Effect
  close on_created : Effect

unfoldable pub is_coolify_kind : String → Bool
is_coolify_kind kind = kind == "application" || (kind == "service" || kind == "database")

unfoldable pub primary_name : List String → String → String
primary_name domains name = or_text (head_or "" domains) name

-- The effect on opening, of the ids of the repositories.
unfoldable pub opened : Target → List String → Dialog → Dialog
opened target repositories d = record d {
  name = target.default_name;
  repository_id = head_or "" repositories;
  daily = true;
  run_now = true;
  error = "";
}

unfoldable pub submit : Target → Dialog → Dialog × List Effect
submit target d = (
  record d { busy = true },
  create_job (record {
    target = target;
    name = trim d.name;
    repository_id = d.repository_id;
    schedule = if d.daily then some "02:00" else none;
  })
      ∷ [],
)

-- Behind the request, by the id and the name of the job that was created.
unfoldable pub created : Response → (job_id job_name : String) → Dialog → Dialog × List Effect
created res job_id job_name d =
    if res.ok
    then (if d.run_now then (d, run_job job_id ∷ []) else (
      record d { busy = false },
      toast_created job_name (concat ("/jobs/" ∷ job_id ∷ [])) ∷ close ∷ on_created ∷ [],
    ))
    else (record d { busy = false; error = error_of res "Could not create the job." }, [])

-- Behind the first run's start.
unfoldable pub first_run : Dialog → Dialog × List Effect
first_run d = (
  record d { busy = false },
  start_response "The job was created, but its first backup could not start."
      ∷ close
      ∷ on_created
      ∷ [],
)

unfoldable pub submit_disabled : Dialog → Bool
submit_disabled d = d.busy || (not (truthy (trim d.name)) || not (truthy d.repository_id))

-- Without a repository the dialog asks for one in place of its inputs.
unfoldable pub needs_repository : List String → Bool
needs_repository [] = true
needs_repository (_ ∷ _) = false

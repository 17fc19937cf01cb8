-- ===== src/Jobs.antt =====
-- The page of jobs (ui/src/routes/jobs.jsx): the dialog that creates a job, the filter by source, and
-- what the page shows.
pub mod Laws
pub mod Opening
use restic_golang.Api.{Request, Response, error_of}
use restic_golang.Api.Endpoints.{create, jobs_call}
use restic_golang.Api.Json.{Value, Fields, bool, str, obj, end, field}
use restic_golang.Base.{
  ℕ, zero, suc, String, Bool, true, false, not, ◌||◌, ◌&&◌, Option, none, some, List, [], ◌∷◌, ◌++◌,
  if◌then◌else◌, ◌==◌, eqb, ltb, concat, trim, truthy, keep, length, any, map, head_or,
}
use restic_golang.ListPage.{
  Effect, send, toast_success, close_dialog, reload_list, Loaded, failed, loaded, listed,
}

-- What the dialog and the filter read of the lists.
pub record Source : Type 0 where
  pub id : String
  pub name : String

pub record Job : Type 0 where
  pub id : String
  pub source_kind : String

-- The loader's result: four lists.
pub record Lists : Type 0 where
  pub jobs : List Job
  pub folders : List String
  pub databases : List String
  pub repositories : List String

-- It fails with the list of jobs alone.
unfoldable pub load_all :
    (jobs_res : Response)
    → Option (List Job)
    → (folders databases repositories : Option (List String)) → Loaded Lists
unfolding listed
load_all jobs_res jobs folders databases repositories =
    if jobs_res.ok
    then loaded (record {
      jobs = listed jobs;
      folders = listed folders;
      databases = listed databases;
      repositories = listed repositories;
    })
    else failed (error_of jobs_res "Could not load jobs.")

-- `NewJobDialog`
pub record Dialog : Type 0 where
  pub name : String
  pub kind : String
  pub folder_id : String
  pub database_id : String
  pub repository_id : String
  pub auto_daily : Bool
  pub busy : Bool
  pub error : String

abbrev pub is_empty : List String → Bool
is_empty [] = true
is_empty (_ ∷ _) = false

-- `preferKind === "database" ? databases.length > 0 : folders.length === 0`
unfoldable pub wants_database : (prefer : String) → Lists → Bool
wants_database prefer l =
    if prefer == "database" then not (is_empty l.databases) else is_empty l.folders

-- The body of the effect, of an open dialog.
unfoldable pub opened : (prefer : String) → Lists → Dialog → Dialog
unfolding wants_database
opened prefer l d = record d {
  name = "";
  error = "";
  auto_daily = false;
  kind = if wants_database prefer l && not (is_empty l.databases) then "database" else "folder";
  folder_id = head_or "" l.folders;
  database_id = head_or "" l.databases;
  repository_id = head_or "" l.repositories;
}

-- The controls. The kind is chosen where there are databases; an id is one of the list's.
pub data Input : Type 0 where
  set_name set_kind set_folder set_database set_repository : String → Input
  set_auto_daily : Bool → Input

unfoldable pub input : Dialog → Input → Dialog
input d (set_name v) = record d { name = v }
input d (set_kind v) = record d { kind = v }
input d (set_folder v) = record d { folder_id = v }
input d (set_database v) = record d { database_id = v }
input d (set_repository v) = record d { repository_id = v }
input d (set_auto_daily v) = record d { auto_daily = v }

unfoldable pub inputs : Dialog → List Input → Dialog
unfolding input
inputs d [] = d
inputs d (i ∷ is) = inputs (input d i) is

unfoldable pub source_id : Dialog → String
source_id d = if d.kind == "database" then d.database_id else d.folder_id

-- The body of the request: the key of the source, and the schedule where it is wanted.
unfoldable pub source_field : Dialog → Fields → Fields
source_field d rest =
    if d.kind == "database"
    then field "databaseId" (str d.database_id) rest
    else field "folderId" (str d.folder_id) rest

abbrev pub daily : Value
daily =
    obj (field "enabled" (bool true) (field "kind" (str "daily") (field "at" (str "02:00") end)))

unfoldable pub schedule_field : Dialog → Fields
schedule_field d = if d.auto_daily then field "schedule" daily end else end

unfoldable pub body : Dialog → Value
unfolding source_field schedule_field
body d = obj (
    field "name" (str (trim d.name))
      (field "repositoryId" (str d.repository_id) (source_field d (schedule_field d))))

unfoldable pub submit : Dialog → Dialog × List Effect
unfolding body jobs_call
submit d = (record d { busy = true }, send (jobs_call (create (body d))) ∷ [])

-- Behind the answer, by the name of the job that was created.
unfoldable pub saved : (created : String) → Response → Dialog → Dialog × List Effect
saved created res d =
    if res.ok
    then (
      record d { busy = false },
      toast_success (concat ("Job “" ∷ created ∷ "” created." ∷ []))
          ∷ close_dialog
          ∷ reload_list
          ∷ [],
    )
    else (record d { busy = false; error = error_of res "Could not create the job." }, [])

unfoldable pub submit_disabled : Dialog → Bool
unfolding source_id
submit_disabled d =
    d.busy
    || (not (truthy (trim d.name)) || (not (truthy (source_id d)) || not (truthy d.repository_id)))

-- The filter, whose value is in the address.
abbrev pub source_filters : List Source
source_filters =
    record { id = "all"; name = "All jobs" }
    ∷ record { id = "folder"; name = "Files" }
    ∷ record { id = "database"; name = "Databases" }
    ∷ []

unfoldable pub source_of : (param : String) → String
source_of param = if any (λ (f : Source). f.id == param) source_filters then param else "all"

-- `setSource`: the address's parameter, `none` where it is dropped; the page becomes 1.
unfoldable pub set_source : String → Option String × ℕ
set_source v = (if v == "all" then none else some v, 1)

unfoldable pub filtered : (source : String) → List Job → List Job
filtered source jobs =
    if source == "all" then jobs else keep (λ (j : Job). j.source_kind == source) jobs

unfoldable pub counts : (value : String) → List Job → ℕ
counts value jobs =
    if value == "all" then length jobs else length (keep (λ (j : Job). j.source_kind == value) jobs)

unfoldable pub can_create : Lists → Bool
can_create l =
    (not (is_empty l.folders) || not (is_empty l.databases)) && not (is_empty l.repositories)

-- The button of the header, `none` where there is no button, and by whether it can be pressed.
unfoldable pub header_button : Lists → Option Bool
unfolding can_create
header_button l = elim l.jobs [ [] ↦ none | _ ∷ _ ↦ some (can_create l) ]

-- The button of an empty state: it opens the dialog, or it leads to another page.
pub data Button : Type 0 where
  open_dialog : (label : String) → Button
  go_to : (label target : String) → Button

-- The text and the button without a job.
unfoldable pub no_jobs : (can_create : Bool) → String × Button
no_jobs ready =
    if ready
    then (
      "You have a source and a repository — pair them into a job and you can back up in one click.",
      open_dialog "Create a job",
    )
    else (
      "Finish setup on the Dashboard, then come back here to create a job.",
      go_to "Finish setup on the Dashboard" "/dashboard",
    )

-- `FilteredEmpty`: its title, text and button.
unfoldable pub has_source : (source : String) → Lists → Bool
has_source source l =
    if source == "database" then not (is_empty l.databases) else not (is_empty l.folders)

unfoldable pub filtered_title : (source : String) → String
filtered_title source = if source == "database" then "No database jobs yet" else "No file jobs yet"

unfoldable pub filtered_text : (has_source : Bool) (source : String) → String
filtered_text has source =
    if has
    then (if source == "database"
        then "Create a job and choose “A database” to back one up on its own schedule."
        else "Create a job and choose a folder to back it up on its own schedule.")
    else if source == "database"
    then "A database job dumps one PostgreSQL, MySQL or MariaDB database. Add the database on the Sources page first."
    else "A file job backs up one folder. Add the folder on the Sources page first."

unfoldable pub filtered_button : (source : String) → Lists → Button
unfolding has_source can_create
filtered_button source l =
    if has_source source l && can_create l
    then open_dialog "New job"
    else go_to "Open Sources" "/folders"

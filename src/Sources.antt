-- ===== src/Sources.antt =====
-- The page of backup sources (ui/src/routes/folders.jsx): the dialog of a folder, the jobs that use
-- a source, the databases, and the page itself.
pub mod Laws
use restic_golang.Api.{Request, Response, error_of}
use restic_golang.Api.Endpoints.{
  CollectionCall, create, update, remove, folders_call, databases_call,
}
use restic_golang.Api.Json.{Value, str, obj, end, field}
use restic_golang.Base.{
  String, Bool, true, false, not, ◌||◌, ◌&&◌, Option, none, some, List, [], ◌∷◌, ◌++◌,
  if◌then◌else◌, ◌==◌, concat, trim, truthy, upsert, value_at, map,
}
use restic_golang.Confirm.{Given}
use restic_golang.ListPage.{
  Effect, send, toast_success, close_dialog, reload_list, question, confirmed, removed, listed,
}
use restic_golang.Restore.{engine_label}

pub record Folder : Type 0 where
  pub id : String
  pub name : String
  pub path : String

pub record Database : Type 0 where
  pub id : String
  pub name : String
  pub engine : String
  pub database : String
  pub container : String

-- `FolderDialog`: its state, and the folder that it edits.
pub record Dialog : Type 0 where
  pub name : String
  pub path : String
  pub busy : Bool
  pub error : String

unfoldable pub name_of : Option Folder → String
name_of none = ""
name_of (some f) = f.name

unfoldable pub path_of : Option Folder → String
path_of none = ""
path_of (some f) = f.path

-- The effect on `[open, folder]`.
unfoldable pub opened : Bool → Option Folder → Dialog → Dialog
unfolding name_of path_of
opened is_open folder d =
    if is_open then record d { error = ""; name = name_of folder; path = path_of folder } else d

unfoldable pub body : Dialog → Value
body d = obj (field "name" (str (trim d.name)) (field "path" (str (trim d.path)) end))

unfoldable pub save_call : Option Folder → Dialog → Request
unfolding body folders_call
save_call none d = folders_call (create (body d))
save_call (some f) d = folders_call (update f.id (body d))

-- `submit` up to its `await`, and behind it.
unfoldable pub submit : Option Folder → Dialog → Dialog × List Effect
unfolding save_call
submit folder d = (record d { busy = true }, send (save_call folder d) ∷ [])

unfoldable pub saved_text : Option Folder → Dialog → String
saved_text none d = concat ("Folder “" ∷ trim d.name ∷ "” added." ∷ [])
saved_text (some _) d = "Folder updated."

-- `sent` is the dialog when it was submitted.
unfoldable pub saved : Option Folder → (sent : Dialog) → Response → Dialog → Dialog × List Effect
unfolding saved_text
saved folder sent res d =
    if res.ok
    then (
      record d { busy = false },
      toast_success (saved_text folder sent) ∷ close_dialog ∷ reload_list ∷ [],
    )
    else (record d { busy = false; error = error_of res "Could not save the folder." }, [])

unfoldable pub submit_disabled : Dialog → Bool
submit_disabled d = d.busy || (not (truthy (trim d.name)) || not (truthy (trim d.path)))

-- What `groupJobsBySource` reads of a job.
pub record SourceJob : Type 0 where
  pub id : String
  pub name : String
  pub folder_id : String
  pub database_id : String

-- An object of arrays, by its keys; a key that is missing has no entry.
abbrev pub Groups : Type 0
Groups = List (String × List SourceJob)

-- `(m[key] ||= []).push(j)`
unfoldable pub push : String → SourceJob → Groups → Groups
push k j m = upsert k [] (λ js. js ++ j ∷ []) m

-- `m[key] || []`
unfoldable pub group : String → Groups → List SourceJob
group k m = value_at k [] m

pub record BySource : Type 0 where
  pub folder : Groups
  pub database : Groups

unfoldable pub add_job : BySource → SourceJob → BySource
unfolding push
add_job out j =
    if truthy j.database_id
    then record out { database = push j.database_id j out.database }
    else if truthy j.folder_id
    then record out { folder = push j.folder_id j out.folder }
    else out

unfoldable pub add_jobs : BySource → List SourceJob → BySource
unfolding add_job
add_jobs out [] = out
add_jobs out (j ∷ js) = add_jobs (add_job out j) js

unfoldable pub group_jobs_by_source : List SourceJob → BySource
unfolding add_jobs
group_jobs_by_source jobs = add_jobs (record { folder = []; database = [] }) jobs

-- `loadJobs`: without the list of jobs the page works, and shows no jobs.
unfoldable pub load_jobs : Response → Option (List SourceJob) → Option BySource
unfolding group_jobs_by_source listed
load_jobs res jobs = if res.ok then some (group_jobs_by_source (listed jobs)) else none

-- The jobs of the card of a folder and of a database.
unfoldable pub jobs_of_folder : Option BySource → Folder → Option (List SourceJob)
unfolding group
jobs_of_folder none f = none
jobs_of_folder (some g) f = some (group f.id g.folder)

unfoldable pub jobs_of_database : Option BySource → Database → Option (List SourceJob)
unfolding group
jobs_of_database none db = none
jobs_of_database (some g) db = some (group db.id g.database)

-- `UsedBy`: nothing, the invitation to create a job, or the names with the pages they lead to.
pub data UsedBy : Type 0 where
  unknown unused : UsedBy
  used : List (String × String) → UsedBy

unfoldable pub job_link : SourceJob → String × String
job_link j = (j.name, concat ("/jobs/" ∷ j.id ∷ []))

unfoldable pub used_by : Option (List SourceJob) → UsedBy
unfolding job_link
used_by none = unknown
used_by (some []) = unused
used_by (some (j ∷ js)) = used (map job_link (j ∷ js))

-- `DatabaseSources`
unfoldable pub location : Database → String
location db = concat (db.database ∷ " on " ∷ db.container ∷ [])

unfoldable pub badge : Database → String
unfolding engine_label
badge db = engine_label db.engine

-- `docker?.coolify` and `docker?.available`
unfoldable pub place : Bool → String
place coolify = if coolify then "Coolify" else "Docker"

unfoldable pub can_add : (available : Bool) → List Database → Bool
can_add available databases = elim databases [ [] ↦ false | _ ∷ _ ↦ available ]

unfoldable pub empty_text : (available coolify : Bool) → String
unfolding place
empty_text available coolify =
    if available
    then concat ("Pick a database on the " ∷ place coolify ∷ " page and it shows up here." ∷ [])
    else "Database backups need the Docker socket mounted into this app's container."

-- `remove` of a database and of a folder: the question, and what follows its answer and the server's.
unfoldable pub database_question : Database → Given
unfolding question
database_question db =
    question (concat ("Delete “" ∷ db.name ∷ "”?" ∷ []))
      "This only removes the database from the app's list. The database itself and its backups are not touched."
      "Delete source"

unfoldable pub remove_database : Database → Bool → List Effect
unfolding confirmed databases_call
remove_database db ok = confirmed (databases_call (remove db.id)) ok

unfoldable pub database_removed : Database → Response → List Effect
unfolding removed
database_removed db res =
    removed (concat ("Database source “" ∷ db.name ∷ "” deleted." ∷ []))
      "Could not delete the database source" res

unfoldable pub folder_question : Folder → Given
unfolding question
folder_question f =
    question (concat ("Delete “" ∷ f.name ∷ "”?" ∷ []))
      "This only removes the folder from the app's list. Nothing on disk is touched."
      "Delete folder"

unfoldable pub remove_folder : Folder → Bool → List Effect
unfolding confirmed folders_call
remove_folder f ok = confirmed (folders_call (remove f.id)) ok

unfoldable pub folder_removed : Folder → Response → List Effect
unfolding removed
folder_removed f res =
    removed (concat ("Folder “" ∷ f.name ∷ "” deleted." ∷ [])) "Could not delete the folder" res

-- `FoldersRoute`: the dialog's `open` (`is_open` here) and `folder`.
pub record Open : Type 0 where
  pub is_open : Bool
  pub folder : Option Folder

-- By `location.state?.create`.
unfoldable pub initial_open : Bool → Open
initial_open wanted = record { is_open = wanted; folder = none }

-- `openCreate`, the button that edits a folder, and `onOpenChange` of the dialog.
pub data Press : Type 0 where
  add : Press
  edit : Folder → Press
  open_change : Bool → Press

unfoldable pub press : Open → Press → Open
press d add = record { is_open = true; folder = none }
press d (edit f) = record { is_open = true; folder = some f }
press d (open_change is_open) = record d { is_open = is_open }

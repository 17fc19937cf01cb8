-- ===== src/Repositories.antt =====
-- The page of repositories (ui/src/routes/repositories.jsx): the dialog that creates and edits one,
-- and the page. `Card` has the cards and `Usage` the jobs of each repository.
pub mod Card
pub mod Usage
pub mod Laws
pub mod Secrets
use restic_golang.Api.{Request, Response, error_of}
use restic_golang.Api.Endpoints.{RepositoryCall, create, update, remove, repositories_call}
use restic_golang.Api.Json.{Value, str, obj, end, field}
use restic_golang.Base.{
  String, Bool, true, false, not, ◌||◌, Option, none, some, List, [], ◌∷◌, if◌then◌else◌, ◌==◌,
  concat, trim, truthy,
}
use restic_golang.Confirm.{Given}
use restic_golang.ListPage.{
  Effect, send, toast_success, close_dialog, reload_list, question, confirmed, removed, Loaded,
  failed, loaded, listed,
}

-- The state of the form, and the keys of the request.
pub record Form : Type 0 where
  pub name : String
  pub backend_type : String
  pub local_path : String
  pub endpoint : String
  pub bucket : String
  pub region : String
  pub access_key : String
  pub secret_key : String
  pub password : String

abbrev pub empty_form : Form
empty_form = record {
  name = "";
  backend_type = "Local";
  local_path = "";
  endpoint = "";
  bucket = "";
  region = "";
  access_key = "";
  secret_key = "";
  password = "";
}

-- A repository as the API returns it: its keys of the form.
pub record Repository : Type 0 where
  pub id : String
  pub form : Form

pub record Dialog : Type 0 where
  pub form : Form
  pub busy : Bool
  pub error : String

-- `{ ...EMPTY, ...repository, password: "", secretKey: "" }`
unfoldable pub form_of : Option Repository → Form
form_of none = empty_form
form_of (some r) = record r.form { secret_key = ""; password = "" }

-- The effect on `[open, repository]`.
unfoldable pub opened : Bool → Option Repository → Dialog → Dialog
unfolding form_of
opened is_open repository d =
    if is_open then record d { error = ""; form = form_of repository } else d

-- The controls: `set(key)` of every input, and the backend.
pub data Input : Type 0 where
  name backend_type local_path endpoint bucket region access_key secret_key password : Input

unfoldable pub set : Form → Input → String → Form
set f name v = record f { name = v }
set f backend_type v = record f { backend_type = v }
set f local_path v = record f { local_path = v }
set f endpoint v = record f { endpoint = v }
set f bucket v = record f { bucket = v }
set f region v = record f { region = v }
set f access_key v = record f { access_key = v }
set f secret_key v = record f { secret_key = v }
set f password v = record f { password = v }

unfoldable pub type_all : Form → List (Input × String) → Form
unfolding set
type_all f [] = f
type_all f ((i, v) ∷ rest) = type_all (set f i v) rest

-- `isS3`: the inputs of a backend that is shown.
unfoldable pub is_s3 : Form → Bool
is_s3 f = f.backend_type == "S3"

-- The body of the request: all but the secrets are trimmed.
unfoldable pub body : Form → Form
body f = record {
  name = trim f.name;
  backend_type = f.backend_type;
  local_path = trim f.local_path;
  endpoint = trim f.endpoint;
  bucket = trim f.bucket;
  region = trim f.region;
  access_key = trim f.access_key;
  secret_key = f.secret_key;
  password = f.password;
}

unfoldable pub to_json : Form → Value
to_json f = obj (
    field "name" (str f.name) (
      field "backendType" (str f.backend_type) (
        field "localPath" (str f.local_path) (
          field "endpoint" (str f.endpoint) (
            field "bucket" (str f.bucket) (
              field "region" (str f.region) (
                field "accessKey" (str f.access_key) (
                  field "secretKey" (str f.secret_key)
                    (field "password" (str f.password) end)))))))))

unfoldable pub save_call : Option Repository → Form → Request
unfolding body to_json repositories_call
save_call none f = repositories_call (create (to_json (body f)))
save_call (some r) f = repositories_call (update r.id (to_json (body f)))

unfoldable pub submit : Option Repository → Dialog → Dialog × List Effect
unfolding save_call
submit repository d = (record d { busy = true }, send (save_call repository d.form) ∷ [])

unfoldable pub saved_text : Option Repository → Form → String
saved_text none f = concat ("Repository “" ∷ trim f.name ∷ "” added." ∷ [])
saved_text (some _) f = "Repository updated."

-- Behind the answer, by the form that was sent.
unfoldable pub saved : Option Repository → (sent : Form) → Response → Dialog → Dialog × List Effect
unfolding saved_text
saved repository sent res d =
    if res.ok
    then (
      record d { busy = false },
      toast_success (saved_text repository sent) ∷ close_dialog ∷ reload_list ∷ [],
    )
    else (record d { busy = false; error = error_of res "Could not save the repository." }, [])

unfoldable pub submit_disabled : Dialog → Bool
submit_disabled d = d.busy || not (truthy (trim d.form.name))

-- `remove` of the page: its question, and what follows its answer and the server's.
unfoldable pub remove_question : (name : String) → Given
unfolding question
remove_question n =
    question (concat ("Delete “" ∷ n ∷ "”?" ∷ []))
      "This removes the repository from the app. The backup data on disk or in the bucket is left untouched."
      "Delete repository"

unfoldable pub remove_repository : Repository → Bool → List Effect
unfolding confirmed repositories_call
remove_repository r ok = confirmed (repositories_call (remove r.id)) ok

unfoldable pub repository_removed : Repository → Response → List Effect
unfolding removed
repository_removed r res =
    removed (concat ("Repository “" ∷ r.form.name ∷ "” deleted." ∷ []))
      "Could not delete the repository" res

-- The description of a load that failed.
unfoldable pub error_text : String → String
error_text message = concat (message ∷ " Check that the server is running, then retry." ∷ [])

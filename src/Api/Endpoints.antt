-- ===== src/Api/Endpoints.antt =====
-- The endpoint helpers of ui/src/lib/api.js: the request that each one sends.
use restic_golang.Api.{Request, get, post, put, del}
use restic_golang.Api.Json.{
  Value, Fields, null, undefined, bool, num, str, arr, obj, end, field, strings,
}
use restic_golang.Api.Encode.{encode_uri_component, given_pairs, join_pairs, with_query}
use restic_golang.Base.{
  ℕ, String, Bool, Option, none, some, List, [], ◌∷◌, ◌==◌, if◌then◌else◌, concat, show,
}

-- An argument that may be `undefined`.
unfoldable pub optional_strings : Option (List String) → Value
optional_strings none = undefined
optional_strings (some l) = arr (strings l)

unfoldable pub optional_bool : Option Bool → Value
optional_bool none = undefined
optional_bool (some b) = bool b

-- `v || null` of an object
unfoldable pub or_null : Option Value → Value
or_null none = null
or_null (some v) = v

unfoldable pub status_get : Request
status_get = get "/api/status"

unfoldable pub auth_status : Request
auth_status = get "/api/auth/status"

unfoldable pub auth_setup : String → String → Request
auth_setup password setup_token =
    post "/api/auth/setup"
      (some (obj (field "password" (str password) (field "setupToken" (str setup_token) end))))

unfoldable pub auth_login : String → Request
auth_login password = post "/api/auth/login" (some (obj (field "password" (str password) end)))

unfoldable pub auth_logout : Request
auth_logout = post "/api/auth/logout" none

unfoldable pub auth_change_password : String → String → Request
auth_change_password current new =
    post "/api/auth/password"
      (some (obj (field "currentPassword" (str current) (field "newPassword" (str new) end))))

-- `/api/repositories/${id}` and what follows it; so for the other collections.
abbrev pub repository_url : String → List String → String
repository_url id rest = concat ("/api/repositories/" ∷ id ∷ rest)

abbrev pub job_url : String → List String → String
job_url id rest = concat ("/api/jobs/" ∷ id ∷ rest)

abbrev pub run_url : String → List String → String
run_url id rest = concat ("/api/runs/" ∷ id ∷ rest)

-- The methods of `Repositories`.
pub data RepositoryCall : Type 0 where
  list : RepositoryCall
  read remove test init unlock snapshots reset : (id : String) → RepositoryCall
  create : (b : Value) → RepositoryCall
  update : (id : String) (b : Value) → RepositoryCall
  speed_test : (id : String) (size_mb : ℕ) → RepositoryCall
  speed_tests : (id : String) (limit : ℕ) → RepositoryCall
  set_check_schedule set_speed_limit : (id : String) (v : Value) → RepositoryCall
  restore :
      (id snapshot_id target : String) (include : Option (List String))
      (stop_containers : Option Bool)
      → RepositoryCall
  download : (id snapshot_id : String) (include : Option (List String)) → RepositoryCall
  restore_db : (id : String) (body : Value) → RepositoryCall
  files : (id snapshot_id path : String) → RepositoryCall
  forget : (id snapshot_id : String) → RepositoryCall

unfoldable pub repositories_call : RepositoryCall → Request
unfolding optional_strings optional_bool
repositories_call RepositoryCall.list = get "/api/repositories"
repositories_call (read id) = get (repository_url id [])
repositories_call (create b) = post "/api/repositories" (some b)
repositories_call (update id b) = put (repository_url id []) b
repositories_call (remove id) = del (repository_url id [])
repositories_call (test id) = post (repository_url id ("/test" ∷ [])) none
repositories_call (init id) = post (repository_url id ("/init" ∷ [])) none
repositories_call (unlock id) = post (repository_url id ("/unlock" ∷ [])) none
repositories_call (speed_test id size_mb) =
    post (repository_url id ("/speedtest" ∷ [])) (some (obj (field "sizeMB" (num size_mb) end)))
repositories_call (speed_tests id limit) =
    get (repository_url id ("/speedtests?limit=" ∷ show limit ∷ []))
repositories_call (set_check_schedule id v) = put (repository_url id ("/check-schedule" ∷ [])) v
repositories_call (set_speed_limit id v) = put (repository_url id ("/speed-limit" ∷ [])) v
repositories_call (snapshots id) = get (repository_url id ("/snapshots" ∷ []))
repositories_call (restore id snapshot_id target include stop) =
    post (repository_url id ("/restore" ∷ [])) (
      some (
        obj (
          field "snapshotId" (str snapshot_id) (
            field "target" (str target) (
              field "include" (optional_strings include)
                (field "stopContainers" (optional_bool stop) end))))))
repositories_call (download id snapshot_id include) = post (repository_url id ("/download" ∷ [])) (
    some
      (obj (field "snapshotId" (str snapshot_id) (field "include" (optional_strings include) end))))
repositories_call (restore_db id body) = post (repository_url id ("/restore-db" ∷ [])) (some body)
repositories_call (files id snapshot_id path) = get (
    repository_url id (
      "/snapshots/"
      ∷ encode_uri_component snapshot_id
      ∷ "/ls?path="
      ∷ encode_uri_component path
      ∷ []))
repositories_call (forget id snapshot_id) =
    post (repository_url id ("/forget" ∷ []))
      (some (obj (field "snapshotId" (str snapshot_id) end)))
repositories_call (reset id) = post (repository_url id ("/reset" ∷ [])) none

-- `Folders` and `Databases`: the same methods at two addresses.
pub data CollectionCall : Type 0 where
  list : CollectionCall
  create : (b : Value) → CollectionCall
  update : (id : String) (b : Value) → CollectionCall
  remove : (id : String) → CollectionCall

unfoldable pub collection : String → CollectionCall → Request
collection base CollectionCall.list = get base
collection base (CollectionCall.create b) = post base (some b)
collection base (CollectionCall.update id b) = put (concat (base ∷ "/" ∷ id ∷ [])) b
collection base (CollectionCall.remove id) = del (concat (base ∷ "/" ∷ id ∷ []))

unfoldable pub folders_call : CollectionCall → Request
unfolding collection
folders_call c = collection "/api/folders" c

unfoldable pub databases_call : CollectionCall → Request
unfolding collection
databases_call c = collection "/api/databases" c

pub data DockerCall : Type 0 where
  status resources : DockerCall
  container_databases : (container : String) → DockerCall
  containers_using : (path : String) → DockerCall
  create_job : (b : Value) → DockerCall

unfoldable pub docker_call : DockerCall → Request
docker_call status = get "/api/docker/status"
docker_call resources = get "/api/docker/resources"
docker_call (container_databases container) =
    get (concat ("/api/docker/containers/" ∷ encode_uri_component container ∷ "/databases" ∷ []))
docker_call (containers_using path) =
    get (concat ("/api/docker/containers-using?path=" ∷ encode_uri_component path ∷ []))
docker_call (create_job b) = post "/api/docker/jobs" (some b)

-- What `Jobs.save` reads of a job.
pub record StoredJob : Type 0 where
  pub id : String
  pub name : String
  pub folder_id : String
  pub database_id : String
  pub repository_id : String
  pub schedule : Option Value
  pub retention : Option Value

-- `{ ...fields, [k]: v }`: a key keeps its place.
unfoldable pub set_field : String → Value → Fields → Fields
set_field k v end = field k v end
set_field k v (field j w fs) = if j == k then field k v fs else field j w (set_field k v fs)

unfoldable pub merge_fields : Fields → List (String × Value) → Fields
unfolding set_field
merge_fields fs [] = fs
merge_fields fs ((k, v) ∷ changes) = merge_fields (set_field k v fs) changes

unfoldable pub job_fields : StoredJob → Fields
unfolding or_null
job_fields job = field "name" (str job.name) (
    field "folderId" (str job.folder_id) (
      field "databaseId" (str job.database_id) (
        field "repositoryId" (str job.repository_id) (
          field "schedule" (or_null job.schedule)
            (field "retention" (or_null job.retention) end)))))

pub data JobCall : Type 0 where
  list : JobCall
  read remove run snapshots : (id : String) → JobCall
  create : (b : Value) → JobCall
  save : (job : StoredJob) (changes : List (String × Value)) → JobCall
  retention : (id : String) (dry_run : Bool) → JobCall
  forget : (id : String) (delete_job : Bool) → JobCall
  runs : (id : String) (params : List (String × Value)) → JobCall

unfoldable pub query : List (String × Value) → String
unfolding given_pairs join_pairs
query params = join_pairs (given_pairs params)

unfoldable pub jobs_call : JobCall → Request
unfolding merge_fields job_fields query with_query
jobs_call JobCall.list = get "/api/jobs"
jobs_call (JobCall.read id) = get (job_url id [])
jobs_call (JobCall.create b) = post "/api/jobs" (some b)
jobs_call (JobCall.save job changes) =
    put (job_url job.id []) (obj (merge_fields (job_fields job) changes))
jobs_call (JobCall.remove id) = del (job_url id [])
jobs_call (JobCall.run id) = post (job_url id ("/run" ∷ [])) none
jobs_call (JobCall.retention id dry_run) =
    post (job_url id ("/retention" ∷ [])) (some (obj (field "dryRun" (bool dry_run) end)))
jobs_call (JobCall.forget id delete_job) =
    post (job_url id ("/forget" ∷ [])) (some (obj (field "deleteJob" (bool delete_job) end)))
jobs_call (JobCall.runs id params) = get (with_query (job_url id ("/runs" ∷ [])) (query params))
jobs_call (JobCall.snapshots id) = get (job_url id ("/snapshots" ∷ []))

pub data RunCall : Type 0 where
  read stop : (id : String) → RunCall
  log : (id : String) (after : ℕ) → RunCall
  list : (params : List (String × Value)) → RunCall

unfoldable pub runs_call : RunCall → Request
unfolding query with_query
runs_call (RunCall.read id) = get (run_url id [])
runs_call (RunCall.stop id) = post (run_url id ("/stop" ∷ [])) none
runs_call (RunCall.log id after) = get (run_url id ("/log?after=" ∷ show after ∷ []))
runs_call (RunCall.list params) = get (with_query "/api/runs" (query params))

unfoldable pub download_url : String → String
download_url id = run_url id ("/download" ∷ [])

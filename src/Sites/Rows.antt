-- ===== src/Sites/Rows.antt =====
-- The rows of a resource in ui/src/routes/coolify.jsx: volumes, database servers with their databases,
-- and the databases that a site uses.
use restic_golang.Api.{Request, Response, error_of}
use restic_golang.Api.Endpoints.{container_databases, docker_call}
use restic_golang.Base.{
  String, Bool, true, false, not, ◌&&◌, ◌||◌, Option, none, some, List, [], ◌∷◌, if◌then◌else◌,
  ◌==◌, eqb, ltb, concat, join, or_text, show, keep, find, length, map, truthy, present,
}
use restic_golang.ListPage.{listed}
use restic_golang.QuickBackup.{Target, primary_name}
use restic_golang.Restore.{engine_label}
use restic_golang.Sites.{Job, Volume, Known, Server, Link, Container, Resource}

unfoldable pub name_of : Resource → String
unfolding primary_name
name_of r = primary_name r.domains r.name

-- What a row has on its right: who backs it up, a button that opens the dialog on a target, a note
-- that it cannot be reached, or nothing.
pub data Offer : Type 0 where
  backed_up : List (String × String) → Offer
  back_up : Target → (title description : String) → Offer
  not_reachable no_offer : Offer

unfoldable pub job_links : List Job → List (String × String)
job_links js = map (λ (j : Job). (j.name, concat ("/jobs/" ∷ j.id ∷ []))) js

-- `jobs?.length ? <BackedUp jobs/> : otherwise`
unfoldable pub offer_unless : List Job → Offer → Offer
unfolding job_links
offer_unless [] otherwise = otherwise
offer_unless (j ∷ js) otherwise = backed_up (job_links (j ∷ js))

-- `VolumeRow`
unfoldable pub files : Resource → List Volume
files r = keep (λ (v : Volume). not v.database_data) r.volumes

unfoldable pub volume_detail : Volume → String
volume_detail v = if v.kind == "volume" then concat ("volume " ∷ v.name ∷ []) else v.host_path

unfoldable pub volume_name : Resource → Volume → String
unfolding files name_of
volume_name r v =
    if ltb 1 (length (files r))
    then concat (name_of r ∷ " " ∷ join ", " v.mounted_at ∷ [])
    else concat (name_of r ∷ " files" ∷ [])

unfoldable pub volume_target : Resource → Volume → Target
unfolding volume_name
volume_target r v = record {
  kind = "folder";
  path = v.path;
  container = "";
  database = "";
  default_name = volume_name r v;
}

unfoldable pub volume_offer : Resource → Volume → Offer
unfolding volume_target offer_unless name_of
volume_offer r v = offer_unless v.jobs (
    if truthy v.path
    then back_up (volume_target r v) (concat (name_of r ∷ " files" ∷ [])) (
        concat (
          "Backs up "
          ∷ v.path
          ∷ ", mounted at "
          ∷ join ", " v.mounted_at
          ∷ " in "
          ∷ join ", " v.containers
          ∷ "."
          ∷ []))
    else not_reachable)

-- `DatabaseServerRow`: whether it is open, and the list of its databases.
pub record ServerRow : Type 0 where
  pub is_open : Bool
  pub loading : Bool
  pub databases : Option (List String)
  pub error : String

abbrev pub closed : ServerRow
closed = record { is_open = false; loading = false; databases = none; error = "" }

unfoldable pub toggle : Server → ServerRow → ServerRow × List Request
unfolding docker_call
toggle s row =
    if row.is_open || present row.databases
    then (record row { is_open = not row.is_open }, [])
    else (
      record { is_open = true; loading = true; databases = none; error = "" },
      docker_call (container_databases s.container) ∷ [],
    )

unfoldable pub listed_databases : Response → Option (List String) → ServerRow → ServerRow
unfolding listed
listed_databases res databases row =
    if res.ok
    then record row { loading = false; databases = some (listed databases); error = "" }
    else record row {
      loading = false;
      databases = none;
      error = error_of res "Could not list the databases.";
    }

-- What happens to a row: its button, which is disabled unless the server runs, and the answers.
pub data Event : Type 0 where
  press : Event
  answer : Response → Option (List String) → Event

unfoldable pub pressed : Server → ServerRow → ServerRow × List Request
unfolding toggle
pressed s row = if s.state == "running" then toggle s row else (row, [])

unfoldable pub step : Server → ServerRow → Event → ServerRow × List Request
unfolding pressed listed_databases
step s row press = pressed s row
step s row (answer res databases) = (listed_databases res databases row, [])

unfoldable pub source_for : (database : String) → List Known → List Job
source_for database [] = []
source_for database (k ∷ ks) =
    let rest = source_for database ks in if k.database == database then k.jobs else rest

unfoldable pub database_target : (container database default_name : String) → Target
database_target container database default_name = record {
  kind = "database";
  path = "";
  container = container;
  database = database;
  default_name = default_name;
}

unfoldable pub database_offer : Resource → Server → (database : String) → Offer
unfolding database_target offer_unless source_for name_of engine_label
database_offer r s db = offer_unless (source_for db s.sources) (
    back_up (database_target s.container db (concat (name_of r ∷ " " ∷ db ∷ [])))
      (concat ("the " ∷ db ∷ " database" ∷ []))
      (concat (
        "Dumps "
        ∷ db
        ∷ " inside "
        ∷ s.container
        ∷ " with the "
        ∷ engine_label s.engine
        ∷ " tools and keeps each dump as a snapshot. The database stays online."
        ∷ [])))

unfoldable pub server_detail : Server → String
server_detail s = if s.state == "running" then s.image else concat (s.state ∷ " · " ∷ s.image ∷ [])

-- `LinkedDatabaseRow`: the server is looked up by the link's resource and container.
unfoldable pub resource_by : (key : String) → List Resource → Option Resource
resource_by key [] = none
resource_by key (r ∷ rs) =
    let later = resource_by key rs in
    if present later then later else if r.key == key then some r else none

unfoldable pub server_of : (container : String) → Option Resource → Option Server
server_of container none = none
server_of container (some r) = find (λ (s : Server). s.container == container) r.databases

unfoldable pub jobs_in : (database : String) → Option Server → List Job
unfolding source_for
jobs_in database none = []
jobs_in database (some s) = source_for database s.sources

unfoldable pub jobs_of_link : List Resource → Link → List Job
unfolding jobs_in server_of resource_by
jobs_of_link all l = jobs_in l.database (server_of l.container (resource_by l.resource all))

unfoldable pub link_offer : List Resource → Resource → Link → Offer
unfolding jobs_of_link offer_unless database_target name_of
link_offer all r l = offer_unless (jobs_of_link all l) (
    if truthy l.container
    then back_up (database_target l.container l.database (concat (name_of r ∷ " database" ∷ [])))
        (concat ("the " ∷ l.database ∷ " database" ∷ []))
        (concat (
          "Dumps "
          ∷ l.database
          ∷ " inside "
          ∷ l.container
          ∷ ", the database "
          ∷ name_of r
          ∷ " is configured to use. The database stays online."
          ∷ []))
    else no_offer)

unfoldable pub name_or : Option Resource → (container : String) → String
name_or none container = container
name_or (some r) container = or_text r.name container

unfoldable pub link_detail : List Resource → Link → String
unfolding name_or resource_by engine_label
link_detail all l =
    if truthy l.container
    then concat
        (engine_label l.engine ∷ " on " ∷ name_or (resource_by l.resource all) l.container ∷ [])
    else concat ("on " ∷ l.host ∷ " (not found on this host)" ∷ [])

-- `ResourceCard`: the badge of stopped containers, and whether there is anything to back up.
unfoldable pub stopped : Resource → List Container
stopped r = keep (λ (c : Container). not (c.state == "running")) r.containers

unfoldable pub stopped_badge : Resource → Option String
unfolding stopped
stopped_badge r =
    let n = length (stopped r) in
    if eqb n 0
    then none
    else some (if eqb n (length r.containers) then "stopped" else concat (show n ∷ " stopped" ∷ []))

unfoldable pub has_nothing : Resource → Bool
unfolding files
has_nothing r =
    eqb (length (files r)) 0 && (eqb (length r.databases) 0 && eqb (length r.linked_databases) 0)

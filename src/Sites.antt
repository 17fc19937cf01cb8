-- ===== src/Sites.antt =====
-- The page of the sites and databases of the host (`CoolifyRoute` of ui/src/routes/coolify.jsx): its
-- loader, the search, the projects, and the rows that offer a backup. The dialog that a row opens is
-- in QuickBackup.
pub mod Rows
pub mod Laws
use restic_golang.Api.{Response, error_of}
use restic_golang.Base.{
  String, Bool, true, false, not, ◌&&◌, ◌||◌, Option, none, some, List, [], ◌∷◌, ◌++◌,
  if◌then◌else◌, ◌==◌, concat, join, or_text, truthy, keep, map, trim, includes, upsert,
}
use restic_golang.ListPage.{listed}
use restic_golang.QuickBackup.{is_coolify_kind}

pub record Job : Type 0 where
  pub id : String
  pub name : String

pub record Volume : Type 0 where
  pub name : String
  pub kind : String
  pub path : String
  pub host_path : String
  pub mounted_at : List String
  pub containers : List String
  pub database_data : Bool
  pub jobs : List Job

-- A database of a server that the app has as a source, and the jobs that back it up.
pub record Known : Type 0 where
  pub database : String
  pub jobs : List Job

pub record Server : Type 0 where
  pub container : String
  pub engine : String
  pub state : String
  pub image : String
  pub sources : List Known

-- The database that a site's settings name; `container` is "" where it is not on this host.
pub record Link : Type 0 where
  pub resource : String
  pub container : String
  pub database : String
  pub engine : String
  pub host : String

pub record Container : Type 0 where
  pub name : String
  pub state : String

pub record Resource : Type 0 where
  pub key : String
  pub kind : String
  pub name : String
  pub project : String
  pub environment : String
  pub domains : List String
  pub containers : List Container
  pub volumes : List Volume
  pub databases : List Server
  pub linked_databases : List Link

-- The loader never fails: what went wrong is part of its result.
pub record Data : Type 0 where
  pub ok : Bool
  pub error : String
  pub resources : List Resource
  pub repositories : List String

unfoldable pub load : Response → Option (List Resource) → Option (List String) → Data
unfolding listed
load res resources repositories = record {
  ok = res.ok;
  error = if res.ok then "" else error_of res "Could not read the Docker host.";
  resources = listed resources;
  repositories = listed repositories;
}

-- `query.trim().toLowerCase()`; `lower` is the browser's `toLowerCase`.
unfoldable pub needle : (lower : String → String) (query : String) → String
unfolding trim
needle lower query = lower (trim query)

unfoldable pub hay : (lower : String → String) → Resource → String
hay lower r = lower (
    join " " (
      r.name
      ∷ r.project
      ∷ r.environment
      ∷ (r.domains ++ map (λ (c : Container). c.name) r.containers)))

unfoldable pub matches : (lower : String → String) → Resource → (q : String) → Bool
unfolding hay includes
matches lower r q = if q == "" then true else includes (hay lower r) q

unfoldable pub coolify : (lower : String → String) (q : String) → List Resource → List Resource
unfolding matches
coolify lower q rs = keep (λ r. is_coolify_kind r.kind && matches lower r q) rs

unfoldable pub other : (lower : String → String) (q : String) → List Resource → List Resource
unfolding matches
other lower q rs = keep (λ r. not (is_coolify_kind r.kind) && matches lower r q) rs

-- `showOther ?? coolify.length === 0`
unfoldable pub other_open : (show_other : Option Bool) → (coolify : List Resource) → Bool
other_open (some b) rs = b
other_open none [] = true
other_open none (_ ∷ _) = false

-- A `Map` of the projects: in the order in which they come first.
abbrev pub Projects : Type 0
Projects = List (String × List Resource)

unfoldable pub project_of : Resource → String
project_of r = or_text r.project "other"

unfoldable pub add_resource : Resource → Projects → Projects
unfolding project_of
add_resource r m = upsert (project_of r) [] (λ rs. rs ++ r ∷ []) m

unfoldable pub add_resources : Projects → List Resource → Projects
unfolding add_resource
add_resources m [] = m
add_resources m (r ∷ rs) = add_resources (add_resource r m) rs

unfoldable pub projects : List Resource → Projects
unfolding add_resources
projects rs = add_resources [] rs

-- What the page shows, by the search.
pub data View : Type 0 where
  skeleton : View
  unreachable : (description : String) → View
  nothing : (description : String) → (clear_button : Bool) → View
  sections : Projects → (others : List Resource) → View

unfoldable pub nothing_text : (q query : String) → String
unfolding trim
nothing_text q query =
    if q == ""
    then "No containers were found on this host."
    else concat ("No site, domain or project matches “" ∷ trim query ∷ "”." ∷ [])

unfoldable pub sections_of : (q query : String) → Projects → List Resource → View
unfolding nothing_text
sections_of q query [] [] = nothing (nothing_text q query) (truthy q)
sections_of q query (p ∷ ps) others = sections (p ∷ ps) others
sections_of q query [] (r ∷ rs) = sections [] (r ∷ rs)

unfoldable pub loaded_view : (lower : String → String) (query docker_message : String) → Data → View
unfolding needle projects coolify other sections_of
loaded_view lower query docker_message d =
    let q = needle lower query in
    if d.ok
    then sections_of q query (projects (coolify lower q d.resources)) (other lower q d.resources)
    else unreachable (or_text d.error docker_message)

unfoldable pub view :
    (lower : String → String) (query docker_message : String) (loading : Bool) → Option Data → View
unfolding loaded_view
view lower query docker_message true none = skeleton
view lower query docker_message false none = unreachable docker_message
view lower query docker_message loading (some d) = loaded_view lower query docker_message d

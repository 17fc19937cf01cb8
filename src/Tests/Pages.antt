-- ===== src/Tests/Pages.antt =====
-- The pages of lists and of single things at concrete inputs.
use mathlib.Core.List.{Perm}
use restic_golang.Api.{Response, empty_body, error_of}
use restic_golang.Base.{
  ◌≡◌, ◌≢◌, ◌≤◌, ◌<◌, ◌+◌, ◌++◌, refl, String, true, false, none, some, List, [], ◌∷◌, keep, length,
  value_at, eqb, to_lower, arith, eq_iff,
}
use restic_golang.DetailPage.{
  Detail, missing, found, not_found, showing, error_state, load_detail, detail_view, retry_text,
  broken,
}
use restic_golang.DetailPage
use restic_golang.DetailPage.Laws.{view-load_detail, view-unbroken}
use restic_golang.Format.{Clock}
use restic_golang.ListPage.{outcome, page_effect, renders}
use restic_golang.ListPage.Laws.{renders-Settled}
use restic_golang.Pagination.{page_slice, page_size}
use restic_golang.Repositories.Laws.{stores_in, IsLastRun, IsNotLater, usage_by_repository_lem}
use restic_golang.Repositories.Usage.{UsingJob, usage_of, usage_by_repository}
use restic_golang.Runs.{Run}
use restic_golang.Sites.{Resource, matches, coolify, other, projects}
use restic_golang.Sites.Laws.{under, is_of, projects_lem}
use restic_golang.Snapshots.{
  Listed, Payload, Event, initial, refresh, answered, show_more, restore, footer,
}
use restic_golang.Snapshots
use restic_golang.Snapshots.Laws.{IsWell, steps-IsWell, Tells, steps-Tells}
use restic_golang.Sources.{SourceJob, group, group_jobs_by_source}
use restic_golang.Sources.Laws.{on_database, on_folder, group_jobs_by_source_lem}
use restic_golang.UseFetch.{
  Fetch, mounted, run, unmount, reload, fulfilled, rejected, finished, steps,
}
use restic_golang.UseFetch

-- A date is the length of its text here.
abbrev clock : Clock
clock = record {
  instant = λ s. some 5;
  now = 9;
  locale_time = λ n. "time";
  locale_date = λ n. "date";
  locale_number = λ n. "number";
}

abbrev names : List String
names = "a" ∷ "b" ∷ []

renders-Settled_example :
    (renders 2 names 7 ≡ some (page_slice names 7 page_size).page)
    × (page_effect names (page_slice names 7 page_size).page ≡ none)
    × (1 ≤ (page_slice names 7 page_size).page)
    × ((page_slice names 7 page_size).page ≤ (page_slice names 7 page_size).total_pages)
    × (0 < length names → 0 < length (page_slice names 7 page_size).items)
renders-Settled_example = renders-Settled 0 names 7

abbrev first : Fetch (Detail String) String
first = mounted none

abbrev gone : Response
gone = record {
  status = 404;
  ok = false;
  body = some (record empty_body { error = "job not found" });
}

abbrev view_of_gone : DetailPage.View String
view_of_gone =
    DetailPage.view
      (steps first (run ∷ outcome (first.generation + 1) (load_detail "Could not load." gone "j1")))

view-load_detail_example :
    (eqb 404 404 ≡ true → view_of_gone ≡ not_found)
    × (eqb 404 404 ≡ false → false ≡ true → view_of_gone ≡ showing "j1")
    × (eqb 404 404 ≡ false
        → false ≡ false
        → first.value ≡ none
        → view_of_gone ≡ error_state (retry_text (error_of gone "Could not load.")))
    × (eqb 404 404 ≡ false
        → false ≡ false
        → (d : Detail String) → first.value ≡ some d
        → view_of_gone ≡ detail_view (some d) false none)
view-load_detail_example = view-load_detail first "Could not load." gone "j1" tt

abbrev loads : List (UseFetch.Event (Detail String) String)
loads =
    run
    ∷ reload
    ∷ run
    ∷ fulfilled 1 missing
    ∷ rejected 2 "late"
    ∷ finished 2
    ∷ unmount
    ∷ finished 1
    ∷ []

view-unbroken_example : DetailPage.view (steps (mounted none) loads) ≢ broken
unfolding UseFetch.step
view-unbroken_example = view-unbroken loads (omega arith, (omega arith, (refl, (refl, tt))))

abbrev jobs : List SourceJob
jobs =
    record { id = "j1"; name = "Nightly"; folder_id = "f1"; database_id = "" }
    ∷ record { id = "j2"; name = "Shop"; folder_id = ""; database_id = "d1" }
    ∷ []

group_jobs_by_source_lem_example :
    (group "d1" (group_jobs_by_source jobs).database ≡ keep (on_database "d1") jobs)
    × (group "d1" (group_jobs_by_source jobs).folder ≡ keep (on_folder "d1") jobs)
group_jobs_by_source_lem_example =
    group_jobs_by_source_lem "d1" jobs (λ e. ground (arith, (eq_iff "d1" "").1 e))

abbrev a_run : Run
a_run = record {
  id = "1";
  kind = "backup";
  status = "success";
  job_id = "j1";
  job_name = "Nightly";
  repository_id = "r1";
  repo_name = "local";
  error = "";
  started_at = "today";
  finished_at = "";
  safety_snapshot = "";
  progress = none;
  summary = none;
}

abbrev users : List UsingJob
users =
    record { repository_id = "r1"; last_run = some a_run }
    ∷ record { repository_id = "r2"; last_run = none }
    ∷ []

usage_by_repository_lem_example :
    ((usage_of "r1" (usage_by_repository clock users)).jobs ≡ length (keep (stores_in "r1") users))
    × ((r : Run)
        → (usage_of "r1" (usage_by_repository clock users)).latest ≡ some r
        → IsLastRun clock r (keep (stores_in "r1") users))
    × ((r : Run)
        → IsLastRun clock r (keep (stores_in "r1") users)
        → IsNotLater clock (usage_of "r1" (usage_by_repository clock users)).latest r)
usage_by_repository_lem_example = usage_by_repository_lem clock "r1" users

abbrev a_site : Resource
a_site = record {
  key = "k1";
  kind = "application";
  name = "shop";
  project = "";
  environment = "production";
  domains = "shop.example" ∷ [];
  containers = [];
  volumes = [];
  databases = [];
  linked_databases = [];
}

abbrev resources : List Resource
resources = a_site ∷ record a_site { key = "k2"; kind = "container" } ∷ []

projects_lem_example :
    Perm
      (under (projects (coolify to_lower "shop" resources)) ++ other to_lower "shop" resources)
      (keep (λ r. matches to_lower r "shop") resources)
    × ((p : String)
        → value_at p [] (projects (coolify to_lower "shop" resources))
          ≡ keep (is_of p) (coolify to_lower "shop" resources))
projects_lem_example = projects_lem to_lower "shop" resources

abbrev a_snapshot : Listed
a_snapshot = record {
  snapshot = record { id = "s1"; tags = "resticweb-db:mysql" ∷ []; paths = "/shop.sql" ∷ [] };
  short = "s1";
  taken_at = "today";
  size = none;
  files = some 1;
}

abbrev answer : Payload
answer = record { ok = true; code = ""; error = ""; snapshots = a_snapshot ∷ [] }

abbrev events : List Event
events = refresh ∷ answered 1 (some answer) ∷ restore a_snapshot.snapshot ∷ show_more ∷ []

steps-IsWell_example : IsWell (Snapshots.steps initial events)
steps-IsWell_example = steps-IsWell events

steps-Tells_example :
    Tells clock (Snapshots.steps initial events) (footer clock (Snapshots.steps initial events))
steps-Tells_example = steps-Tells clock events

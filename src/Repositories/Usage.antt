-- ===== src/Repositories/Usage.antt =====
-- `usageByRepository` and the loader of ui/src/routes/repositories.jsx.
use restic_golang.Api.{Response, error_of}
use restic_golang.Base.{
  ℕ, ◌+◌, String, Bool, false, Option, none, some, List, [], ◌∷◌, if◌then◌else◌, ltb, upsert,
  value_at,
}
use restic_golang.Format.{Clock}
use restic_golang.ListPage.{Loaded, failed, loaded, listed}
use restic_golang.Runs.{Run}

-- What the loop reads of a job.
pub record UsingJob : Type 0 where
  pub repository_id : String
  pub last_run : Option Run

pub record Usage : Type 0 where
  pub jobs : ℕ
  pub latest : Option Run

abbrev pub no_usage : Usage
no_usage = record { jobs = 0; latest = none }

-- `new Date(a) > new Date(b)`: false where one of them cannot be read.
unfoldable pub is_after : Option ℕ → Option ℕ → Bool
is_after (some x) (some y) = ltb y x
is_after _ _ = false

unfoldable pub is_later : Clock → String → String → Bool
unfolding is_after
is_later clock a b = is_after (clock.instant a) (clock.instant b)

-- `if (j.lastRun && (!u.latest || ...)) u.latest = j.lastRun`
unfoldable pub newer : Clock → Option Run → Option Run → Option Run
unfolding is_later
newer clock none latest = latest
newer clock (some run) none = some run
newer clock (some run) (some old) =
    if is_later clock run.started_at old.started_at then some run else some old

unfoldable pub count_job : Clock → UsingJob → Usage → Usage
unfolding newer
count_job clock j u = record { jobs = u.jobs + 1; latest = newer clock j.last_run u.latest }

-- An object, by its keys.
abbrev pub Usages : Type 0
Usages = List (String × Usage)

-- `const u = (m[j.repositoryId] ||= { jobs: 0, latest: null })`, and what the loop does with it.
unfoldable pub add_usage : Clock → UsingJob → Usages → Usages
unfolding count_job
add_usage clock j m = upsert j.repository_id no_usage (count_job clock j) m

unfoldable pub add_usages : Clock → Usages → List UsingJob → Usages
unfolding add_usage
add_usages clock m [] = m
add_usages clock m (j ∷ js) = add_usages clock (add_usage clock j m) js

unfoldable pub usage_by_repository : Clock → List UsingJob → Usages
unfolding add_usages
usage_by_repository clock jobs = add_usages clock [] jobs

-- `usage[id] || { jobs: 0, latest: null }`
unfoldable pub usage_of : String → Usages → Usage
usage_of id m = value_at id no_usage m

unfoldable pub card_usage : String → Option Usages → Option Usage
unfolding usage_of
card_usage id none = none
card_usage id (some m) = some (usage_of id m)

-- The loader: it fails with the list of repositories, and does without the list of jobs.
unfoldable pub load_usage : Clock → Response → Option (List UsingJob) → Option Usages
unfolding usage_by_repository listed
load_usage clock res jobs = if res.ok then some (usage_by_repository clock (listed jobs)) else none

unfoldable pub load_all :
    {R : Type 0}
    → Clock
    → Response
    → Option (List R)
    → Response
    → Option (List UsingJob)
    → Loaded (List R × Option Usages)
unfolding load_usage listed
load_all clock res repositories jobs_res jobs =
    if res.ok
    then loaded (listed repositories, load_usage clock jobs_res jobs)
    else failed (error_of res "Could not load the repositories.")

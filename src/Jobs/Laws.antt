-- ===== src/Jobs/Laws.antt =====
-- About the dialog and the filter of ui/src/routes/jobs.jsx.
use restic_golang.Api.{Request}
use restic_golang.Api.Endpoints.{create, jobs_call}
use restic_golang.Api.Json.{Fields, str, obj, end, field}
use restic_golang.Base.{
  ◌≡◌, refl, inl, inr, Bool-cases, String, Bool, true, false, not, ◌||◌, List, [], ◌∷◌,
  if◌then◌else◌, ◌==◌, eq_refl, truthy, any, trim, head_or, arith,
}
use restic_golang.ListPage.{send}
use restic_golang.Jobs.{
  Lists, Dialog, opened, Input, set_name, set_kind, set_folder, set_database, set_repository,
  set_auto_daily, input, inputs, source_id, source_field, submit_disabled, daily, body,
  schedule_field, submit,
}

-- An id that is not empty is one of a list's.
abbrev pub IsListed : String → List String → Type 0
IsListed id ids = truthy id ≡ true → any (λ i. i == id) ids ≡ true

-- The ids and the kind that the dialog holds are among what the lists offer.
abbrev pub IsOffered : Lists → Dialog → Type 0
IsOffered l d =
    IsListed d.folder_id l.folders
    × IsListed d.database_id l.databases
    × IsListed d.repository_id l.repositories

-- What the controls can choose.
abbrev pub IsChoice : Lists → Input → Type 0
IsChoice l (set_folder v) = IsListed v l.folders
IsChoice l (set_database v) = IsListed v l.databases
IsChoice l (set_repository v) = IsListed v l.repositories
IsChoice l _ = Unit

abbrev pub AreChoices : Lists → List Input → Type 0
AreChoices l [] = Unit
AreChoices l (i ∷ is) = IsChoice l i × AreChoices l is

head-IsListed : (ids : List String) → IsListed (head_or "" ids) ids
head-IsListed [] h = cc
head-IsListed (i ∷ ids) h = rw (eq_refl i)

opened-IsOffered : (prefer : String) (l : Lists) (d : Dialog) → IsOffered l (opened prefer l d)
unfolding opened
opened-IsOffered prefer l d =
    (head-IsListed l.folders, head-IsListed l.databases, head-IsListed l.repositories)

input-IsOffered :
    (l : Lists) (d : Dialog) (i : Input) → IsChoice l i → IsOffered l d → IsOffered l (input d i)
unfolding input
input-IsOffered l d (set_name v) h o = o
input-IsOffered l d (set_kind v) h o = o
input-IsOffered l d (set_folder v) h (f, b, r) = (h, b, r)
input-IsOffered l d (set_database v) h (f, b, r) = (f, h, r)
input-IsOffered l d (set_repository v) h (f, b, r) = (f, b, h)
input-IsOffered l d (set_auto_daily v) h o = o

inputs-IsOffered :
    (l : Lists) (is : List Input) (d : Dialog)
    → AreChoices l is
    → IsOffered l d
    → IsOffered l (inputs d is)
unfolding inputs
inputs-IsOffered l [] d h o = o
inputs-IsOffered l (i ∷ is) d (h, hs) o =
    inputs-IsOffered l is (input d i) hs (input-IsOffered l d i h o)

-- The key of the source, and the list it is chosen from.
abbrev pub source_key : Dialog → String
source_key d = if d.kind == "database" then "databaseId" else "folderId"

abbrev pub sources : Lists → Dialog → List String
sources l d = if d.kind == "database" then l.databases else l.folders

enabled-truthy :
    (b : Bool) (name source repository : String)
    → b || (not (truthy name) || (not (truthy source) || not (truthy repository))) ≡ false
    → (truthy name ≡ true) × (truthy source ≡ true) × (truthy repository ≡ true)
enabled-truthy b name source repository h = ground arith

source-IsListed : (l : Lists) (d : Dialog) → IsOffered l d → IsListed (source_id d) (sources l d)
unfolding source_id
source-IsListed l d (f, b, r) = elim (Bool-cases (d.kind == "database")) [
  | inl e ↦ rw e b
  | inr e ↦ rw e f
]

-- The schedule that the box asks for.
abbrev pub schedule_of : Dialog → Fields
schedule_of d = if d.auto_daily then field "schedule" daily end else end

-- A request for a job with the dialog's name, repository, one source and its schedule.
abbrev pub create_call : Dialog → Request
create_call d = jobs_call (
    create (
      obj (
        field "name" (str (trim d.name)) (
          field "repositoryId" (str d.repository_id)
            (field (source_key d) (str (source_id d)) (schedule_of d))))))

submit-sent : (d : Dialog) → (submit d).1 ≡ send (create_call d) ∷ []
unfolding submit body source_field schedule_field source_id
submit-sent d = elim (Bool-cases (d.kind == "database")) [ inl e ↦ rw e refl | inr e ↦ rw e refl ]

-- The dialog opens on some lists, and then its controls choose among what these offer. Whenever
-- "Create job" can be pressed, a press sends one request, for a job with the trimmed name, the
-- repository, one source and, if its box is ticked, a daily schedule. The name is not empty, the
-- repository is one of the list, and so is the source: a database by `databaseId`, or a folder by
-- `folderId`, as the kind says.
pub submit-IsComplete :
    (prefer : String) (l : Lists) (d : Dialog) (is : List Input)
    → AreChoices l is
    → submit_disabled (inputs (opened prefer l d) is) ≡ false
    → let now = inputs (opened prefer l d) is in
      ((submit now).1 ≡ send (create_call now) ∷ [])
      × (truthy (trim now.name) ≡ true)
      × (any (λ i. i == now.repository_id) l.repositories ≡ true)
      × (any (λ i. i == source_id now) (sources l now) ≡ true)
unfolding submit_disabled
submit-IsComplete prefer l d is h enabled =
    let now = inputs (opened prefer l d) is in
    let o = inputs-IsOffered l is (opened prefer l d) h (opened-IsOffered prefer l d) in
    let (named, source, repository) =
      enabled-truthy now.busy (trim now.name) (source_id now) now.repository_id enabled in
    (submit-sent now, named, o.2 repository, source-IsListed l now o source)

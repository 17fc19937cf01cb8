-- ===== src/Activity.antt =====
-- The activity page (ui/src/routes/activity.jsx): its filters, the page of the history, and the
-- request for it. A step is an event and then the effects that it sets off, until none is due.
pub mod Laws
use restic_golang.Api.Endpoints.{query}
use restic_golang.Api.Json.{Value, str, num}
use restic_golang.Base.{
  ℕ, ◌-◌, ◌*◌, String, Bool, Option, none, some, List, [], ◌∷◌, if◌then◌else◌, ◌==◌, ltb,
}
use restic_golang.Pagination.{page_size, pages}
use restic_golang.Runs.{Table}

abbrev pub kind_filters : Table
kind_filters =
    ("all", "All operations")
    ∷ ("backup", "Backups")
    ∷ ("retention", "Retention")
    ∷ ("forget", "Forget")
    ∷ ("restore", "Restores")
    ∷ ("download", "Downloads")
    ∷ ("init", "Initializations")
    ∷ ("check", "Checks")
    ∷ ("speedtest", "Speed tests")
    ∷ []

abbrev pub status_filters : Table
status_filters =
    ("all", "Any outcome")
    ∷ ("success", "Succeeded")
    ∷ ("success_warnings", "With warnings")
    ∷ ("failed", "Failed")
    ∷ ("canceled", "Stopped")
    ∷ ("interrupted", "Interrupted")
    ∷ []

-- `total` is that of the history that was loaded last, if one was.
pub record Activity : Type 0 where
  pub kind : String
  pub status : String
  pub page : ℕ
  pub total : Option ℕ

abbrev pub initial : Activity
initial = record { kind = "all"; status = "all"; page = 1; total = none }

-- The parameters of `Runs.list` in the loader.
unfoldable pub params : Activity → List (String × Value)
params s =
    ("status", str (if s.status == "all" then "finished" else s.status))
    ∷ ("kind", str (if s.kind == "all" then "" else s.kind))
    ∷ ("limit", num page_size)
    ∷ ("offset", num ((s.page - 1) * page_size))
    ∷ []

-- The effect on `[data, page]`.
unfoldable pub clamp : Option ℕ → Activity → Activity
clamp none s = s
clamp (some total) s =
    if ltb (pages total page_size) s.page then record s { page = pages total page_size } else s

-- The effect on `[kind, status]`, after one of them changed.
unfoldable pub first_page : Activity → Activity
first_page s = record s { page = 1 }

pub data Event : Type 0 where
  choose_kind choose_status : String → Event
  choose_page : ℕ → Event
  loaded : (total : ℕ) → Event

unfoldable pub changed : Activity → Event → Activity
unfolding first_page
changed s (choose_kind k) = if s.kind == k then s else first_page (record s { kind = k })
changed s (choose_status x) = if s.status == x then s else first_page (record s { status = x })
changed s (choose_page n) = record s { page = n }
changed s (loaded total) = record s { total = some total }

unfoldable pub step : Activity → Event → Activity
unfolding changed clamp
step s e = clamp (changed s e).total (changed s e)

unfoldable pub steps : Activity → List Event → Activity
unfolding step
steps s [] = s
steps s (e ∷ es) = steps (step s e) es

-- ===== src/Tests/Days.antt =====
-- The schedule form at concrete inputs.
use restic_golang.Base.{ℕ, ◌≡◌, false, not, [], ◌∷◌, arith, eqb, if◌then◌else◌, List}
use restic_golang.Schedule.{default_form}
use restic_golang.Schedule.Editor.{Editor, toggle_day}
use restic_golang.Schedule.Laws.{has, Rising, toggle_day_lem}

abbrev days : List ℕ
days = 1 ∷ 3 ∷ []

abbrev editor : Editor
editor = record { form = record default_form { weekdays = days }; busy = false; error = "" }

toggle_day_lem_example :
    Rising (toggle_day 2 editor).form.weekdays
    × ((d : ℕ)
        → has d (toggle_day 2 editor).form.weekdays
          ≡ (if eqb d 2 then not (has d days) else has d days))
toggle_day_lem_example = toggle_day_lem 2 editor ((omega arith, tt), (tt, tt))

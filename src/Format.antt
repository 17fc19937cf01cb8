-- ===== src/Format.antt =====
-- Formatting (ui/src/lib/format.js). Sizes are natural numbers of bytes and times natural numbers of
-- milliseconds. The quotients are exact: a double holds n / 1024 ^ k exactly below 2 ^ 53.
pub mod Laws
use restic_golang.Base.{
  ℕ, zero, suc, ◌+◌, ◌-◌, ◌*◌, ◌/◌, ◌%◌, ◌^◌, String, Bool, true, false, Option, none, some, List,
  [], ◌∷◌, if◌then◌else◌, ◌==◌, ltb, leb, concat, join, show, truthy, keep,
}
use Prim.Native.String

-- What the browser provides: the instant of a date text (`none` is NaN), the present, and the
-- texts of the user's locale.
pub record Clock : Type 0 where
  pub instant : String → Option ℕ
  pub now : ℕ
  pub locale_time : ℕ → String
  pub locale_date : ℕ → String
  pub locale_number : ℕ → String

-- `(num / den).toFixed(1)` and `.toFixed(2)`: the nearest decimal, a tie upwards.
unfoldable pub scaled : ℕ → ℕ → ℕ → ℕ
scaled factor num den = (2 * num * factor + den) / (2 * den)

unfoldable pub to_fixed_1 : ℕ → ℕ → String
unfolding scaled
to_fixed_1 num den = let m = scaled 10 num den in concat (show (m / 10) ∷ "." ∷ show (m % 10) ∷ [])

unfoldable pub to_fixed_2 : ℕ → ℕ → String
unfolding scaled
to_fixed_2 num den =
    let m = scaled 100 num den in
    concat (show (m / 100) ∷ "." ∷ show (m / 10 % 10) ∷ show (m % 10) ∷ [])

-- The loop of `fmtBytes`: `n` over `den` is the quotient so far, in `unit`.
unfoldable pub unit_loop : ℕ → ℕ → String → List String → ℕ × String
unit_loop n den unit [] = (den, unit)
unit_loop n den unit (u ∷ us) =
    if leb (den * 1024) n then unit_loop n (den * 1024) u us else (den, unit)

-- The unit of a size of at least 1024 bytes; the first round of the loop is always made.
unfoldable pub unit_of : ℕ → ℕ × String
unfolding unit_loop
unit_of n = unit_loop n 1024 "KB" ("MB" ∷ "GB" ∷ "TB" ∷ "PB" ∷ [])

unfoldable pub in_unit : ℕ → ℕ × String → String
unfolding to_fixed_1 to_fixed_2
in_unit n (den, unit) =
    concat ((if ltb n (10 * den) then to_fixed_2 n den else to_fixed_1 n den) ∷ " " ∷ unit ∷ [])

unfoldable pub fmt_bytes : ℕ → String
unfolding unit_of in_unit
fmt_bytes n = if ltb n 1024 then concat (show n ∷ " B" ∷ []) else in_unit n (unit_of n)

-- `Math.round(a / b)`
unfoldable pub round : ℕ → ℕ → ℕ
round a b = (2 * a + b) / (2 * b)

-- A duration in milliseconds.
unfoldable pub fmt_dur : ℕ → String
unfolding round to_fixed_1
fmt_dur ms =
    let m = ms / 60000 in
    let s = round (ms % 60000) 1000 in
    if ltb ms 60000
    then concat (to_fixed_1 ms 1000 ∷ "s" ∷ [])
    else if ltb m 60
    then concat (show m ∷ "m " ∷ show s ∷ "s" ∷ [])
    else concat (show (m / 60) ∷ "h " ∷ show (m % 60) ∷ "m" ∷ [])

-- `if (!iso) ...; if (isNaN(d.getTime())) ...`, and otherwise what `f` makes of the instant.
unfoldable pub of_instant : Clock → String → (ℕ → String) → String
of_instant clock iso f =
    if iso == "" then "—" else elim (clock.instant iso) [ none ↦ iso | some t ↦ f t ]

unfoldable pub fmt_time : Clock → String → String
unfolding of_instant
fmt_time clock iso = of_instant clock iso clock.locale_time

-- The rungs of `fmtRelative`, from the milliseconds between the instant and now.
unfoldable pub rung : ℕ → Option String
unfolding round
rung a =
    if ltb a 60000
    then some (concat (show (round a 1000) ∷ "s" ∷ []))
    else if ltb a 3600000
    then some (concat (show (round a 60000) ∷ "m" ∷ []))
    else if ltb a 86400000
    then some (concat (show (round a 3600000) ∷ "h" ∷ []))
    else if ltb a 604800000
    then some (concat (show (round a 86400000) ∷ "d" ∷ []))
    else none

unfoldable pub relative : Clock → ℕ → String
unfolding rung
relative clock t =
    let past = leb t clock.now in
    let a = (clock.now - t) + (t - clock.now) in
    if ltb a 10000 then (if past then "just now" else "soon") else elim (rung a) [
      | none ↦ clock.locale_date t
      | some r ↦ if past then concat (r ∷ " ago" ∷ []) else concat ("in " ∷ r ∷ [])
    ]

unfoldable pub fmt_relative : Clock → String → String
unfolding of_instant relative
fmt_relative clock iso = of_instant clock iso (relative clock)

-- `Math.max(0, end - start)`; `NaN` reads as 0 in `fmtDur`.
unfoldable pub span : Option ℕ → Option ℕ → ℕ
span none _ = 0
span (some _) none = 0
span (some start) (some end) = end - start

-- `runDuration` by the run's two dates; a run that is not there has none.
unfoldable pub run_duration : Clock → String → String → String
unfolding span fmt_dur
run_duration clock started_at finished_at =
    if started_at == ""
    then "—"
    else fmt_dur (
        span (clock.instant started_at)
          (if finished_at == "" then some clock.now else clock.instant finished_at))

-- `s.slice(0, n)`
unfoldable pub prefix : ℕ → String → String
prefix zero s = ""
prefix (suc n) String.[] = String.[]
prefix (suc n) (String.◌∷◌ c s) = String.◌∷◌ c (prefix n s)

unfoldable pub short_id : String → String
unfolding prefix
short_id id = prefix 8 id

unfoldable pub fmt_count : Clock → ℕ → String
fmt_count clock n = clock.locale_number n

-- `repoLocation` of a repository that is there, by its four fields.
unfoldable pub repo_location : (backend_type endpoint bucket local_path : String) → String
repo_location backend_type endpoint bucket local_path =
    if backend_type == "S3" then join "/" (keep truthy (endpoint ∷ bucket ∷ [])) else local_path

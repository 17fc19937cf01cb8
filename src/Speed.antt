-- ===== src/Speed.antt =====
-- Speed tests in words (ui/src/lib/speed.js). Speeds are natural numbers of bytes per second, and a
-- duration is a fraction `num / den` of seconds.
use restic_golang.Base.{
  ℕ, ◌+◌, ◌*◌, max, String, Option, none, some, [], ◌∷◌, if◌then◌else◌, eqb, ltb, leb, concat, show,
}
use restic_golang.Format.{fmt_bytes, round, to_fixed_1}
use restic_golang.Runs.{Speed}

unfoldable pub fmt_speed : ℕ → String
unfolding fmt_bytes
fmt_speed bps = concat (fmt_bytes bps ∷ "/s" ∷ [])

pub data Tone : Type 0 where
  success warning destructive : Tone

unfoldable pub speed_tone : ℕ → Tone
speed_tone score = if leb 60 score then success else if leb 40 score then warning else destructive

-- A duration of `num / den` seconds.
pub record Seconds : Type 0 where
  pub num : ℕ
  pub den : ℕ

-- The overhead is in milliseconds; the sum is over the common denominator.
unfoldable pub estimate_seconds : (bytes bps overhead : ℕ) → Option Seconds
estimate_seconds bytes bps overhead =
    if eqb bps 0
    then none
    else some (record { num = overhead * bps + 1000 * bytes; den = 1000 * bps })

-- `h < 10 ? h.toFixed(1) : Math.round(h)`
unfoldable pub hours : ℕ → ℕ → String
unfolding to_fixed_1 round
hours num den = if ltb num (10 * den) then to_fixed_1 num den else show (round num den)

unfoldable pub fmt_seconds : Seconds → String
unfolding round hours
fmt_seconds s =
    if ltb s.num (60 * s.den)
    then concat ("about " ∷ show (max 1 (round s.num s.den)) ∷ " s" ∷ [])
    else if ltb s.num (3600 * s.den)
    then concat ("about " ∷ show (round s.num (60 * s.den)) ∷ " min" ∷ [])
    else concat ("about " ∷ hours s.num (3600 * s.den) ∷ " h" ∷ [])

unfoldable pub fmt_estimate : Option Seconds → String
unfolding fmt_seconds
fmt_estimate none = "—"
fmt_estimate (some s) = fmt_seconds s

unfoldable pub speed_summary : Option Speed → Option String
unfolding fmt_speed
speed_summary none = none
speed_summary (some sp) = some (
    concat (
      "Score "
      ∷ show sp.score
      ∷ " · "
      ∷ sp.rating
      ∷ " · up "
      ∷ fmt_speed sp.upload
      ∷ " · down "
      ∷ fmt_speed sp.download
      ∷ []))

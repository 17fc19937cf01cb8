-- ===== src/Format/Laws.antt =====
-- About `fmtBytes` and `fmtDur` of ui/src/lib/format.js.
use restic_golang.Base.{
  ℕ, suc, ◌+◌, ◌*◌, ◌/◌, ◌%◌, ◌^◌, ◌≤◌, ◌<◌, ◌≡◌, ◌⊎◌, inl, inr, String, true, false, List, [], ◌∷◌,
  arith, ltb, leb, concat, show, length, Bool-cases, leb→le,
}
use native.Mathlib.Nat.{pow-suc}
use restic_golang.Format.{unit_loop, unit_of, round, fmt_dur}

power_step : (den k x : ℕ) → x ≡ den * 1024 * 1024 ^ k → x ≡ den * 1024 ^ suc k
power_step den k x h = rw (pow-suc 1024 k) (grind arith)

-- The loop stops at a unit `d` that the size reaches, and whose thousandfold it does not reach or
-- which is the last of the `k` units behind `den`.
abbrev pub Stops : ℕ → ℕ → ℕ → ℕ → Type 0
Stops n den k d = (d ≤ n) × ((n < d * 1024) ⊎ (d ≡ den * 1024 ^ k))

Stops-step : (n den k d : ℕ) → Stops n (den * 1024) k d → Stops n den (suc k) d
Stops-step n den k d (h, inl a) = (h, inl a)
Stops-step n den k d (h, inr b) = (h, inr (power_step den k d b))

unit_loop-Stops :
    (us : List String) (n den : ℕ) (unit : String)
    → den ≤ n
    → Stops n den (length us) (unit_loop n den unit us).0
unfolding unit_loop
unit_loop-Stops [] n den unit h = (h, inr (omega arith))
unit_loop-Stops (u ∷ us) n den unit h = elim (Bool-cases (leb (den * 1024) n)) [
  | inl big ↦ rw big (Stops-step n den _ _ (unit_loop-Stops us n (den * 1024) u (leb→le _ _ big)))
  | inr small ↦ rw small (h, inl (ground arith))
]

-- A size of at least 1024 bytes is shown in the unit that it reaches and whose thousandfold it does
-- not reach, or in the last one, 1024 ^ 5 bytes: the number shown is at least 1.
pub unit_of_bounds :
    (n : ℕ)
    → 1024 ≤ n
    → ((unit_of n).0 ≤ n) × ((n < (unit_of n).0 * 1024) ⊎ ((unit_of n).0 ≡ 1024 ^ 5))
unfolding unit_of
unit_of_bounds n h = unit_loop-Stops ("MB" ∷ "GB" ∷ "TB" ∷ "PB" ∷ []) n 1024 "KB" h

-- A duration of a minute to an hour is shown in whole minutes and seconds, which are rounded apart:
-- when at most half a second is missing to the next minute, the seconds read 60.
pub fmt_dur-sixty :
    (m r : ℕ)
    → 1 ≤ m
    → m < 60
    → 59500 ≤ r
    → r < 60000
    → fmt_dur (m * 60000 + r) ≡ concat (show m ∷ "m " ∷ "60" ∷ "s" ∷ [])
unfolding fmt_dur round show
fmt_dur-sixty m r a b c d =
    let long : ltb (m * 60000 + r) 60000 ≡ false = ground arith in
    let hour : ltb m 60 ≡ true = ground arith in
    let minutes : (m * 60000 + r) / 60000 ≡ m = omega arith in
    let seconds : round ((m * 60000 + r) % 60000) 1000 ≡ 60 = omega arith in
    rw (long, minutes, hour, seconds)

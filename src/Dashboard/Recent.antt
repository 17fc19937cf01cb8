-- ===== src/Dashboard/Recent.antt =====
-- About `mergeRecentBackupFailures` of ui/src/routes/dashboard.jsx.
use restic_golang.Base.{
  ℕ, zero, suc, ◌≤◌, ◌<◌, ◌≡◌, refl, inl, inr, String, Bool, true, false, ◌||◌, List, [], ◌∷◌, ◌++◌,
  arith, if◌then◌else◌, ◌==◌, eq_iff, any, sort, All, All-map, All-of_sort, length, Bool-cases,
}
use restic_golang.Dashboard.Failures.{unique_from, newest_first, merge_recent_backup_failures}
use restic_golang.Format.{Clock}
use restic_golang.Runs.{Run}

abbrev pub is_in : String → List String → Bool
is_in id ids = any (λ i. i == id) ids

-- No run's id is in the list, and no two runs have one id.
abbrev pub Fresh : List String → List Run → Type 0
Fresh seen [] = Unit
Fresh seen (r ∷ rs) = (is_in r.id seen ≡ false) × Fresh (r.id ∷ seen) rs

-- Some run of the list has the id, or it is one of `seen`.
abbrev pub is_shown : List String → List Run → String → Bool
is_shown seen shown id = is_in id seen || any (λ r. r.id == id) shown

unique_from-Fresh :
    (room : ℕ) (seen : List String) (runs : List Run) → Fresh seen (unique_from room seen runs)
unfolding unique_from
unique_from-Fresh zero seen runs = tt
unique_from-Fresh (suc room) seen [] = tt
unique_from-Fresh (suc room) seen (r ∷ runs) = elim (Bool-cases (is_in r.id seen)) [
  | inl h ↦ rw h (unique_from-Fresh (suc room) seen runs)
  | inr h ↦ rw h (h, unique_from-Fresh room (r.id ∷ seen) runs)
]

length-unique_from :
    (room : ℕ) (seen : List String) (runs : List Run) → length (unique_from room seen runs) ≤ room
unfolding unique_from
length-unique_from zero seen runs = omega arith
length-unique_from (suc room) seen [] = omega arith
length-unique_from (suc room) seen (r ∷ runs) =
    ground
      (arith, length-unique_from (suc room) seen runs, length-unique_from room (r.id ∷ seen) runs)

IsShown : List String → List Run → Run → Type 0
IsShown seen shown r = is_shown seen shown r.id ≡ true

-- What is shown behind `r`, with `r` seen, is shown by `r` and the rest.
shown-cons :
    (seen : List String) (r : Run) (rest : List Run) (x : Run)
    → is_shown (r.id ∷ seen) rest x.id ≡ true
    → is_shown seen (r ∷ rest) x.id ≡ true
shown-cons seen r rest x h = ground arith

shown-seen :
    (seen : List String) (shown : List Run) (r : Run)
    → is_in r.id seen ≡ true
    → is_shown seen shown r.id ≡ true
shown-seen seen shown r h = ground arith

shown_self : (seen : List String) (r : Run) (rest : List Run) → is_shown seen (r ∷ rest) r.id ≡ true
shown_self seen r rest = ground (arith, eq_iff r.id r.id)

IsShown-step :
    (room : ℕ) (seen : List String) (r : Run) (runs skipped taken : List Run) (b : Bool)
    → is_in r.id seen ≡ b
    → (length skipped < suc room → All (IsShown seen skipped) runs)
    → (length taken < room → All (IsShown (r.id ∷ seen) taken) runs)
    → length (if b then skipped else r ∷ taken) < suc room
    → All (IsShown seen (if b then skipped else r ∷ taken)) (r ∷ runs)
unfolding IsShown
IsShown-step room seen r runs skipped taken true e f g k = (shown-seen seen skipped r e, f k)
IsShown-step room seen r runs skipped taken false e f g k = (
  shown_self seen r taken,
  All-map (IsShown (r.id ∷ seen) taken) (IsShown seen (r ∷ taken)) (shown-cons seen r taken) runs
      (g (omega (arith, k))),
)

-- As long as there is room, every run is shown.
unique_from-All :
    (room : ℕ) (seen : List String) (runs : List Run)
    → length (unique_from room seen runs) < room
    → All (IsShown seen (unique_from room seen runs)) runs
unfolding unique_from IsShown
unique_from-All zero seen runs h = absurd (omega (arith, h))
unique_from-All (suc room) seen [] h = tt
unique_from-All (suc room) seen (r ∷ runs) h =
    IsShown-step room seen r runs _ _ (is_in r.id seen) refl (unique_from-All (suc room) seen runs)
      (unique_from-All room (r.id ∷ seen) runs) h

-- The list of recent failures holds five runs at most and none twice; and when it holds fewer, every
-- failed and every interrupted run that was fetched is in it.
pub merge_recent_backup_failures_lem :
    (clock : Clock) (failed interrupted : List Run)
    → Fresh [] (merge_recent_backup_failures clock failed interrupted)
      × (length (merge_recent_backup_failures clock failed interrupted) ≤ 5)
      × (length (merge_recent_backup_failures clock failed interrupted) < 5
          → All
              (λ r.
                any (λ x. x.id == r.id) (merge_recent_backup_failures clock failed interrupted)
                ≡ true)
              (failed ++ interrupted))
unfolding merge_recent_backup_failures IsShown
merge_recent_backup_failures_lem clock failed interrupted =
    let sorted = sort (newest_first clock) (failed ++ interrupted) in
    (
      unique_from-Fresh 5 [] sorted,
      length-unique_from 5 [] sorted,
      λ h.
          All-of_sort (newest_first clock) _ (failed ++ interrupted)
            (unique_from-All 5 [] sorted h),
    )

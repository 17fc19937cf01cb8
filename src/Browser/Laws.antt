-- ===== src/Browser/Laws.antt =====
-- About the selection and the restores of ui/src/components/snapshot-browser.jsx.
use restic_golang.Base.{
  ℕ, ◌<◌, ◌≡◌, refl, ◌⊎◌, inl, inr, String, Bool, true, false, not, ◌&&◌, ◌||◌, Option, none, some,
  List, [], ◌∷◌, ◌++◌, arith, if◌then◌else◌, ◌==◌, eq_iff, ltb, ltb→lt, any, all, keep, find,
  present, trim, length, Bool-cases,
}
use restic_golang.Browser.{
  Browser, Effect, restore_to, within, common_root, destination, destination_of, start_restore,
  stops, restore_with, has, toggled, toggle,
}

module _ {ℓ} {A : Type ℓ} (p : A → Bool) where
  find_lem : (xs : List A) (x : A) → find p xs ≡ some x → p x ≡ true
  find_lem [] x e = cc
  find_lem (y ∷ ys) x e = ground (arith, find_lem ys x)

find-any :
    (p : String → Bool) (xs : List String) (x : String)
    → find p xs ≡ some x
    → any (λ y. y == x) xs ≡ true
find-any p [] x e = cc
find-any p (y ∷ ys) x e = ground (arith, find-any p ys x, eq_iff y x)

-- `root` is a folder of the snapshot, and every selected path is in it; something is selected.
abbrev pub Holds : List String → List String → String → Type 0
Holds paths selected root =
    (any (λ p. p == root) paths ≡ true)
    × (all (λ p. within p root) selected ≡ true)
    × (0 < length selected)

common_root-Holds :
    (paths selected : List String) (root : String)
    → common_root paths selected ≡ some root
    → Holds paths selected root
unfolding common_root
common_root-Holds paths selected root e =
    let both =
      find_lem (λ r. ltb 0 (length selected) && all (λ p. within p r) selected) paths root e in
    (find-any _ paths root e, ground arith, ltb→lt 0 (length selected) (ground arith))

find-none :
    (p : String → Bool) (xs : List String) (x : String)
    → find p xs ≡ none
    → any (λ y. y == x) xs ≡ true
    → p x ≡ false
find-none p [] x e h = cc
find-none p (y ∷ ys) x e h = ground (arith, find-none p ys x, eq_iff y x)

lt→ltb : (n : ℕ) → 0 < n → ltb 0 n ≡ true
lt→ltb n h = ground arith

no_common_root :
    (paths selected : List String) (root : String)
    → common_root paths selected ≡ none
    → ¬ Holds paths selected root
unfolding common_root
no_common_root paths selected root e (h, k, l) =
    let test = λ (r : String). ltb 0 (length selected) && all (λ p. within p r) selected in
    let fails = find-none test paths root e h in
    let some_selected = lt→ltb (length selected) l in ground arith

-- Where a restore goes, and whether it stops containers: in place, to a folder that holds the
-- selection, and then the box and the containers decide; or, where that is off or no folder holds
-- the selection, to what was typed.
abbrev pub IsRight : (paths containers : List String) → Browser → String → Bool → Type 0
IsRight paths containers b target stop =
    ((b.in_place ≡ true)
      × Holds paths b.selected target
      × (stop ≡ (b.stop_site && ltb 0 (length containers))))
    ⊎ (((b.in_place ≡ false) ⊎ ((root : String) → ¬ Holds paths b.selected root))
        × (target ≡ trim b.target)
        × (stop ≡ false))

destination-IsRight :
    (paths containers : List String) (b : Browser) (in_place : Bool) (r : Option String)
    → b.in_place ≡ in_place
    → common_root paths b.selected ≡ r
    → IsRight paths containers b
        (destination_of in_place r b.target)
        (in_place && (present r && (b.stop_site && ltb 0 (length containers))))
unfolding destination_of
destination-IsRight paths containers b true none i e =
    inr (inr (λ root. no_common_root paths b.selected root e), refl, refl)
destination-IsRight paths containers b true (some root) i e =
    inl (i, common_root-Holds paths b.selected root e, refl)
destination-IsRight paths containers b false none i e = inr (inl i, refl, refl)
destination-IsRight paths containers b false (some root) i e = inr (inl i, refl, refl)

-- What is sent: the selected paths are restored to `target`, if that is not empty.
abbrev pub sent_to : Browser → String → Bool → List Effect
sent_to b target stop = if target == "" then [] else restore_to target b.selected stop ∷ []

sent_lem :
    (target : String) (stop : Bool) (b : Browser)
    → (restore_with target stop b).1 ≡ sent_to b target stop
unfolding restore_with
sent_lem target stop b = elim (Bool-cases (target == "")) [ inl e ↦ rw e refl | inr e ↦ rw e refl ]

-- A restore asks for exactly the selected paths, and for nothing while its destination is empty. In
-- place it goes to a folder that the snapshot has and in which every selected path lies, and stops
-- containers exactly if there are some and the box is ticked. Where that is switched off, or no such
-- folder is there, it goes to the destination that was typed, and stops none.
pub start_restore_lem :
    (paths containers : List String) (b : Browser)
    → (target : String) × (stop : Bool) × IsRight paths containers b target stop
      × ((start_restore paths containers b).1 ≡ sent_to b target stop)
unfolding start_restore destination stops
start_restore_lem paths containers b =
    let target = destination paths b in
    let stop = stops paths containers b in
    (
      target,
      stop,
      destination-IsRight paths containers b b.in_place (common_root paths b.selected) refl refl,
      sent_lem target stop b,
    )

-- Membership in the selection.
has-append : (q p : String) (xs : List String) → has q (xs ++ p ∷ []) ≡ (has q xs || p == q)
unfolding has
has-append q p [] = ground arith
has-append q p (x ∷ xs) = ground (arith, has-append q p xs)

has-keep :
    (q p : String) (xs : List String)
    → has q (keep (λ x. not (x == p)) xs) ≡ (not (q == p) && has q xs)
unfolding has
has-keep q p [] = ground arith
has-keep q p (x ∷ xs) = ground (arith, has-keep q p xs, eq_iff x q, eq_iff x p, eq_iff q p)

-- Ticking or unticking a path changes whether that path is selected, and does so for no other one.
pub toggle_lem :
    (p q : String) (b : Browser)
    → has q (toggle p b).selected ≡ (if q == p then not (has p b.selected) else has q b.selected)
unfolding toggle toggled
toggle_lem p q b =
    ground (arith, has-keep q p b.selected, has-append q p b.selected, eq_iff q p, eq_iff p q)

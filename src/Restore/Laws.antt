-- ===== src/Restore/Laws.antt =====
-- About the dialog of ui/src/components/db-restore-dialog.jsx.
use restic_golang.Base.{
  ◌≡◌, refl, sym, ap, ◌⊎◌, inl, inr, String, Bool, true, false, Option, none, some, List, [], ◌∷◌,
  arith, if◌then◌else◌, ◌==◌, eq_iff, find, All, keep, trim, each_branch, Bool-cases, ◌≢◌, ◌∙◌,
}
use mathlib.Core.Path.{subst}
use restic_golang.Restore.Database.{
  Source, Dialog, Input, listed, input, source, source_in, target, is_ready, start_with, start,
  Effect, restore_db, choose_source, choose_mode, type_into, type_name, tick_safety,
}

-- `s` is one of a list.
abbrev pub IsIn : Source → List Source → Type 0
IsIn s [] = ¬ Unit
IsIn s (x ∷ xs) = (x ≡ s) ⊎ IsIn s xs

-- One of the server's databases, whose dumps are of the engine.
abbrev pub IsOffered : String → List Source → Source → Type 0
IsOffered engine databases s = (s.engine ≡ engine) × IsIn s databases

-- What a dialog knows of the sources.
abbrev Knows : String → List Source → Option (List Source) → Type 0
Knows engine databases none = Unit
Knows engine databases (some list) = All (IsOffered engine databases) list

keep-IsOffered :
    (engine : String) (databases xs : List Source)
    → ((s : Source) → IsIn s xs → IsIn s databases)
    → All (IsOffered engine databases) (keep (λ s. s.engine == engine) xs)
keep-IsOffered engine databases [] f = tt
keep-IsOffered engine databases (x ∷ xs) f =
    let rest = keep-IsOffered engine databases xs (λ s h. f s (inr h)) in
    each_branch (All (IsOffered engine databases)) (x.engine == engine)
      {x = x ∷ keep (λ s. s.engine == engine) xs} {y = keep (λ s. s.engine == engine) xs}
      (λ e. (((eq_iff x.engine engine).0 e, f x (inl refl)), rest)) (λ _. rest)

listed-Knows :
    (engine default_id dumped : String) (databases : List Source) (d : Dialog)
    → Knows engine databases (listed engine default_id dumped databases d).sources
unfolding listed
listed-Knows engine default_id dumped databases d =
    keep-IsOffered engine databases databases (λ _ h. h)

unfoldable pub inputs : List Input → Dialog → Dialog
inputs [] d = d
inputs (i ∷ is) d = inputs is (input i d)

input-sources : (i : Input) (d : Dialog) → (input i d).sources ≡ d.sources
unfolding input
input-sources (choose_source id) d = refl
input-sources (choose_mode m) d = refl
input-sources (type_into t) d = refl
input-sources (type_name t) d = refl
input-sources (tick_safety on) d = refl

inputs-sources : (is : List Input) (d : Dialog) → (inputs is d).sources ≡ d.sources
unfolding inputs
inputs-sources [] d = refl
inputs-sources (i ∷ is) d = inputs-sources is (input i d) ∙ input-sources i d

find_if :
    (P : Source → Type 0) (b : Bool) (y x : Source) (rest : Option Source)
    → (if b then some y else rest) ≡ some x
    → P y
    → (rest ≡ some x → P x)
    → P x
find_if P true y x rest e h f = subst P (same e) h
  where
    same : some y ≡ some x → y ≡ x
    same q = cc
find_if P false y x rest e h f = f e

find-All :
    (P : Source → Type 0) (p : Source → Bool) (xs : List Source) (x : Source)
    → find p xs ≡ some x
    → All P xs
    → P x
find-All P p [] x e h = absurd (none_ne x e)
  where
    none_ne : (y : Source) → ¬ (none ≡ some y)
    none_ne y q = cc
find-All P p (y ∷ ys) x e (h, hs) =
    find_if P (p y) y x (find p ys) e h (λ q. find-All P p ys x q hs)

find-holds : (p : Source → Bool) (xs : List Source) (x : Source) → find p xs ≡ some x → p x ≡ true
find-holds p [] x e = cc
find-holds p (y ∷ ys) x e = ground (arith, find-holds p ys x)

-- The source that a dialog has chosen: offered, with the id of the form.
source_in-IsOffered :
    (engine id : String) (databases : List Source) (o : Option (List Source)) (s : Source)
    → Knows engine databases o
    → source_in id o ≡ some s
    → IsOffered engine databases s × (s.id ≡ id)
unfolding source_in
source_in-IsOffered engine id databases none s h e = absurd (none_ne s e)
  where
    none_ne : (y : Source) → ¬ (none ≡ some y)
    none_ne y q = cc
source_in-IsOffered engine id databases (some list) s h e = (
  find-All (IsOffered engine databases) (λ x. x.id == id) list s e h,
  (eq_iff s.id id).0 (find-holds (λ x. x.id == id) list s e),
)

-- A restore of the dump into `s`: next to its database, by a name that was given, or over it, by
-- an empty `into`, and then the name was typed.
abbrev pub Restores : Source → Dialog → List Effect → Type 0
Restores s d sent =
    ((d.mode ≡ "copy") × (trim d.into ≢ "") × (sent ≡ restore_db s.id (trim d.into) d.safety ∷ []))
    ⊎ ((d.mode ≢ "copy") × (d.typed ≡ s.database) × (sent ≡ restore_db s.id "" d.safety ∷ []))

-- Why nothing is sent for `s`: there is no name to restore to, or the name was not typed.
abbrev pub IsHeld : Source → Dialog → Type 0
IsHeld s d = (target s d ≡ "") ⊎ ((d.mode ≢ "copy") × (d.typed ≢ s.database))

-- The outcome of a start: a restore into the chosen one of the databases that are of the dump's
-- engine, or nothing.
abbrev pub IsGuarded : String → List Source → Dialog → List Effect → Type 0
IsGuarded engine databases d sent =
    ((s : Source) × IsOffered engine databases s × (s.id ≡ d.source_id) × Restores s d sent)
    ⊎ ((sent ≡ []) × ((s : Source) → source d ≡ some s → IsHeld s d))

copy-target : (s : Source) (d : Dialog) → d.mode ≡ "copy" → target s d ≡ trim d.into
unfolding target
copy-target s d e = rw e refl

ready-Restores :
    (s : Source) (d : Dialog)
    → is_ready s d ≡ true
    → Restores s d (restore_db s.id (if d.mode == "copy" then target s d else "") d.safety ∷ [])
unfolding is_ready
ready-Restores s d h = elim (Bool-cases (d.mode == "copy")) [
  | inl e ↦
      let copy = (eq_iff d.mode "copy").0 e in
      let same = copy-target s d copy in
      inl (
        copy,
        (λ q. ground (arith, eq_iff (target s d) "", same ∙ q)),
        rw e (ap (λ t. restore_db s.id t d.safety ∷ []) same),
      )
  | inr e ↦ inr (
    (λ q. ground (arith, eq_iff d.mode "copy")),
    ground (arith, eq_iff d.typed s.database),
    rw e refl,
  )
]

not_ready-IsHeld : (s : Source) (d : Dialog) → is_ready s d ≡ false → IsHeld s d
unfolding is_ready
not_ready-IsHeld s d h = elim (Bool-cases (target s d == "")) [
  | inl e ↦ inl ((eq_iff (target s d) "").0 e)
  | inr e ↦ inr (
    (λ q. ground (arith, eq_iff d.mode "copy")),
    (λ q. ground (arith, eq_iff d.typed s.database)),
  )
]

start_with-IsGuarded :
    (engine : String) (databases : List Source) (d : Dialog) (o : Option Source)
    → source d ≡ o
    → ((s : Source) → o ≡ some s → IsOffered engine databases s × (s.id ≡ d.source_id))
    → IsGuarded engine databases d (start_with o d).1
unfolding start_with
start_with-IsGuarded engine databases d none q h = inr (refl, λ s e. absurd (none_ne s (sym q ∙ e)))
  where
    none_ne : (y : Source) → ¬ (none ≡ some y)
    none_ne y q = cc
start_with-IsGuarded engine databases d (some s) q h = elim (Bool-cases (is_ready s d)) [
  | inl ready ↦ inl (s, (h s refl).0, (h s refl).1, rw ready (ready-Restores s d ready))
  | inr not_ready ↦ inr (
    rw not_ready refl,
    λ t e. subst (λ u. IsHeld u d) (same t (sym q ∙ e)) (not_ready-IsHeld s d not_ready),
  )
]
  where
    same : (t : Source) → some s ≡ some t → s ≡ t
    same t e = cc

-- Whatever was chosen and typed once the databases were listed, a start does one of two things. It
-- asks for one restore of the dump, into the one of these databases that has the chosen id and
-- is of the dump's engine: next to it, under the name that was given, or over it, by an empty `into`,
-- and then what stands in the confirmation is that database's name. Or it sends nothing, and then a
-- source that is chosen has no name to restore to or, without the copy, its name was not typed.
pub start-IsGuarded :
    (engine default_id dumped : String) (databases : List Source) (d : Dialog) (is : List Input)
    → IsGuarded engine databases
        (inputs is (listed engine default_id dumped databases d))
        (start (inputs is (listed engine default_id dumped databases d))).1
unfolding start source
start-IsGuarded engine default_id dumped databases d is =
    let first = listed engine default_id dumped databases d in
    let e = inputs is first in
    let known =
      subst (Knows engine databases) (sym (inputs-sources is first))
        (listed-Knows engine default_id dumped databases d) in
    start_with-IsGuarded engine databases e (source e) refl
      (λ s h. source_in-IsOffered engine e.source_id databases e.sources s known h)

-- ===== src/Base/Ranks.antt =====
-- Sorting by a comparator that puts lower ranks first, and says more or less about equal ones.
use Prim.Native.Nat.{ℕ, ◌≤◌, Ordering, zero, suc}
use mathlib.Core.Path.{◌≡◌, refl, ap, sym, ◌∙◌}
use mathlib.Core.Logic.{◌≢◌}
use mathlib.Core.Bool.{Bool, true}
use mathlib.Core.List.{List, [], ◌∷◌}
use native.Mathlib.Omega.{arith}
use restic_golang.Base.Lists.{All, keep, length, take}
use restic_golang.Base.Sort.{place, insert, sort, All-insert, All-map}

module _ {ℓ} {A : Type ℓ} where
  -- No element has a lower rank than one in front of it.
  abbrev pub Ranked : (A → ℕ) → List A → Type 0
  Ranked rank [] = Unit
  Ranked rank (x ∷ xs) = All (λ y. rank x ≤ rank y) xs × Ranked rank xs

  module _ (cmp : A → A → Ordering) (rank : A → ℕ)
      (behind : (x y : A) → cmp x y ≡ Ordering.gt → rank y ≤ rank x)
      (front : (x y : A) → cmp x y ≢ Ordering.gt → rank x ≤ rank y) where
    front-All :
        (x y : A) (ys : List A)
        → rank x ≤ rank y
        → All (λ z. rank y ≤ rank z) ys
        → All (λ z. rank x ≤ rank z) (y ∷ ys)
    front-All x y ys p h =
        (p, All-map (λ z. rank y ≤ rank z) (λ z. rank x ≤ rank z) (λ z q. omega (arith, p, q)) ys h)

    Ranked-place :
        (o : Ordering) (x y : A) (ys : List A)
        → cmp x y ≡ o
        → Ranked rank (y ∷ ys)
        → Ranked rank (insert cmp x ys)
        → Ranked rank (place o x y ys (insert cmp x ys))
    unfolding place
    Ranked-place Ordering.gt x y ys e (h, s) k =
        (All-insert cmp (λ z. rank y ≤ rank z) x ys (behind x y e) h, k)
    Ranked-place Ordering.lt x y ys e (h, s) k = (front-All x y ys (front x y (λ g. cc)) h, (h, s))
    Ranked-place Ordering.eq x y ys e (h, s) k = (front-All x y ys (front x y (λ g. cc)) h, (h, s))

    insert-Ranked : (x : A) (ys : List A) → Ranked rank ys → Ranked rank (insert cmp x ys)
    unfolding insert
    insert-Ranked x [] s = (tt, tt)
    insert-Ranked x (y ∷ ys) s = Ranked-place (cmp x y) x y ys refl s (insert-Ranked x ys s.1)

    pub sort-Ranked : (xs : List A) → Ranked rank (sort cmp xs)
    unfolding sort
    sort-Ranked [] = tt
    sort-Ranked (x ∷ xs) = insert-Ranked x (sort cmp xs) (sort-Ranked xs)

  module _ (cmp : A → A → Ordering) (p : A → Bool) where
    -- How many of the elements pass a test.
    count-place :
        (o : Ordering) (x y : A) (ys later : List A)
        → length (keep p later) ≡ length (keep p (x ∷ ys))
        → length (keep p (place o x y ys later)) ≡ length (keep p (x ∷ y ∷ ys))
    unfolding place
    count-place Ordering.gt x y ys later h = ground arith
    count-place Ordering.lt x y ys later h = refl
    count-place Ordering.eq x y ys later h = refl

    count-insert :
        (x : A) (ys : List A) → length (keep p (insert cmp x ys)) ≡ length (keep p (x ∷ ys))
    unfolding insert
    count-insert x [] = refl
    count-insert x (y ∷ ys) = count-place (cmp x y) x y ys _ (count-insert x ys)

    pub count-sort : (xs : List A) → length (keep p (sort cmp xs)) ≡ length (keep p xs)
    unfolding sort
    count-sort [] = refl
    count-sort (x ∷ xs) = count-insert x (sort cmp xs) ∙ ground (arith, count-sort xs)

  keep-all : (xs : List A) → keep (λ _. true) xs ≡ xs
  keep-all [] = refl
  keep-all (x ∷ xs) = ap (x ∷◌) (keep-all xs)

  pub length-sort : (cmp : A → A → Ordering) (xs : List A) → length (sort cmp xs) ≡ length xs
  length-sort cmp xs =
      sym (ap length (keep-all (sort cmp xs)))
      ∙ count-sort cmp (λ _. true) xs
      ∙ ap length (keep-all xs)

  pub All-take {κ} : (P : A → Type κ) (n : ℕ) (xs : List A) → All P xs → All P (take n xs)
  All-take P zero xs h = tt
  All-take P (suc n) [] h = tt
  All-take P (suc n) (x ∷ xs) (p, h) = (p, All-take P n xs h)

  pub Ranked-take : (rank : A → ℕ) (n : ℕ) (xs : List A) → Ranked rank xs → Ranked rank (take n xs)
  Ranked-take rank zero xs h = tt
  Ranked-take rank (suc n) [] h = tt
  Ranked-take rank (suc n) (x ∷ xs) (p, h) =
      (All-take (λ y. rank x ≤ rank y) n xs p, Ranked-take rank n xs h)

  All-of_place {κ} :
      (P : A → Type κ) (o : Ordering) (x y : A) (ys later : List A)
      → (All P later → All P (x ∷ ys))
      → All P (place o x y ys later)
      → All P (x ∷ y ∷ ys)
  unfolding place
  All-of_place P Ordering.gt x y ys later f (p, h) = let (q, k) = f h in (q, (p, k))
  All-of_place P Ordering.lt x y ys later f h = h
  All-of_place P Ordering.eq x y ys later f h = h

  All-of_insert {κ} :
      (cmp : A → A → Ordering) (P : A → Type κ) (x : A) (ys : List A)
      → All P (insert cmp x ys)
      → All P (x ∷ ys)
  unfolding insert
  All-of_insert cmp P x [] h = h
  All-of_insert cmp P x (y ∷ ys) h = All-of_place P (cmp x y) x y ys _ (All-of_insert cmp P x ys) h

  -- What holds of the elements of the result holds of the given ones.
  pub All-of_sort {κ} :
      (cmp : A → A → Ordering) (P : A → Type κ) (xs : List A) → All P (sort cmp xs) → All P xs
  unfolding sort
  All-of_sort cmp P [] h = tt
  All-of_sort cmp P (x ∷ xs) h =
      let (p, q) = All-of_insert cmp P x (sort cmp xs) h in (p, All-of_sort cmp P xs q)

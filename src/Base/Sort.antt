-- ===== src/Base/Sort.antt =====
-- `Array.prototype.sort`: stable, by the sign of a comparator. `NaN` counts as 0, so as `eq`.
use Prim.Native.Nat.{Ordering}
use mathlib.Core.List.{List, [], ◌∷◌, Perm}
use mathlib.Core.List.Perm
use mathlib.Core.Path.{◌≡◌, refl}
use mathlib.Core.Logic.{◌≢◌}
use restic_golang.Base.Lists.{All}

module _ {ℓ} {A : Type ℓ} where
  unfoldable pub place : Ordering → A → A → List A → List A → List A
  place Ordering.gt x y ys later = y ∷ later
  place _ x y ys later = x ∷ y ∷ ys

  unfoldable pub insert : (A → A → Ordering) → A → List A → List A
  unfolding place
  insert cmp x [] = x ∷ []
  insert cmp x (y ∷ ys) = place (cmp x y) x y ys (insert cmp x ys)

  unfoldable pub sort : (A → A → Ordering) → List A → List A
  unfolding insert
  sort cmp [] = []
  sort cmp (x ∷ xs) = insert cmp x (sort cmp xs)

  -- Nothing stands behind something that the comparator puts in front of it.
  abbrev pub IsSorted : (A → A → Ordering) → List A → Type 0
  IsSorted cmp [] = Unit
  IsSorted cmp (x ∷ xs) = All (λ y. cmp x y ≢ Ordering.gt) xs × IsSorted cmp xs

  -- A comparator that orders: of two elements one is in front, and `not behind` is transitive.
  pub record IsOrder (cmp : A → A → Ordering) : Type ℓ where
    pub total : (x y : A) → cmp x y ≡ Ordering.gt → cmp y x ≢ Ordering.gt
    pub trans : (x y z : A) → cmp x y ≢ Ordering.gt → cmp y z ≢ Ordering.gt → cmp x z ≢ Ordering.gt

  place-perm :
      (o : Ordering) (x y : A) (ys later : List A)
      → Perm later (x ∷ ys)
      → Perm (place o x y ys later) (x ∷ y ∷ ys)
  unfolding place
  place-perm Ordering.gt x y ys later h = Perm.trans (Perm.cons y h) (Perm.swap x y ys)
  place-perm _ x y ys later h = Perm.refl _

  All-place {κ} :
      (P : A → Type κ) (o : Ordering) (x y : A) (ys later : List A)
      → P x
      → All P (y ∷ ys)
      → All P later
      → All P (place o x y ys later)
  unfolding place
  All-place P Ordering.gt x y ys later p h k = (h.0, k)
  All-place P _ x y ys later p h k = (p, h)

  pub All-map {κ μ} :
      (P : A → Type κ) (Q : A → Type μ)
      → ((y : A) → P y → Q y)
      → (ys : List A) → All P ys
      → All Q ys
  All-map P Q f [] _ = tt
  All-map P Q f (y ∷ ys) (p, h) = (f y p, All-map P Q f ys h)

  module _ (cmp : A → A → Ordering) where
    insert-perm : (x : A) (ys : List A) → Perm (insert cmp x ys) (x ∷ ys)
    unfolding insert
    insert-perm x [] = Perm.refl _
    insert-perm x (y ∷ ys) = place-perm (cmp x y) x y ys _ (insert-perm x ys)

    -- The result holds the same elements, as often.
    pub sort-perm : (xs : List A) → Perm (sort cmp xs) xs
    unfolding sort
    sort-perm [] = Perm.refl _
    sort-perm (x ∷ xs) = Perm.trans (insert-perm x (sort cmp xs)) (Perm.cons x (sort-perm xs))

    pub All-insert {κ} :
        (P : A → Type κ) (x : A) (ys : List A) → P x → All P ys → All P (insert cmp x ys)
    unfolding insert
    All-insert P x [] p _ = (p, tt)
    All-insert P x (y ∷ ys) p h = All-place P (cmp x y) x y ys _ p h (All-insert P x ys p h.1)

    pub All-sort {κ} : (P : A → Type κ) (xs : List A) → All P xs → All P (sort cmp xs)
    unfolding sort
    All-sort P [] _ = tt
    All-sort P (x ∷ xs) (p, h) = All-insert P x (sort cmp xs) p (All-sort P xs h)

    module _ (order : IsOrder cmp) where
      IsSorted-place :
          (o : Ordering) (x y : A) (ys : List A)
          → cmp x y ≡ o
          → IsSorted cmp (y ∷ ys)
          → IsSorted cmp (insert cmp x ys)
          → IsSorted cmp (place o x y ys (insert cmp x ys))
      unfolding place
      IsSorted-place Ordering.gt x y ys e (h, s) k =
          (All-insert (λ z. cmp y z ≢ Ordering.gt) x ys (order.total x y e) h, k)
      IsSorted-place Ordering.lt x y ys e (h, s) k =
          ((λ g. cc, All-map _ _ (λ z. order.trans x y z (λ g. cc)) ys h), (h, s))
      IsSorted-place Ordering.eq x y ys e (h, s) k =
          ((λ g. cc, All-map _ _ (λ z. order.trans x y z (λ g. cc)) ys h), (h, s))

      insert-IsSorted : (x : A) (ys : List A) → IsSorted cmp ys → IsSorted cmp (insert cmp x ys)
      unfolding insert
      insert-IsSorted x [] s = (tt, tt)
      insert-IsSorted x (y ∷ ys) s =
          IsSorted-place (cmp x y) x y ys refl s (insert-IsSorted x ys s.1)

      -- By a comparator that orders, the result is sorted.
      pub sort-IsSorted : (xs : List A) → IsSorted cmp (sort cmp xs)
      unfolding sort
      sort-IsSorted [] = tt
      sort-IsSorted (x ∷ xs) = insert-IsSorted x (sort cmp xs) (sort-IsSorted xs)

-- ===== src/Schedule/Laws.antt =====
-- About the weekdays of ui/src/lib/schedule.js and its editor (ui/src/components/schedule-editor.jsx).
use restic_golang.Base.{
  ℕ, ◌≤◌, ◌<◌, ◌≡◌, refl, ap, ◌∙◌, inl, inr, Bool, true, false, not, ◌&&◌, ◌||◌, List, [], ◌∷◌,
  ◌++◌, arith, if◌then◌else◌, eqb, leb, any, keep, compare, Ordering, sort, insert, place, IsOrder,
  IsSorted, sort-IsSorted, All, All-sort, All-keep, All-keep_self, All-map, All-insert, leb→le,
  eqb_iff, Bool-cases,
}
use restic_golang.Schedule.{by_number, sent_weekdays}
use restic_golang.Schedule.Editor.{Editor, toggled, toggle_day}

by_number-IsOrder : IsOrder by_number
unfolding by_number
by_number-IsOrder = record { total = λ x y h. ground arith; trans = λ x y z h k. ground arith }

module _ (p : ℕ → Bool) where
  any-place :
      (o : Ordering) (x y : ℕ) (ys later : List ℕ)
      → any p later ≡ (p x || any p ys)
      → any p (place o x y ys later) ≡ (p x || (p y || any p ys))
  unfolding place
  any-place Ordering.gt x y ys later h = ground arith
  any-place _ x y ys later h = refl

  any-insert : (x : ℕ) (ys : List ℕ) → any p (insert by_number x ys) ≡ (p x || any p ys)
  unfolding insert
  any-insert x [] = refl
  any-insert x (y ∷ ys) = any-place (by_number x y) x y ys _ (any-insert x ys)

  any-sort : (xs : List ℕ) → any p (sort by_number xs) ≡ any p xs
  unfolding sort
  any-sort [] = refl
  any-sort (x ∷ xs) = any-insert x (sort by_number xs) ∙ ap (λ b. p x || b) (any-sort xs)

  any-append : (xs ys : List ℕ) → any p (xs ++ ys) ≡ (any p xs || any p ys)
  any-append [] ys = refl
  any-append (x ∷ xs) ys = ground (arith, any-append xs ys)

-- Membership, as `includes` tests it.
abbrev pub has : ℕ → List ℕ → Bool
has d ds = any (eqb d) ds

has-keep : (d : ℕ) (q : ℕ → Bool) (ds : List ℕ) → has d (keep q ds) ≡ (q d && has d ds)
has-keep d q [] = ground arith
has-keep d q (x ∷ ds) = ground (arith, has-keep d q ds)

-- Strictly rising: sorted, and no day twice.
abbrev pub Rising : List ℕ → Type 0
Rising [] = Unit
Rising (x ∷ xs) = All (λ y. x < y) xs × Rising xs

Rising-place :
    (o : Ordering) (x y : ℕ) (ys : List ℕ)
    → compare x y ≡ o
    → has x (y ∷ ys) ≡ false
    → Rising (y ∷ ys)
    → Rising (insert by_number x ys)
    → Rising (place o x y ys (insert by_number x ys))
unfolding place
Rising-place Ordering.lt x y ys e new (h, r) later =
    ((ground arith, All-map _ _ (λ z (q : y < z). ground arith) ys h), (h, r))
Rising-place Ordering.eq x y ys e new r later = absurd (ground arith)
Rising-place Ordering.gt x y ys e new (h, r) later =
    (All-insert by_number (λ z. y < z) x ys (ground arith) h, later)

insert-Rising :
    (x : ℕ) (ys : List ℕ) → Rising ys → has x ys ≡ false → Rising (insert by_number x ys)
unfolding insert by_number
insert-Rising x [] r new = (tt, tt)
insert-Rising x (y ∷ ys) r new =
    Rising-place (by_number x y) x y ys refl new r (insert-Rising x ys r.1 (ground arith))

not-has_of_below : (y : ℕ) (ys : List ℕ) → All (λ z. y < z) ys → has y ys ≡ false
not-has_of_below y [] h = refl
not-has_of_below y (z ∷ ys) (p, h) = ground (arith, not-has_of_below y ys h)

has-sort-concat :
    (d x : ℕ) (ys : List ℕ) → has d (sort by_number (ys ++ x ∷ [])) ≡ (has d ys || eqb d x)
has-sort-concat d x ys =
    any-sort (eqb d) (ys ++ x ∷ []) ∙ any-append (eqb d) ys (x ∷ []) ∙ ground arith

sort-concat-Rising :
    (x : ℕ) (ys : List ℕ) → Rising ys → has x ys ≡ false → Rising (sort by_number (ys ++ x ∷ []))
unfolding sort insert
sort-concat-Rising x [] r new = (tt, tt)
sort-concat-Rising x (y ∷ ys) r new =
    insert-Rising y _ (sort-concat-Rising x ys r.1 (ground arith))
      (ground (arith, has-sort-concat y x ys, not-has_of_below y ys r.0))

keep-Rising : (q : ℕ → Bool) (ys : List ℕ) → Rising ys → Rising (keep q ys)
keep-Rising q [] r = tt
keep-Rising q (y ∷ ys) (h, r) = ground (arith, All-keep (λ z. y < z) q ys h, keep-Rising q ys r)

has_of_eqb : (d day : ℕ) (ds : List ℕ) → eqb d day ≡ true → has d ds ≡ has day ds
has_of_eqb d day ds h = ap (λ x. has x ds) ((eqb_iff d day).0 h)

has-toggled :
    (d day : ℕ) (ds : List ℕ)
    → has d (toggled day ds) ≡ (if eqb d day then not (has d ds) else has d ds)
unfolding toggled
has-toggled d day ds = elim (Bool-cases (has day ds)) [
  | inl old ↦ rw old (has-keep d (λ x. not (eqb x day)) ds ∙ ground (arith, has_of_eqb d day ds))
  | inr new ↦ rw new (has-sort-concat d day ds ∙ ground (arith, has_of_eqb d day ds))
]

toggled-Rising : (day : ℕ) (ds : List ℕ) → Rising ds → Rising (toggled day ds)
unfolding toggled
toggled-Rising day ds r = elim (Bool-cases (has day ds)) [
  | inl old ↦ rw old (keep-Rising _ ds r)
  | inr new ↦ rw new (sort-concat-Rising day ds r new)
]

-- Pressing a day's button changes that day and no other, and keeps the days of the form in
-- strictly rising order: sorted, and no day twice.
pub toggle_day_lem :
    (day : ℕ) (e : Editor)
    → Rising e.form.weekdays
    → Rising (toggle_day day e).form.weekdays
      × ((d : ℕ)
          → has d (toggle_day day e).form.weekdays
            ≡ (if eqb d day then not (has d e.form.weekdays) else has d e.form.weekdays))
unfolding toggle_day
toggle_day_lem day e r =
    (toggled-Rising day e.form.weekdays r, λ d. has-toggled d day e.form.weekdays)

-- The weekdays that are sent are sorted, are days of the week, and are the chosen ones of those.
pub sent_weekdays_lem :
    (ds : List ℕ)
    → IsSorted by_number (sent_weekdays ds)
      × All (λ d. d ≤ 6) (sent_weekdays ds)
      × ((d : ℕ) → has d (sent_weekdays ds) ≡ (leb d 6 && has d ds))
unfolding sent_weekdays
sent_weekdays_lem ds =
    let chosen = keep (λ d. leb d 6) ds in
    (
      sort-IsSorted by_number by_number-IsOrder chosen,
      All-sort by_number _ chosen (All-keep_self _ (λ d. leb d 6) (λ d h. leb→le d 6 h) ds),
      λ d. any-sort (eqb d) chosen ∙ has-keep d (λ x. leb x 6) ds,
    )

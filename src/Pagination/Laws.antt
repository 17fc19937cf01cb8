-- ===== src/Pagination/Laws.antt =====
-- About the pages of ui/src/lib/pagination.js and the controls of ui/src/components/pagination.jsx.
use restic_golang.Base.{
  ℕ, zero, suc, ◌+◌, ◌-◌, ◌*◌, ◌≤◌, ◌<◌, min, max, ◌≡◌, refl, ap, ◌∙◌, Bool, true, false, none,
  some, List, [], ◌∷◌, ◌++◌, arith, length, take, drop, length-take, length-drop, if◌then◌else◌,
}
use native.Mathlib.Nat.{zero-add, suc-add, zero-mul}
use mathlib.Core.Path.{subst}
use restic_golang.Pagination.{
  controls, Slice, Controls, ceil_div, pages, safe_page, page_slice, list_pagination,
}

-- The pages together hold as many places as the list has elements, and one page fewer does not.
pub pages_lem :
    (n size : ℕ)
    → 0 < size
    → (n ≤ pages n size * size) × (1 ≤ pages n size) × (0 < n → (pages n size - 1) * size < n)
unfolding pages ceil_div
pages_lem n size h = grind arith

-- The items of the pages 1 to `k`, in order.
unfoldable pub gather {ℓ} : {A : Type ℓ} → List A → ℕ → ℕ → List A
gather list wanted zero = []
gather list wanted (suc k) = gather list wanted k ++ (page_slice list (suc k) wanted).items

take-append-take {ℓ} :
    {A : Type ℓ} (a b : ℕ) (xs : List A) → take a xs ++ take b (drop a xs) ≡ take (a + b) xs
take-append-take zero b xs = rw zero-add
take-append-take (suc a) zero [] = rw suc-add
take-append-take (suc a) (suc b) [] = rw suc-add
take-append-take (suc a) b (x ∷ xs) = rw suc-add (ap (x ∷◌) (take-append-take a b xs))

pub take-all {ℓ} : {A : Type ℓ} (n : ℕ) (xs : List A) → length xs ≤ n → take n xs ≡ xs
take-all zero [] h = refl
take-all zero (x ∷ xs) h = elim h [ ]
take-all (suc n) [] h = refl
take-all (suc n) (x ∷ xs) h = ap (x ∷◌) (take-all n xs (omega arith))

safe_page-pred : (k total_pages : ℕ) → suc k ≤ total_pages → safe_page (suc k) total_pages - 1 ≡ k
unfolding safe_page
safe_page-pred k total_pages h = omega arith

gather-eq-take {ℓ} :
    {A : Type ℓ} (list : List A) (wanted k : ℕ)
    → k ≤ pages (length list) (max 1 wanted)
    → gather list wanted k ≡ take (k * max 1 wanted) list
unfolding gather page_slice safe_page
gather-eq-take list wanted zero h = rw (zero-mul (max 1 wanted))
gather-eq-take list wanted (suc k) h =
    let size = max 1 wanted in
    let items = (page_slice list (suc k) wanted).items in
    ap (λ xs. xs ++ items) (gather-eq-take list wanted k (omega arith))
    ∙ ap (λ (n : ℕ). take (k * size) list ++ take size (drop (n * size) list))
        (safe_page-pred k (pages (length list) size) h)
    ∙ take-append-take (k * size) size list
    ∙ ap (λ (n : ℕ). take n list) (omega arith)

-- The pages of a list, put together in order, are the list: no item is on two pages, and none is
-- on no page, for any page size, 0 included.
pub gather-pages {ℓ} :
    {A : Type ℓ} (list : List A) (wanted : ℕ)
    → gather list wanted (page_slice list 1 wanted).total_pages ≡ list
unfolding page_slice
gather-pages list wanted =
    gather-eq-take list wanted _ (omega arith)
    ∙ take-all _ list ((pages_lem (length list) (max 1 wanted) (omega arith)).0)

-- What the controls promise of a slice.
abbrev pub Describes {ℓ} : {A : Type ℓ} → Slice A → Controls → Type 0
Describes slice c =
    (c.page ≡ slice.page)
    × (c.total_pages ≡ slice.total_pages)
    × (1 ≤ c.page)
    × (c.page ≤ c.total_pages)
    × (c.to + 1 ≡ c.from + length slice.items)
    × (c.previous_disabled ≡ false → (1 ≤ c.previous_page) × (c.previous_page < c.page))
    × (c.next_disabled ≡ false → (c.page < c.next_page) × (c.next_page ≤ c.total_pages))

-- The range of page `k` of `n` elements.
range_lem :
    (n size k m : ℕ)
    → k * size < n
    → m ≡ min size (n - k * size)
    → min (suc k * size) n + 1 ≡ k * size + 1 + m
range_lem n size k m h e = omega arith

pub below_mono : (k m size n : ℕ) → k ≤ m → m * size < n → k * size < n
below_mono k m size n h l = grind arith

range_of_page :
    (n size s total_pages m : ℕ)
    → 1 ≤ s
    → s ≤ total_pages
    → (total_pages - 1) * size < n
    → m ≡ min size (n - (s - 1) * size)
    → min (s * size) n + 1 ≡ (s - 1) * size + 1 + m
range_of_page n size s total_pages m low high last e =
    ap (λ (k : ℕ). min (k * size) n + 1) (omega arith)
    ∙ range_lem n size (s - 1) m (below_mono (s - 1) (total_pages - 1) size n (omega arith) last) e

pub safe_page_bounds :
    (page total_pages : ℕ)
    → 1 ≤ total_pages
    → (1 ≤ safe_page page total_pages) × (safe_page page total_pages ≤ total_pages)
unfolding safe_page
safe_page_bounds page total_pages h = omega arith

Describes-controls {ℓ} :
    {A : Type ℓ} (list : List A) (page size : ℕ)
    → max 1 size ≡ size
    → 0 < size
    → 0 < length list
    → Describes (page_slice list page size) (controls page size (length list))
unfolding controls page_slice
Describes-controls list page size whole h l =
    let total_pages = pages (length list) size in
    let s = safe_page page total_pages in
    let (enough, some_page, full) = pages_lem (length list) size h in
    let (low, high) = safe_page_bounds page total_pages some_page in
    let start = (s - 1) * size in
    rw whole (
      refl,
      refl,
      low,
      high,
      range_of_page (length list) size s total_pages _ low high (full l)
          (length-take size (drop start list) ∙ ap (min size) (length-drop start list)),
      λ b. ground arith,
      λ b. ground arith,
    )

if_none-eq-some {ℓ} :
    {A : Type ℓ} (b : Bool) (x : A) {y : A}
    → (if b then none else some x) ≡ some y
    → (b ≡ false) × (x ≡ y)
if_none-eq-some true x e = cc
if_none-eq-some false x e = (refl, cc)

-- For a page size above 0, where controls are shown: the page is one of the pages, whatever page is asked for; the range that the
-- controls name has as many places as the page has items, and a button that can be pressed leads
-- to another page of the list.
pub list_pagination-Describes {ℓ} :
    {A : Type ℓ} (list : List A) (page size : ℕ) (c : Controls)
    → 0 < size
    → list_pagination page size (length list) ≡ some c
    → Describes (page_slice list page size) c
unfolding list_pagination
list_pagination-Describes list page size c h e =
    let (shown, same) = if_none-eq-some _ (controls page size (length list)) e in
    subst (Describes (page_slice list page size)) same
      (Describes-controls list page size (omega arith) h (ground arith))

-- ===== src/Pagination.antt =====
-- Pages of a list: the slice (ui/src/lib/pagination.js) and the controls under it
-- (ui/src/components/pagination.jsx). Numbers are natural: pages and sizes are never negative.
pub mod Laws
use restic_golang.Base.{
  ℕ, ◌+◌, ◌-◌, ◌*◌, ◌/◌, min, max, Bool, Option, none, some, List, if◌then◌else◌, eqb, leb, ◌||◌,
  length, take, drop,
}

abbrev pub page_size : ℕ
page_size = 100

pub record Slice {ℓ} (A : Type ℓ) : Type ℓ where
  pub items : List A
  pub page : ℕ
  pub total_pages : ℕ
  pub total : ℕ
  pub size : ℕ

-- `Math.ceil(n / size)` for a size that is not 0.
unfoldable pub ceil_div : ℕ → ℕ → ℕ
ceil_div n size = (n + (size - 1)) / size

-- `Math.max(1, Math.ceil(n / size))`
unfoldable pub pages : ℕ → ℕ → ℕ
unfolding ceil_div
pages n size = max 1 (ceil_div n size)

-- `Math.min(Math.max(1, page), totalPages)`
unfoldable pub safe_page : ℕ → ℕ → ℕ
safe_page page total_pages = min (max 1 page) total_pages

unfoldable pub page_slice {ℓ} : {A : Type ℓ} → List A → ℕ → ℕ → Slice A
unfolding pages safe_page
page_slice list page wanted =
    let size = max 1 wanted in
    let total_pages = pages (length list) size in
    let safe = safe_page page total_pages in
    record {
      items = take size (drop ((safe - 1) * size) list);
      page = safe;
      total_pages = total_pages;
      total = length list;
      size = size;
    }

-- What `ListPagination` shows: the range and the two buttons, which ask for a page.
pub record Controls : Type 0 where
  pub from : ℕ
  pub to : ℕ
  pub total : ℕ
  pub page : ℕ
  pub total_pages : ℕ
  pub previous_disabled : Bool
  pub next_disabled : Bool
  pub previous_page : ℕ
  pub next_page : ℕ

unfoldable pub controls : (page page_size total : ℕ) → Controls
unfolding pages safe_page
controls page page_size total =
    let total_pages = pages total page_size in
    let safe = safe_page page total_pages in
    record {
      from = (safe - 1) * page_size + 1;
      to = min (safe * page_size) total;
      total = total;
      page = safe;
      total_pages = total_pages;
      previous_disabled = leb safe 1;
      next_disabled = leb total_pages safe;
      previous_page = safe - 1;
      next_page = safe + 1;
    }

-- `none` where nothing is shown.
unfoldable pub list_pagination : (page page_size total : ℕ) → Option Controls
unfolding controls
list_pagination page page_size total =
    if eqb total 0 || leb total page_size then none else some (controls page page_size total)

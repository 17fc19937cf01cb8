-- ===== src/ListPage/Laws.antt =====
-- About the page number and the loading of the lists of ui/src/routes/folders.jsx, jobs.jsx and
-- repositories.jsx.
use restic_golang.Api.{Response, error_of}
use restic_golang.Base.{
  ℕ, suc, ◌+◌, ◌-◌, ◌*◌, ◌≤◌, ◌<◌, ◌≡◌, refl, ◌∙◌, ap, inl, inr, Bool-cases, Option-cases, min,
  String, true, false, Option, none, some, List, ◌∷◌, arith, if◌then◌else◌, eqb, eqb_iff, length,
  drop, length-take, length-drop,
}
use restic_golang.ListPage.{
  Loaded, failed, loaded, View, error_state, load, listed, outcome, list_view, view_of, view,
  page_effect, renders, unless_set,
}
use restic_golang.Pagination.{page_slice, page_size, pages, safe_page}
use restic_golang.Pagination.Laws.{pages_lem, safe_page_bounds, below_mono}
use restic_golang.UseFetch.{Fetch, run, finished, step, steps, is_stale}
use restic_golang.UseFetch.Laws.{IsFresh, run-current, step-fulfilled, step-rejected, step-finished}

safe_page-safe_page :
    (page total : ℕ) → 1 ≤ total → safe_page (safe_page page total) total ≡ safe_page page total
unfolding safe_page
safe_page-safe_page page total h = omega arith

some_items :
    (n size s total : ℕ)
    → 0 < size
    → s ≤ total
    → (total - 1) * size < n
    → 0 < min size (n - (s - 1) * size)
some_items n size s total h l k =
    let e = below_mono (s - 1) (total - 1) size n (omega arith) k in omega arith

eqb_refl : (n : ℕ) → eqb n n ≡ true
eqb_refl n = (eqb_iff n n).1 refl

module _ {A : Type 0} where
  page-settled :
      (list : List A) (page : ℕ)
      → (page_slice list (page_slice list page page_size).page page_size).page
        ≡ (page_slice list page page_size).page
  unfolding page_slice
  page-settled list page =
      let (_, one, _) = pages_lem (length list) page_size (omega arith) in
      safe_page-safe_page page (pages (length list) page_size) one

  page_effect-settled :
      (list : List A) (page : ℕ) → page_effect list (page_slice list page page_size).page ≡ none
  unfolding page_effect
  page_effect-settled list page =
      let p = (page_slice list page page_size).page in
      ap (λ (q : ℕ). if eqb p q then none else some q) (page-settled list page)
      ∙ ap (λ b. if b then none else some p) (eqb_refl p)

  renders-settled :
      (fuel : ℕ) (list : List A) (page : ℕ)
      → page_effect list page ≡ none
      → renders (suc fuel) list page ≡ some page
  unfolding renders
  renders-settled fuel list page h =
      ap (λ o. unless_set o page (renders fuel list (page_slice list page page_size).page)) h

  renders_from :
      (fuel : ℕ) (list : List A) (page : ℕ)
      → renders (suc (suc fuel)) list page ≡ some (page_slice list page page_size).page
  unfolding renders unless_set page_effect
  renders_from fuel list page =
      let p = (page_slice list page page_size).page in
      let again = renders-settled fuel list p (page_effect-settled list page) in
      elim (Bool-cases (eqb page p)) [
        | inl e ↦ rw e (ap some ((eqb_iff page p).0 e))
        | inr e ↦ rw e again
      ]

  -- However far the page number is from the list, the effect sets it at most once: two renders are
  -- enough, and any more do not change the outcome. The page in the end is one of the pages of the
  -- list, the effect leaves it alone, and it shows something if the list is not empty.
  pub renders-Settled :
      (fuel : ℕ) (list : List A) (page : ℕ)
      → let slice = page_slice list page page_size in
        (renders (suc (suc fuel)) list page ≡ some slice.page)
        × (page_effect list slice.page ≡ none)
        × (1 ≤ slice.page)
        × (slice.page ≤ slice.total_pages)
        × (0 < length list → 0 < length slice.items)
  unfolding page_slice
  renders-Settled fuel list page =
      let (_, one, full) = pages_lem (length list) page_size (omega arith) in
      let total = pages (length list) page_size in
      let (low, high) = safe_page_bounds page total one in
      let s = safe_page page total in
      let start = (s - 1) * page_size in
      (
        renders_from fuel list page,
        page_effect-settled list page,
        low,
        high,
        λ h.
            rw (length-take page_size (drop start list), length-drop start list)
              (some_items (length list) page_size s total (omega arith) high (full h)),
      )

module _ {A : Type 0} where
  -- What is held when a load that is not stale has ended.
  abbrev pub ended : Fetch A String → Loaded A → Fetch A String
  ended s (loaded v) = record s { value = some v; error = none; loading = false }
  ended s (failed message) = record s { error = some message; loading = false }

  pub steps-outcome :
      (s : Fetch A String) (g : ℕ) (l : Loaded A)
      → is_stale g s ≡ false
      → steps s (outcome g l) ≡ ended s l
  unfolding steps outcome
  steps-outcome s g (loaded v) h =
      ap (λ t. step t (finished g)) (step-fulfilled s g h v)
      ∙ step-finished (record s { value = some v; error = none }) g h
  steps-outcome s g (failed m) h =
      ap (λ t. step t (finished g)) (step-rejected s g h m)
      ∙ step-finished (record s { error = some m }) g h

module _ {A B : Type 0} (items : A → List B) where
  -- What a page shows when a load has ended, from what it held before.
  abbrev shown_after : Option A → Loaded A → View B
  shown_after old (loaded v) = list_view (items v)
  shown_after (some v) (failed message) = list_view (items v)
  shown_after none (failed message) = error_state message

  view-ended : (s : Fetch A String) (l : Loaded A) → view items (ended s l) ≡ shown_after s.value l
  unfolding view view_of
  view-ended s (loaded v) = refl
  view-ended s (failed m) = elim (Option-cases s.value) [
    | inl e ↦ rw e refl
    | inr (v, e) ↦ rw e refl
  ]

  -- What a page shows when a load that ran to its end was the last to start.
  pub view-outcome :
      (s : Fetch A String) (l : Loaded A)
      → IsFresh s
      → view items (steps s (run ∷ outcome (s.generation + 1) l)) ≡ shown_after s.value l
  unfolding steps step
  view-outcome s l fresh =
      ap (view items) (steps-outcome (step s run) (s.generation + 1) l (run-current s fresh))
      ∙ view-ended (step s run) l

-- In a state in which only effects up to the current one were cleaned up, a list is loaded, and its
-- answer arrives before anything else does. An answer that is well shows the list it holds, or that
-- there are no items. Any other answer leaves the list that was shown before, and where none was,
-- it shows the answer's own error, or the fallback.
pub view-load :
    {A B : Type 0} (items : List A → List B) (s : Fetch (List A) String) (fallback : String)
    (res : Response) (given : Option (List A))
    → IsFresh s
    → let after =
        view items (steps s (run ∷ outcome (s.generation + 1) (load fallback res given))) in
      (res.ok ≡ true → after ≡ list_view (items (listed given)))
      × (res.ok ≡ false → (v : List A) → s.value ≡ some v → after ≡ list_view (items v))
      × (res.ok ≡ false → s.value ≡ none → after ≡ error_state (error_of res fallback))
unfolding load
view-load items s fallback res given fresh =
    let e = view-outcome items s (load fallback res given) fresh in
    (λ h. e ∙ rw h refl, λ h v k. e ∙ rw (h, k) refl, λ h k. e ∙ rw (h, k) refl)

-- ===== src/Activity/Laws.antt =====
-- About the page of the history of ui/src/routes/activity.jsx.
use restic_golang.Activity.{
  Activity, Event, initial, clamp, changed, choose_kind, choose_status, choose_page, loaded, step,
  steps, first_page,
}
use restic_golang.Base.{
  ℕ, ◌≤◌, ◌≡◌, refl, Option, none, some, List, [], ◌∷◌, arith, All, ◌==◌, ltb, both_branches,
}
use mathlib.Core.Path.{subst, sym}
use restic_golang.Pagination.{pages, page_size}
use restic_golang.Pagination.Laws.{pages_lem}

-- The page is one of the pages, as far as they are known.
abbrev pub Within : Option ℕ → ℕ → Type 0
Within none page = 1 ≤ page
Within (some total) page = (1 ≤ page) × (page ≤ pages total page_size)

abbrev pub IsInRange : Activity → Type 0
IsInRange s = Within s.total s.page

-- A page that the controls ask for.
abbrev pub IsAsked : Event → Type 0
IsAsked (choose_page n) = 1 ≤ n
IsAsked _ = Unit

clamp-Within : (o : Option ℕ) (s : Activity) → 1 ≤ s.page → Within o (clamp o s).page
unfolding clamp
clamp-Within none s h = h
clamp-Within (some total) s h =
    let p = pages_lem total page_size (omega arith) in ground (arith, p.1)

clamp-total : (o : Option ℕ) (s : Activity) → (clamp o s).total ≡ s.total
unfolding clamp
clamp-total none s = refl
clamp-total (some total) s =
    both_branches (λ (t : Activity). t.total ≡ s.total) (ltb _ s.page) refl refl

Within-positive : (o : Option ℕ) (n : ℕ) → Within o n → 1 ≤ n
Within-positive none n h = h
Within-positive (some t) n h = h.0

changed-positive : (s : Activity) (e : Event) → 1 ≤ s.page → IsAsked e → 1 ≤ (changed s e).page
unfolding changed first_page
changed-positive s (choose_kind k) h a =
    both_branches (λ (t : Activity). 1 ≤ t.page) (s.kind == k) h (omega arith)
changed-positive s (choose_status k) h a =
    both_branches (λ (t : Activity). 1 ≤ t.page) (s.status == k) h (omega arith)
changed-positive s (choose_page n) h a = a
changed-positive s (loaded t) h a = h

step-IsInRange : (s : Activity) (e : Event) → 1 ≤ s.page → IsAsked e → IsInRange (step s e)
unfolding step
step-IsInRange s e h a =
    subst (λ o. Within o (clamp (changed s e).total (changed s e)).page)
      (sym (clamp-total (changed s e).total (changed s e)))
      (clamp-Within (changed s e).total (changed s e) (changed-positive s e h a))

steps-IsInRange_from :
    (es : List Event) (s : Activity) → IsInRange s → All IsAsked es → IsInRange (steps s es)
unfolding steps
steps-IsInRange_from [] s h a = h
steps-IsInRange_from (e ∷ es) s h (a, rest) =
    steps-IsInRange_from es (step s e) (step-IsInRange s e (Within-positive s.total s.page h) a)
      rest

-- Whatever filters are chosen, whatever pages from 1 on are asked for and whatever totals arrive:
-- the page is at least 1, and once a total is known it is at most the number of pages of that total.
pub steps-IsInRange : (es : List Event) → All IsAsked es → IsInRange (steps initial es)
steps-IsInRange es a = steps-IsInRange_from es initial (omega arith) a

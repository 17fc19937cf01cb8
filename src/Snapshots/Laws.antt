-- ===== src/Snapshots/Laws.antt =====
-- About the list of ui/src/components/snapshots-panel.jsx.
use restic_golang.Base.{
  ℕ, ◌+◌, ◌-◌, ◌≤◌, ◌<◌, ◌≡◌, refl, sym, ap, ◌∙◌, inl, inr, Bool-cases, min, Bool, true, false,
  Option, none, some, List, [], ◌∷◌, arith, ltb, truthy, length, take, length-take, both_branches,
}
use restic_golang.Format.{Clock}
use restic_golang.Pagination.Laws.{take-all}
use restic_golang.Restore.{Snapshot, snapshot_engine}
use restic_golang.Snapshots.{
  Panel, initial, page, Event, refresh, answered, timer, show_more, show_fewer, restore, browse,
  close_restore, close_restore_db, close_browser, downloads, forgets, downloaded, forgot,
  forgets_all, forgot_all, on_restore, refreshed, step, steps, snapshots, shown, Footer, more_of,
  footer_of, footer,
}

-- A snapshot that a dialog is open on: a database dump, or not one.
abbrev pub HasDump : Bool → Option Snapshot → Type 0
HasDump dump none = Unit
HasDump dump (some s) = truthy (snapshot_engine s) ≡ dump

abbrev pub IsWell : Panel → Type 0
IsWell p = (page ≤ p.visible) × HasDump false p.restoring × HasDump true p.restoring_db

on_restore-IsWell : (s : Snapshot) (p : Panel) → IsWell p → IsWell (on_restore s p)
unfolding on_restore
on_restore-IsWell s p (v, r, d) = elim (Bool-cases (truthy (snapshot_engine s))) [
  | inl e ↦ rw e (v, r, e)
  | inr e ↦ rw e (v, e, d)
]

step-IsWell : (p : Panel) (e : Event) → IsWell p → IsWell (step p e)
unfolding step refreshed
step-IsWell p refresh h = h
step-IsWell p (answered _ payload) h = h
step-IsWell p timer h = both_branches IsWell p.loading {x = record p { slow = true }} {y = p} h h
step-IsWell p show_more (v, r, d) = (omega (arith, v), r, d)
step-IsWell p show_fewer (v, r, d) = (omega arith, r, d)
step-IsWell p (restore s) h = on_restore-IsWell s p h
step-IsWell p (browse s) h = h
step-IsWell p close_restore (v, r, d) = (v, tt, d)
step-IsWell p close_restore_db (v, r, d) = (v, r, tt)
step-IsWell p close_browser h = h
step-IsWell p (downloads id) h = h
step-IsWell p (forgets id) h = h
step-IsWell p downloaded h = h
step-IsWell p forgot h = h
step-IsWell p forgets_all h = h
step-IsWell p forgot_all h = h

steps-IsWell_from : (es : List Event) (p : Panel) → IsWell p → IsWell (steps p es)
unfolding steps
steps-IsWell_from [] p h = h
steps-IsWell_from (e ∷ es) p h = steps-IsWell_from es (step p e) (step-IsWell p e h)

-- Whatever happens in the panel: the dialog that restores files is never open on a database dump,
-- the one that restores databases is open on nothing else, and at least one page of 20 is visible.
pub steps-IsWell : (es : List Event) → IsWell (steps initial es)
steps-IsWell es = steps-IsWell_from es initial (omega arith, tt, tt)

module _ {A : Type 0} (v : ℕ) (l : List A) where
  all-shown : ltb (length (take v l)) (length l) ≡ false → take v l ≡ l
  all-shown h = take-all v l (ground (arith, length-take v l))

  length-more :
      length (take (v + page) l) ≡ length (take v l) + min page (length l - length (take v l))
  length-more = omega (arith, length-take v l, length-take (v + page) l)

more_of-none : (count total : ℕ) → more_of count total ≡ none → ltb count total ≡ false
unfolding more_of
more_of-none count total h = ground arith

more_of-some :
    (count total n : ℕ)
    → more_of count total ≡ some n
    → (count < total) × (n ≡ min page (total - count))
unfolding more_of
more_of-some count total n h = ground arith

-- What the footer says, where it is there: the counts, and on "more" how many that adds. Where
-- nothing is left to add, all is shown.
abbrev pub Tells : Clock → Panel → Option Footer → Type 0
Tells clock p none = shown clock p ≡ snapshots clock p
Tells clock p (some f) =
    (f.count ≡ length (shown clock p))
    × (f.total ≡ length (snapshots clock p))
    × (f.more ≡ none → shown clock p ≡ snapshots clock p)
    × ((n : ℕ)
        → f.more ≡ some n
        → (0 < n) × (length (shown clock (step p show_more)) ≡ f.count + n))

footer-Tells : (clock : Clock) (p : Panel) → page ≤ p.visible → Tells clock p (footer clock p)
unfolding footer footer_of shown step snapshots
footer-Tells clock p v =
    let l = snapshots clock p in
    elim (Bool-cases (ltb page (length l))) [
      | inl e ↦ rw e (
        refl,
        refl,
        λ h. all-shown p.visible l (more_of-none _ (length l) h),
        λ n h.
            let (some_left, exact) = more_of-some (length (shown clock p)) (length l) n h in
            (
              omega (arith, some_left, exact),
              length-more p.visible l ∙ ap (λ (k : ℕ). length (shown clock p) + k) (sym exact),
            ),
      )
      | inr e ↦ rw e (take-all p.visible l (ground arith))
    ]

-- In every state that the panel reaches: without the line under the list, the list shows all
-- snapshots. With it, the line counts the snapshots shown and those stored; where it has no button
-- "more" all are shown, and where it has one, pressing it shows exactly as many more as it says,
-- and at least one.
pub steps-Tells :
    (clock : Clock) (es : List Event) → let p = steps initial es in Tells clock p (footer clock p)
steps-Tells clock es = footer-Tells clock (steps initial es) (steps-IsWell es).0

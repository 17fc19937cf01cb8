-- ===== src/History/Laws.antt =====
-- About `byDay` of ui/src/components/run-history.jsx.
use restic_golang.Base.{
  inl, inr, ◌≡◌, ◌≢◌, refl, ap, sym, ◌∙◌, String, false, List, [], ◌∷◌, ◌++◌, arith, All,
  All-append, ◌==◌, eq_iff, Bool-cases,
}
use mathlib.Core.List.{append-nil, append_assoc}
use restic_golang.History.{Day, add_run, by_day_from, by_day}
use restic_golang.Runs.{Run}

-- The runs of all groups, in their order.
unfoldable pub all_runs : List Day → List Run
all_runs [] = []
all_runs (g ∷ gs) = g.runs ++ all_runs gs

module _ (label : Run → String) where
  -- Every run of a group has the group's label, and a group is not empty.
  abbrev pub IsDay : Day → Type 0
  IsDay g = All (λ r. label r ≡ g.label) g.runs × (g.runs ≢ [])

  -- Neighbours have different labels.
  abbrev pub Apart : List Day → Type 0
  Apart [] = Unit
  Apart (g ∷ []) = Unit
  Apart (g ∷ h ∷ gs) = (g.label ≢ h.label) × Apart (h ∷ gs)

  module _ (run : Run) where
    all_runs-add_run : (gs : List Day) → all_runs (add_run label gs run) ≡ all_runs gs ++ run ∷ []
    unfolding add_run all_runs
    all_runs-add_run [] = refl
    all_runs-add_run (g ∷ []) = elim (Bool-cases (g.label == label run)) [
      | inl h ↦ rw (h, append-nil (g.runs ++ run ∷ []), append-nil g.runs)
      | inr h ↦ rw (h, append-nil g.runs)
    ]
    all_runs-add_run (g ∷ h ∷ gs) =
        ap (λ rs. g.runs ++ rs) (all_runs-add_run (h ∷ gs))
        ∙ sym (append_assoc g.runs (all_runs (h ∷ gs)) (run ∷ []))

    not-nil : (rs : List Run) → rs ++ run ∷ [] ≢ []
    not-nil [] e = cc
    not-nil (r ∷ rs) e = cc

    opened-IsDay : IsDay (record { label = label run; runs = run ∷ [] })
    opened-IsDay = ((refl, tt), λ e. cc)

    add_run-IsDay : (gs : List Day) → All IsDay gs → All IsDay (add_run label gs run)
    unfolding add_run
    add_run-IsDay [] _ = (opened-IsDay, tt)
    add_run-IsDay (g ∷ []) (d, _) = elim (Bool-cases (g.label == label run)) [
      | inl h ↦ rw h (
        (
          All-append (λ r. label r ≡ g.label) g.runs (run ∷ []) d.0
              (sym ((eq_iff g.label (label run)).0 h), tt),
          not-nil g.runs,
        ),
        tt,
      )
      | inr h ↦ rw h (d, (opened-IsDay, tt))
    ]
    add_run-IsDay (g ∷ h ∷ gs) (d, ds) = (d, add_run-IsDay (h ∷ gs) ds)

    other_label : (g : Day) → (g.label == label run) ≡ false → g.label ≢ label run
    other_label g h e = ground (arith, eq_iff g.label (label run))

    Apart-after :
        (k g : Day) (gs : List Day)
        → k.label ≢ g.label
        → Apart (g ∷ gs)
        → Apart (k ∷ add_run label (g ∷ gs) run)
    unfolding add_run
    Apart-after k g [] n a = elim (Bool-cases (g.label == label run)) [
      | inl h ↦ rw h (n, tt)
      | inr h ↦ rw h (n, (other_label g h, tt))
    ]
    Apart-after k g (h ∷ hs) n (m, a) = (n, Apart-after g h hs m a)

    add_run-Apart : (gs : List Day) → Apart gs → Apart (add_run label gs run)
    unfolding add_run
    add_run-Apart [] a = tt
    add_run-Apart (g ∷ []) a = elim (Bool-cases (g.label == label run)) [
      | inl h ↦ rw h tt
      | inr h ↦ rw h (other_label g h, tt)
    ]
    add_run-Apart (g ∷ h ∷ gs) (n, a) = Apart-after g h gs n a

  by_day_from-all :
      (runs : List Run) (gs : List Day) → all_runs (by_day_from label gs runs) ≡ all_runs gs ++ runs
  unfolding by_day_from
  by_day_from-all [] gs = sym (append-nil (all_runs gs))
  by_day_from-all (r ∷ runs) gs =
      by_day_from-all runs (add_run label gs r)
      ∙ ap (λ rs. rs ++ runs) (all_runs-add_run r gs)
      ∙ append_assoc (all_runs gs) (r ∷ []) runs

  by_day_from_lem :
      (runs : List Run) (gs : List Day)
      → All IsDay gs
      → Apart gs
      → All IsDay (by_day_from label gs runs) × Apart (by_day_from label gs runs)
  unfolding by_day_from
  by_day_from_lem [] gs d a = (d, a)
  by_day_from_lem (r ∷ runs) gs d a =
      by_day_from_lem runs (add_run label gs r) (add_run-IsDay r gs d) (add_run-Apart r gs a)

-- The groups of a list by day hold the runs of the list, all of them and in their order; a group is
-- not empty, its runs all have its label, and two groups side by side have different labels.
pub by_day_lem :
    (label : Run → String) (runs : List Run)
    → (all_runs (by_day label runs) ≡ runs)
      × All (IsDay label) (by_day label runs)
      × Apart label (by_day label runs)
unfolding by_day all_runs
by_day_lem label runs =
    let (d, a) = by_day_from_lem label runs [] tt tt in (by_day_from-all label runs [], d, a)

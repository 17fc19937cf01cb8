-- ===== src/History/Log/Laws.antt =====
-- About following the tail of the log (ui/src/components/log-panel.jsx).
use restic_golang.Base.{
  ℕ, ◌≤◌, ◌≡◌, String, Bool, true, false, List, [], ◌∷◌, arith, ◌⊎◌, All, ◌++◌, ◌*◌, length, keep,
  length-append,
}
use restic_golang.Live.{Line}
use restic_golang.History.{shown_lines, is_problem}
use restic_golang.History.Log.{
  Screen, Log, Event, received, scrolled, jumped, opened, bottom, at_bottom, scroll_to, step, steps,
}

-- The browser's bound, and: while the tail is followed, the screen is at the bottom.
abbrev pub IsWell : Screen → Log → Type 0
IsWell screen s =
    (s.scroll_top ≤ bottom screen s) × (s.following ≡ true → at_bottom screen s ≡ true)

-- The log behind some events.
abbrev pub reached : Screen → List Line → List Event → Log
reached screen lines es = steps screen (opened screen lines) es

-- The reader neither scrolls nor asks for the end.
abbrev pub IsQuiet : Event → Type 0
IsQuiet (scrolled top) = ¬ Unit
IsQuiet jumped = ¬ Unit
IsQuiet _ = Unit

-- The last that the reader of `s` did was to scroll away from the end.
abbrev pub HasLeft : Screen → Log → List Event → Type 0
HasLeft screen s es =
    (before : List Event) × (top : ℕ) × (since : List Event) × (es ≡ before ++ scrolled top ∷ since)
    × (at_bottom screen (scroll_to screen top (steps screen s before)) ≡ false)
    × All IsQuiet since

-- A reader whose log does not follow has left, or it did not follow before, and nothing was done.
Why : Screen → Log → List Event → Type 0
Why screen s es = HasLeft screen s es ⊎ ((s.following ≡ false) × All IsQuiet es)

-- More lines are not laid out on less height.
abbrev pub IsGrowing : Screen → Type 0
IsGrowing screen =
    (filter : String) (lines more : List Line)
    → screen.content (shown_lines filter lines)
      ≤ screen.content (shown_lines filter (lines ++ more))

-- What the arrival of more lines does to the log behind `es`.
abbrev pub IsCalm : Screen → List Line → List Event → List Line → Type 0
IsCalm screen lines es more =
    let s = reached screen lines es in
    let t = step screen s (received (s.lines ++ more)) in
    ((at_bottom screen s ≡ true) × (t.scroll_top ≡ bottom screen t))
    ⊎ (HasLeft screen (opened screen lines) es × (t.scroll_top ≡ s.scroll_top))

-- A screen on which every line takes 20 pixels.
abbrev pub even : (client : ℕ) → Screen
even client = record { content = λ lines. length lines * 20; client_height = client }

length-keep_more :
    (p : Line → Bool) (xs ys : List Line) → length (keep p xs) ≤ length (keep p (xs ++ ys))
length-keep_more p [] ys = omega arith
length-keep_more p (x ∷ xs) ys = ground (arith, length-keep_more p xs ys)

shown_lines-more :
    (filter : String) (xs ys : List Line)
    → length (shown_lines filter xs) ≤ length (shown_lines filter (xs ++ ys))
unfolding shown_lines
shown_lines-more filter xs ys =
    ground (arith, length-keep_more is_problem xs ys, length-append xs ys)

-- More lines of one height are laid out on no less of it.
pub even-IsGrowing : (client : ℕ) → IsGrowing (even client)
even-IsGrowing client filter lines more = omega (arith, shown_lines-more filter lines more)

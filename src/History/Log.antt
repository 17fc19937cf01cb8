-- ===== src/History/Log.antt =====
-- The log of a run on the screen (`LogPanel` of ui/src/components/log-panel.jsx): following its tail,
-- the copy button and the texts.
pub mod Laws
use restic_golang.Base.{
  ℕ, ◌-◌, ◌<◌, min, max, String, Bool, true, false, not, ◌&&◌, ◌||◌, Option, none, some, List, [],
  ◌∷◌, ◌++◌, if◌then◌else◌, ◌==◌, eqb, ltb, length, concat, show,
}
use restic_golang.History.{shown_lines, problem_count, copied_text, is_problem}
use restic_golang.Live.{Line}

-- The element that scrolls: the height of lines as they are laid out, and its own height.
pub record Screen : Type 0 where
  pub content : List Line → ℕ
  pub client_height : ℕ

-- `scroll_top` is the browser's, the other fields are the component's.
pub record Log : Type 0 where
  pub lines : List Line
  pub filter : String
  pub following : Bool
  pub scroll_top : ℕ
  pub copied : Bool

-- `scrollHeight` is never less than `clientHeight`.
unfoldable pub scroll_height : Screen → Log → ℕ
unfolding shown_lines
scroll_height screen s = max (screen.content (shown_lines s.filter s.lines)) screen.client_height

-- The lowest place that the browser scrolls to; a greater `scrollTop` stops there.
unfoldable pub bottom : Screen → Log → ℕ
unfolding scroll_height
bottom screen s = scroll_height screen s - screen.client_height

unfoldable pub at_bottom : Screen → Log → Bool
unfolding scroll_height
at_bottom screen s = ltb (scroll_height screen s - s.scroll_top - screen.client_height) 24

unfoldable pub scroll_to : Screen → ℕ → Log → Log
unfolding bottom
scroll_to screen top s = record s { scroll_top = min top (bottom screen s) }

-- The effect on `[shown, following]`.
unfoldable pub follow_tail : Screen → Log → Log
unfolding scroll_to
follow_tail screen s =
    scroll_to screen (if s.following then scroll_height screen s else s.scroll_top) s

-- The panel appears with the lines that are there, and the effect runs.
unfoldable pub opened : Screen → List Line → Log
unfolding follow_tail
opened screen lines =
    follow_tail screen
      (record { lines = lines; filter = "all"; following = true; scroll_top = 0; copied = false })

-- `onScroll`; the effect runs if `following` changed.
unfoldable pub on_scroll : Screen → Log → Log
unfolding at_bottom follow_tail
on_scroll screen s =
    let after = record s { following = at_bottom screen s } in
    if not s.following && after.following then follow_tail screen after else after

-- A press of "Jump to latest", which is there while the tail is not followed.
unfoldable pub jump : Screen → Log → Log
unfolding follow_tail
jump screen s = if s.following then s else follow_tail screen (record s { following = true })

unfoldable pub choose : Screen → String → Log → Log
unfolding follow_tail
choose screen filter s =
    if s.filter == filter then s else follow_tail screen (record s { filter = filter })

-- `received`: the run's log has other lines; `copied_ok` and `copy_failed`: the clipboard answered;
-- `timeout`: the 1,500 ms of a copy are over.
pub data Event : Type 0 where
  received : List Line → Event
  scrolled : (top : ℕ) → Event
  filtered : String → Event
  jumped copied_ok copy_failed timeout : Event

unfoldable pub step : Screen → Log → Event → Log
unfolding follow_tail on_scroll choose jump scroll_to
step screen s (received lines) = follow_tail screen (record s { lines = lines })
step screen s (scrolled top) = on_scroll screen (scroll_to screen top s)
step screen s (filtered filter) = choose screen filter s
step screen s jumped = jump screen s
step screen s copied_ok = record s { copied = true }
step screen s copy_failed = s
step screen s timeout = record s { copied = false }

unfoldable pub steps : Screen → Log → List Event → Log
unfolding step
steps screen s [] = s
steps screen s (e ∷ es) = steps screen (step screen s e) es

-- What a press of the copy button writes to the clipboard, and the toast where that fails.
unfoldable pub copy : Log → String
unfolding copied_text
copy s = copied_text s.filter s.lines

abbrev pub copy_error : String
copy_error = "Could not copy to the clipboard."

-- The texts: the number of lines, that of the problems, and what stands in place of no lines.
unfoldable pub count_text : Log → String
count_text s =
    concat (show (length s.lines) ∷ " line" ∷ (if eqb (length s.lines) 1 then "" else "s") ∷ [])

unfoldable pub problem_badge : Log → Option ℕ
unfolding problem_count
problem_badge s = if ltb 0 (problem_count s.lines) then some (problem_count s.lines) else none

unfoldable pub empty_text : Log → Option String
unfolding shown_lines
empty_text s =
    if eqb (length (shown_lines s.filter s.lines)) 0
    then some (if eqb (length s.lines) 0 then "Waiting for output…" else "No warnings or errors.")
    else none

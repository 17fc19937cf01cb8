-- ===== src/Browser/Listing.antt =====
-- The loads of folders in `SnapshotBrowser` of ui/src/components/snapshot-browser.jsx: every folder
-- that is opened is asked for, and the answers come in any order. `files n path` is the answer to the
-- request `n`, which asked for `path`.
pub mod Laws
use restic_golang.Base.{
  ℕ, ◌+◌, ◌≡◌, ◌⊎◌, refl, inl, inr, String, Bool, true, false, ◌&&◌, List, [], ◌∷◌, arith,
  if◌then◌else◌, ◌==◌, eqb, length, Bool-cases, both_branches, each_branch, eq_iff,
}
use restic_golang.Browser.{Browser, Entry, reset, listing, listed, toggle}
use restic_golang.Browser.View.{Input, input}

pub record Answer : Type 0 where
  pub ok : Bool
  pub entries : List Entry
  pub message : String

-- The folders that were asked for, the last one first; `alive` is that of the last effect.
pub record Loads : Type 0 where
  pub browser : Browser
  pub asked : List String
  pub alive : Bool

-- The effect on `[open, snapshot, repositoryId, path]` of an open dialog.
unfoldable pub ask : Loads → Loads
unfolding listing
ask s = record { browser = listing s.browser; asked = s.browser.path ∷ s.asked; alive = true }

unfoldable pub moved : Browser → Loads → Loads
unfolding ask
moved b s =
    if b.path == s.browser.path then record s { browser = b } else ask (record s { browser = b })

-- The folder of the request `n`, counted from 1.
unfoldable pub asked_at : ℕ → List String → String
asked_at n [] = ""
asked_at n (p ∷ ps) = let rest = asked_at n ps in if eqb n (length ps + 1) then p else rest

-- `opened`: the dialog opens on a snapshot, whose start folder is then set; `slow_after`: the timer of
-- six seconds rings, which an answer clears.
pub data Event : Type 0 where
  opened : (start : String) → Event
  closed : Event
  pressed : Input → Event
  ticked : (path : String) → Event
  slow_after answered : (mine : ℕ) → Event

unfoldable pub is_current : ℕ → Loads → Bool
is_current mine s = s.alive && eqb mine (length s.asked)

unfoldable pub settle : Answer → Loads → Loads
unfolding listed
settle a s = record s { browser = listed a.ok a.entries a.message s.browser }

unfoldable pub step : (files : ℕ → String → Answer) → Loads → Event → Loads
unfolding ask moved asked_at is_current settle reset toggle input
step files s (opened start) = moved (reset start (ask s).browser) (ask s)
step files s closed = record s { alive = false }
step files s (pressed i) = if s.alive then moved (input s.browser i) s else s
step files s (ticked path) = record s { browser = toggle path s.browser }
step files s (slow_after mine) =
    if is_current mine s && s.browser.loading
    then record s { browser = record s.browser { slow = true } }
    else s
step files s (answered mine) =
    if is_current mine s then settle (files mine (asked_at mine s.asked)) s else s

unfoldable pub steps : (files : ℕ → String → Answer) → Loads → List Event → Loads
unfolding step
steps files s [] = s
steps files s (e ∷ es) = steps files (step files s e) es

-- ===== src/Browser.antt =====
-- The browser of a snapshot's files (ui/src/components/snapshot-browser.jsx): the folder that is
-- listed, the selection, and what a download and a restore of it ask of the server. The answer of a
-- listing or a start is an event; `useContainersUsing` is the argument `containers`.
pub mod Laws
pub mod Crumbs
pub mod View
pub mod Listing
use restic_golang.Base.{
  ℕ, zero, ◌<◌, String, Bool, true, false, not, ◌&&◌, ◌||◌, Option, none, some, List, [], ◌∷◌, ◌++◌,
  if◌then◌else◌, ◌==◌, ltb, any, all, keep, find, present, concat, trim, starts_with, length,
  text_of, show, eqb, take, map, join,
}

unfoldable pub within : String → String → Bool
within p base = base == "/" || (p == base || starts_with p (concat (base ∷ "/" ∷ [])))

-- `commonRoot`, of the snapshot's paths.
unfoldable pub common_root : List String → List String → Option String
unfolding within
common_root paths selected =
    find (λ root. ltb 0 (length selected) && all (λ p. within p root) selected) paths

-- `snapshot?.paths?.length === 1 ? snapshot.paths[0] : "/"`
unfoldable pub start_folder : List String → String
start_folder (p ∷ []) = p
start_folder _ = "/"

pub record Entry : Type 0 where
  pub path : String
  pub name : String
  pub is_dir : Bool
  pub size : ℕ
  pub mtime : String

pub data Step : Type 0 where
  browse restore : Step

pub record Browser : Type 0 where
  pub path : String
  pub loading : Bool
  pub entries : List Entry
  pub error : String
  pub selected : List String
  pub screen : Step
  pub in_place : Bool
  pub target : String
  pub stop_site : Bool
  pub busy : Bool
  pub slow : Bool

-- The effect on `[open, start]`.
unfoldable pub reset : String → Browser → Browser
reset start b = record b {
  path = start;
  selected = [];
  screen = browse;
  in_place = true;
  target = "";
  stop_site = true;
}

-- The effect that lists a folder, up to its request, and behind the answer.
unfoldable pub listing : Browser → Browser
listing b = record b { loading = true; error = ""; slow = false }

unfoldable pub listed : (ok : Bool) → List Entry → String → Browser → Browser
listed ok entries message b =
    if ok
    then record b { loading = false; entries = entries; error = "" }
    else record b { loading = false; entries = []; error = message }

unfoldable pub has : String → List String → Bool
has p selected = any (λ q. q == p) selected

-- `toggle`: a set keeps the order of insertion.
unfoldable pub toggled : String → List String → List String
unfolding has
toggled p selected =
    if has p selected then keep (λ q. not (q == p)) selected else selected ++ p ∷ []

unfoldable pub toggle : String → Browser → Browser
unfolding toggled
toggle p b = record b { selected = toggled p b.selected }

-- The box of an entry: under a selected folder it is ticked and cannot be changed.
unfoldable pub covered : String → List String → Bool
unfolding within
covered p selected = any (λ s. not (s == p) && within p s) selected

unfoldable pub is_ticked : String → List String → Bool
unfolding has covered
is_ticked p selected = has p selected || covered p selected

-- `inPlace && canInPlace ? root : target.trim()`
unfoldable pub destination_of : Bool → Option String → String → String
destination_of in_place none target = trim target
destination_of in_place (some root) target = if in_place then root else trim target

unfoldable pub destination : List String → Browser → String
unfolding common_root destination_of
destination paths b = destination_of b.in_place (common_root paths b.selected) b.target

-- The path whose containers are asked for.
unfoldable pub is_restore : Step → Bool
is_restore browse = false
is_restore restore = true

unfoldable pub containers_path : List String → Browser → String
unfolding common_root is_restore
containers_path paths b =
    if is_restore b.screen && b.in_place then text_of (common_root paths b.selected) else ""

pub data Effect : Type 0 where
  download : (include : List String) → Effect
  restore_to : (target : String) (include : List String) (stop_containers : Bool) → Effect

unfoldable pub start_download : Browser → Browser × List Effect
start_download b = (record b { busy = true }, download b.selected ∷ [])

-- `inPlace && canInPlace && stopSite && containers.length > 0`
unfoldable pub stops : List String → List String → Browser → Bool
unfolding common_root
stops paths containers b =
    b.in_place
    && (present (common_root paths b.selected) && (b.stop_site && ltb 0 (length containers)))

unfoldable pub restore_with : String → Bool → Browser → Browser × List Effect
restore_with target stop b =
    if target == ""
    then (b, [])
    else (record b { busy = true }, restore_to target b.selected stop ∷ [])

unfoldable pub start_restore : List String → List String → Browser → Browser × List Effect
unfolding destination stops restore_with
start_restore paths containers b = restore_with (destination paths b) (stops paths containers b) b

-- Behind the answer; `started` is what `handleStartResponse` returned, and closes the dialog.
unfoldable pub answered : Bool → Browser → Browser × Bool
answered started b = (record b { busy = false }, started)

-- The buttons.
unfoldable pub download_disabled : Browser → Bool
download_disabled b = b.busy || eqb (length b.selected) 0

unfoldable pub restore_disabled : List String → Browser → Bool
unfolding destination
restore_disabled paths b = b.busy || destination paths b == ""

-- The targets of the breadcrumbs, from the names along the path.
unfoldable pub crumb : List String → ℕ → String
crumb parts i = concat ("/" ∷ join "/" (take i parts) ∷ [])

-- ===== src/Browser/View.antt =====
-- What `SnapshotBrowser` of ui/src/components/snapshot-browser.jsx shows: the folder that is listed,
-- the selection, and the form of a restore.
use restic_golang.Base.{
  String, Bool, not, ◌&&◌, ◌||◌, Option, none, some, List, [], ◌∷◌, if◌then◌else◌, ◌==◌, eqb, ltb,
  length, map, concat, join, present, show, truthy,
}
use restic_golang.Browser.{
  Browser, Entry, browse, restore, common_root, covered, is_ticked, download_disabled,
  restore_disabled,
}
use restic_golang.Format.{Clock, fmt_bytes, fmt_relative, short_id}

-- A row of the folder: the box, the folder that a press of the name opens, and its figures.
pub record Item : Type 0 where
  pub name : String
  pub ticked : Bool
  pub disabled : Bool
  pub opens : Option String
  pub size : String
  pub changed : String

unfoldable pub item : Clock → List String → Entry → Item
unfolding covered is_ticked
item clock selected e = record {
  name = e.name;
  ticked = is_ticked e.path selected;
  disabled = covered e.path selected;
  opens = if e.is_dir then some e.path else none;
  size = fmt_bytes e.size;
  changed = if e.mtime == "" then "" else fmt_relative clock e.mtime;
}

abbrev pub slow_text : String
slow_text = concat (
    "Reading the snapshot's file list. The first time can take a minute on remote "
    ∷ "storage; after that, folders open instantly." ∷ [])

pub data Folder : Type 0 where
  waiting : (note : Option String) → Folder
  failed : (error : String) → Folder
  empty : Folder
  items : List Item → Folder

unfoldable pub folder : Clock → Browser → Folder
unfolding item
folder clock b =
    if b.loading
    then waiting (if b.slow then some slow_text else none)
    else if truthy b.error
    then failed b.error
    else if eqb (length b.entries) 0
    then empty
    else items (map (item clock b.selected) b.entries)

unfoldable pub selected_text : Browser → String
selected_text b =
    if eqb (length b.selected) 0
    then "Nothing selected"
    else concat (show (length b.selected) ∷ " selected" ∷ [])

-- The form of a restore: its title, the box for the old place with the line under it, whether the
-- folder is asked for, the line under the box that stops containers, and the button.
pub record Form : Type 0 where
  pub title : String
  pub paths : List String
  pub in_place : Option (Bool × String)
  pub asks_target : Bool
  pub stop : Option (Bool × String)
  pub start_text : String
  pub start_disabled : Bool

-- The box is there with `canInPlace`, so where there is a root.
unfoldable pub in_place_box : Bool → Option String → Option (Bool × String)
in_place_box in_place none = none
in_place_box in_place (some root) = some (
  in_place,
  if in_place then concat ("In " ∷ root ∷ []) else "Off: restore into the folder below instead",
)

unfoldable pub form : (paths containers : List String) → Browser → Form
unfolding common_root in_place_box restore_disabled
form paths containers b =
    let root = common_root paths b.selected in
    record {
      title = concat ("Restore " ∷ show (length b.selected) ∷ " selected item(s)" ∷ []);
      paths = b.selected;
      in_place = in_place_box b.in_place root;
      asks_target = not b.in_place || not (present root);
      stop =
          if b.in_place && (present root && ltb 0 (length containers))
          then some (
            b.stop_site,
            concat (join ", " containers ∷ " stop first and start again afterwards." ∷ []),
          )
          else none;
      start_text = if b.busy then "Starting…" else "Start restore";
      start_disabled = restore_disabled paths b;
    }

-- The dialog shows one of its two steps.
pub record Files : Type 0 where
  pub title : String
  pub description : String
  pub folder : Folder
  pub selected : String
  pub download_disabled : Bool
  pub next_disabled : Bool

pub data View : Type 0 where
  files : Files → View
  restoring : Form → View

unfoldable pub files_view : Clock → (id time : String) → Browser → Files
unfolding folder selected_text download_disabled
files_view clock id time b = record {
  title = concat ("Files in snapshot " ∷ short_id id ∷ []);
  description = concat (
      "Taken "
      ∷ fmt_relative clock time
      ∷ ". Tick files or folders to restore or download just those."
      ∷ []);
  folder = folder clock b;
  selected = selected_text b;
  download_disabled = download_disabled b;
  next_disabled = eqb (length b.selected) 0;
}

unfoldable pub view : Clock → (id time : String) → (paths containers : List String) → Browser → View
unfolding files_view form
view clock id time paths containers b = elim b.screen [
  | browse ↦ files (files_view clock id time b)
  | restore ↦ restoring (form paths containers b)
]

-- The inputs: the breadcrumbs and the folders, the steps, and the fields of the form.
pub data Input : Type 0 where
  open_folder : (path : String) → Input
  next back : Input
  set_in_place set_stop_site : Bool → Input
  set_target : String → Input

unfoldable pub input : Browser → Input → Browser
input b (open_folder path) = record b { path = path }
input b next = record b { screen = restore }
input b back = record b { screen = browse }
input b (set_in_place checked) = record b { in_place = checked }
input b (set_stop_site checked) = record b { stop_site = checked }
input b (set_target target) = record b { target = target }

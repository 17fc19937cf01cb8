-- ===== src/Restore/Database.antt =====
-- `DbRestoreDialog` (ui/src/components/db-restore-dialog.jsx): a database dump goes over the live
-- database, whose name has to be typed, or next to it.
use restic_golang.Base.{
  String, Bool, true, not, ◌&&◌, ◌||◌, Option, none, some, List, [], ◌∷◌, if◌then◌else◌, ◌==◌,
  concat, keep, find, trim,
}

pub record Source : Type 0 where
  pub id : String
  pub engine : String
  pub database : String

-- `sources` is `none` until the databases are known.
pub record Dialog : Type 0 where
  pub sources : Option (List Source)
  pub source_id : String
  pub mode : String
  pub into : String
  pub safety : Bool
  pub typed : String
  pub busy : Bool

-- The effect on opening, of a dump of the database `dumped`.
unfoldable pub opened : String → Dialog → Dialog
opened dumped d = record d {
  mode = "replace";
  into = concat (dumped ∷ "_restored" ∷ []);
  safety = true;
  typed = "";
  sources = none;
}

-- `a || b`, and `?.id || ""`
unfoldable pub first_of : Option Source → Option Source → Option Source
first_of none b = b
first_of (some a) b = some a

unfoldable pub id_of : Option Source → String
id_of none = ""
id_of (some s) = s.id

unfoldable pub head : List Source → Option Source
head [] = none
head (s ∷ _) = some s

unfoldable pub preferred : (default_id dumped : String) → List Source → Option Source
unfolding first_of head
preferred default_id dumped list =
    first_of (find (λ d. d.id == default_id) list)
      (first_of (find (λ d. d.database == dumped) list) (head list))

-- Behind the request for the databases.
unfoldable pub listed : (engine default_id dumped : String) → List Source → Dialog → Dialog
unfolding preferred id_of
listed engine default_id dumped databases d =
    let list = keep (λ s. s.engine == engine) databases in
    record d { sources = some list; source_id = id_of (preferred default_id dumped list) }

-- The inputs of the form.
pub data Input : Type 0 where
  choose_source choose_mode type_into type_name : String → Input
  tick_safety : Bool → Input

unfoldable pub input : Input → Dialog → Dialog
input (choose_source id) d = record d { source_id = id }
input (choose_mode m) d = record d { mode = m }
input (type_into t) d = record d { into = t }
input (type_name t) d = record d { typed = t }
input (tick_safety on) d = record d { safety = on }

unfoldable pub source_in : String → Option (List Source) → Option Source
source_in id none = none
source_in id (some list) = find (λ s. s.id == id) list

unfoldable pub source : Dialog → Option Source
unfolding source_in
source d = source_in d.source_id d.sources

-- What is sent; an `into` of "" replaces the database.
pub data Effect : Type 0 where
  restore_db : (database_id into : String) (safety_backup : Bool) → Effect

-- `target`, `ready` and `start`, of the source that is chosen.
unfoldable pub target : Source → Dialog → String
target s d = if d.mode == "replace" then s.database else trim d.into

unfoldable pub is_ready : Source → Dialog → Bool
unfolding target
is_ready s d = not (target s d == "") && (d.mode == "copy" || d.typed == s.database)

unfoldable pub start_with : Option Source → Dialog → Dialog × List Effect
unfolding is_ready target
start_with none d = (d, [])
start_with (some s) d =
    if is_ready s d
    then (
      record d { busy = true },
      restore_db s.id (if d.mode == "copy" then target s d else "") d.safety ∷ [],
    )
    else (d, [])

unfoldable pub start : Dialog → Dialog × List Effect
unfolding source start_with
start d = start_with (source d) d

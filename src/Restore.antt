-- ===== src/Restore.antt =====
-- Restores (ui/src/lib/snapshots.js, the `RestoreDialog` of ui/src/components/snapshots-panel.jsx
-- and ui/src/components/db-restore-dialog.jsx). The answers of the server are arguments of the
-- functions behind them; `containers` is what `useContainersUsing` holds.
pub mod Database
pub mod Laws
use restic_golang.Base.{
  ℕ, String, Bool, true, false, not, ◌&&◌, ◌||◌, Option, none, some, List, [], ◌∷◌, if◌then◌else◌,
  ◌==◌, ltb, any, concat, length, trim, strip_prefix, head_or, or_text,
}
use restic_golang.Runs.{Table, lookup}

-- What the interface reads of a snapshot.
pub record Snapshot : Type 0 where
  pub id : String
  pub tags : List String
  pub paths : List String

abbrev pub db_tag : String
db_tag = "resticweb-db:"

abbrev pub pre_restore_tag : String
pre_restore_tag = "resticweb-prerestore"

abbrev pub engine_label_table : Table
engine_label_table = ("postgres", "PostgreSQL") ∷ ("mysql", "MySQL") ∷ ("mariadb", "MariaDB") ∷ []

unfoldable pub engine_label : String → String
unfolding lookup
engine_label engine = or_text (or_text (lookup engine engine_label_table) engine) "Database"

-- The loop over the tags.
unfoldable pub engine_of : List String → String
unfolding strip_prefix
engine_of [] = ""
engine_of (t ∷ tags) =
    let rest = engine_of tags in elim (strip_prefix db_tag t) [ none ↦ rest | some e ↦ e ]

unfoldable pub snapshot_engine : Snapshot → String
unfolding engine_of
snapshot_engine s = engine_of s.tags

unfoldable pub is_safety_snapshot : Snapshot → Bool
is_safety_snapshot s = any (λ t. t == pre_restore_tag) s.tags

-- What a snapshot holds, as `snapshotLook` tells apart.
pub data Look : Type 0 where
  safety_copy database_dump files : Look

unfoldable pub snapshot_look : Snapshot → Look
unfolding is_safety_snapshot snapshot_engine
snapshot_look s =
    if is_safety_snapshot s
    then safety_copy
    else if snapshot_engine s == ""
    then files
    else database_dump

-- The state of `RestoreDialog`.
pub record Dialog : Type 0 where
  pub custom : Bool
  pub target : String
  pub stop_site : Bool
  pub busy : Bool

unfoldable pub has_default : String → Bool
has_default default_target = not (trim default_target == "")

-- The effect that fills the dialog when it opens.
unfoldable pub opened : String → Dialog → Dialog
unfolding has_default
opened default_target d = record d {
  custom = not (has_default default_target);
  target = if has_default default_target then trim default_target else "";
  stop_site = true;
}

unfoldable pub destination : String → Dialog → String
destination default_target d = trim (if d.custom then d.target else default_target)

-- The path whose containers are asked for while the dialog is open.
unfoldable pub containers_path : String → Dialog → String
unfolding has_default destination
containers_path default_target d =
    if has_default default_target && not d.custom then destination default_target d else ""

-- The box that unlocks another path.
unfoldable pub set_custom : String → Bool → Dialog → Dialog
set_custom default_target on d = record d {
  custom = on;
  target = if on && trim d.target == "" then trim default_target else d.target;
}

unfoldable pub set_target : String → Dialog → Dialog
set_target t d = record d { target = t }

unfoldable pub set_stop_site : Bool → Dialog → Dialog
set_stop_site on d = record d { stop_site = on }

pub data Effect : Type 0 where
  restore : (target : String) (stop_containers : Bool) → Effect

-- `start` up to its `await`.
unfoldable pub start : String → List String → Dialog → Dialog × List Effect
unfolding destination
start default_target containers d = if destination default_target d == "" then (d, []) else (
  record d { busy = true },
  restore (destination default_target d) (d.stop_site && ltb 0 (length containers)) ∷ [],
)

unfoldable pub is_disabled : String → Dialog → Bool
unfolding destination
is_disabled default_target d = d.busy || destination default_target d == ""

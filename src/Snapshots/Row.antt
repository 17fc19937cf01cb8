-- ===== src/Snapshots/Row.antt =====
-- `SnapshotRow` of ui/src/components/snapshots-panel.jsx: a row of the list.
use restic_golang.Base.{
  ℕ, String, Bool, false, not, ◌||◌, Option, none, some, List, [], ◌∷◌, ◌++◌, if◌then◌else◌, ◌==◌,
  eqb, ltb, concat, join, or_text, truthy, keep, length,
}
use restic_golang.Format.{Clock, fmt_bytes, fmt_count, short_id}
use restic_golang.Restore.{snapshot_engine, engine_label, is_safety_snapshot}
use restic_golang.Snapshots.{Listed, Panel}

-- `SnapshotRow`: the texts of one snapshot, and which buttons it has.
unfoldable pub size_fact : Option ℕ → List String
unfolding fmt_bytes
size_fact none = []
size_fact (some n) = fmt_bytes n ∷ []

unfoldable pub files_fact : Clock → Option ℕ → List String
unfolding fmt_count
files_fact clock none = []
files_fact clock (some n) =
    concat (fmt_count clock n ∷ " file" ∷ (if eqb n 1 then "" else "s") ∷ []) ∷ []

unfoldable pub facts : Clock → Listed → List String
unfolding size_fact files_fact
facts clock l = keep truthy (size_fact l.size ++ files_fact clock l.files)

unfoldable pub engine_fact : (engine : String) → List String
unfolding engine_label
engine_fact engine = if engine == "" then [] else concat (engine_label engine ∷ " dump" ∷ []) ∷ []

unfoldable pub row_text : Clock → Listed → String
unfolding facts engine_fact snapshot_engine
row_text clock l =
    join " · " (keep truthy (engine_fact (snapshot_engine l.snapshot) ++ facts clock l))

-- The paths of files, behind the facts.
unfoldable pub paths_text : (has_facts : Bool) → List String → String
paths_text has_facts [] = ""
paths_text has_facts (p ∷ ps) = concat ((if has_facts then " · " else "") ∷ join ", " (p ∷ ps) ∷ [])

unfoldable pub row_paths : Clock → Listed → String
unfolding facts paths_text snapshot_engine
row_paths clock l =
    let has_facts = ltb 0 (length (facts clock l)) in
    if truthy (snapshot_engine l.snapshot) then "" else paths_text has_facts l.snapshot.paths

unfoldable pub row_id : Listed → String
unfolding short_id
row_id l = or_text l.short (short_id l.snapshot.id)

-- Which of the badges and buttons a row has.
pub record Row : Type 0 where
  pub engine_badge : Bool
  pub safety_badge : Bool
  pub browse_button : Bool
  pub menu_disabled : Bool

unfoldable pub is_id : String → Option String → Bool
is_id id none = false
is_id id (some i) = i == id

unfoldable pub row : Panel → Listed → Row
unfolding snapshot_engine is_safety_snapshot is_id
row p l = record {
  engine_badge = truthy (snapshot_engine l.snapshot);
  safety_badge = is_safety_snapshot l.snapshot;
  browse_button = not (truthy (snapshot_engine l.snapshot));
  menu_disabled = is_id l.snapshot.id p.downloading_id || is_id l.snapshot.id p.forgetting_id;
}

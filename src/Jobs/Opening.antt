-- ===== src/Jobs/Opening.antt =====
-- `NewJobDialog` of ui/src/routes/jobs.jsx as the page renders it: when its effect runs, and what it
-- does then to what was typed. An array is known by the load that made it: the loader makes three
-- new ones, and while there are none, every render of the page does.
use restic_golang.Base.{
  ℕ, ◌≡◌, String, Bool, true, false, not, ◌&&◌, if◌then◌else◌, ◌==◌, eqb, head_or,
}
use restic_golang.Jobs.{Lists, Dialog, opened}

pub record Props : Type 0 where
  pub is_open : Bool
  pub prefer : String
  pub lists : Lists
  pub load : ℕ

-- The component: the props of its last render, and its state.
pub record Mounted : Type 0 where
  pub props : Props
  pub dialog : Dialog

unfoldable pub is_same : Bool → Bool → Bool
is_same true b = b
is_same false b = not b

-- `[open, folders, databases, repositories, preferKind]` as they were in the last render.
unfoldable pub same_deps : Props → Props → Bool
unfolding is_same
same_deps p q = is_same p.is_open q.is_open && (eqb p.load q.load && p.prefer == q.prefer)

-- The effect: `if (!open) return`.
unfoldable pub effect : Props → Dialog → Dialog
unfolding opened
effect p d = if p.is_open then opened p.prefer p.lists d else d

unfoldable pub render : Props → Mounted → Mounted
unfolding same_deps effect
render p m = record {
  props = p;
  dialog = if same_deps m.props p then m.dialog else effect p m.dialog;
}

-- The form as it is for a dialog in which nothing was typed or chosen.
abbrev pub IsFresh : Props → Dialog → Type 0
IsFresh p d =
    (d.name ≡ "")
    × (d.error ≡ "")
    × (d.auto_daily ≡ false)
    × (d.folder_id ≡ head_or "" p.lists.folders)
    × (d.database_id ≡ head_or "" p.lists.databases)
    × (d.repository_id ≡ head_or "" p.lists.repositories)

-- The dialog was open already, on the same lists and the same filter.
abbrev pub IsUnchanged : Props → Props → Type 0
IsUnchanged p q = (p.is_open ≡ q.is_open) × (p.load ≡ q.load) × (p.prefer ≡ q.prefer)

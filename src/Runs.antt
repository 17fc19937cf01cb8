-- ===== src/Runs.antt =====
-- Run status and kind (ui/src/lib/runs.js), and the run record as the API returns it
-- (internal/core/model.go). A field that the server may leave out is "" or 0 where the interface
-- tests only whether it is there, and an `Option` where it is an object.
pub mod Laws
use restic_golang.Base.{
  ℕ, suc, ◌*◌, min, String, Bool, true, false, ◌||◌, Option, none, some, List, [], ◌∷◌,
  if◌then◌else◌, ◌==◌, or_text,
}

-- `negsuc n` is -(n + 1).
pub data ℤ : Type 0 where
  pos negsuc : ℕ → ℤ

-- `percent` is the fraction done, in millionths.
pub record Progress : Type 0 where
  pub percent : ℤ
  pub files_done : ℕ
  pub total_files : ℕ
  pub bytes_done : ℕ
  pub total_bytes : ℕ
  pub current_file : String

-- A speed test's result; `overhead` is in milliseconds, the speeds in bytes per second.
pub record Speed : Type 0 where
  pub score : ℕ
  pub rating : String
  pub upload : ℕ
  pub download : ℕ
  pub overhead : ℕ

-- `total_duration` is in milliseconds.
pub record Summary : Type 0 where
  pub files_new : ℕ
  pub files_changed : ℕ
  pub files_unmodified : ℕ
  pub files_restored : ℕ
  pub bytes_restored : ℕ
  pub data_added : ℕ
  pub total_files_processed : ℕ
  pub total_bytes_processed : ℕ
  pub total_duration : ℕ
  pub snapshot_id : String
  pub speed : Option Speed

pub record Run : Type 0 where
  pub id : String
  pub kind : String
  pub status : String
  pub job_id : String
  pub job_name : String
  pub repository_id : String
  pub repo_name : String
  pub error : String
  pub started_at : String
  pub finished_at : String
  pub safety_snapshot : String
  pub progress : Option Progress
  pub summary : Option Summary

-- An object literal used as a table.
abbrev pub Table : Type 0
Table = List (String × String)

unfoldable pub lookup : String → Table → String
lookup k [] = ""
lookup k ((j, v) ∷ t) = if j == k then v else lookup k t

unfoldable pub is_active : String → Bool
is_active status = status == "starting" || status == "running"

abbrev pub status_label_table : Table
status_label_table =
    ("starting", "Starting")
    ∷ ("running", "Running")
    ∷ ("success", "Success")
    ∷ ("success_warnings", "Warnings")
    ∷ ("failed", "Failed")
    ∷ ("canceled", "Stopped")
    ∷ ("interrupted", "Interrupted")
    ∷ []

abbrev pub status_variant : Table
status_variant =
    ("starting", "running")
    ∷ ("running", "running")
    ∷ ("success", "success")
    ∷ ("success_warnings", "warning")
    ∷ ("failed", "destructive")
    ∷ ("interrupted", "destructive")
    ∷ ("canceled", "secondary")
    ∷ []

abbrev pub status_fill : Table
status_fill =
    ("starting", "bg-running")
    ∷ ("running", "bg-running")
    ∷ ("success", "bg-success")
    ∷ ("success_warnings", "bg-warning")
    ∷ ("failed", "bg-destructive")
    ∷ ("interrupted", "bg-destructive")
    ∷ ("canceled", "bg-muted-foreground/45")
    ∷ []

abbrev pub status_text : Table
status_text =
    ("starting", "text-running")
    ∷ ("running", "text-running")
    ∷ ("success", "text-success")
    ∷ ("success_warnings", "text-warning")
    ∷ ("failed", "text-destructive")
    ∷ ("interrupted", "text-destructive")
    ∷ ("canceled", "text-muted-foreground")
    ∷ []

abbrev pub status_phase : Table
status_phase =
    ("starting", "Starting…")
    ∷ ("running", "Running…")
    ∷ ("success", "Complete")
    ∷ ("success_warnings", "Complete, with warnings")
    ∷ ("failed", "Failed")
    ∷ ("canceled", "Stopped")
    ∷ ("interrupted", "Interrupted")
    ∷ []

abbrev pub kind_label_table : Table
kind_label_table =
    ("backup", "Backup")
    ∷ ("restore", "Restore")
    ∷ ("init", "Initialize")
    ∷ ("download", "Download")
    ∷ ("unlock", "Unlock")
    ∷ ("retention", "Retention")
    ∷ ("forget", "Forget")
    ∷ ("check", "Check")
    ∷ ("restore_db", "Database restore")
    ∷ ("speedtest", "Speed test")
    ∷ []

-- `TABLE[k] || k || "—"`
unfoldable pub label : Table → String → String
unfolding lookup
label t k = or_text (or_text (lookup k t) k) "—"

unfoldable pub status_label : String → String
unfolding label
status_label status = label status_label_table status

unfoldable pub kind_label : String → String
unfolding label
kind_label kind = label kind_label_table kind

-- One hundred per cent, in millionths of a per cent.
abbrev pub full : ℕ
full = 100000000

-- `Math.max(0, Math.min(100, p * 100))`
unfoldable pub clamp_percent : ℤ → ℕ
clamp_percent (pos p) = min full (p * 100)
clamp_percent (negsuc _) = 0

-- `run.progress ? Number(run.progress.percent) || 0 : 0`
unfoldable pub fraction : Option Progress → ℤ
fraction none = pos 0
fraction (some p) = p.percent

unfoldable pub is_finished_well : String → Bool
is_finished_well status = status == "success" || status == "success_warnings"

-- `displayPercent` of a run that is there, in millionths of a per cent.
unfoldable pub percent_of : Run → ℕ
unfolding is_finished_well fraction clamp_percent
percent_of run = if is_finished_well run.status then full else clamp_percent (fraction run.progress)

unfoldable pub display_percent : Option Run → ℕ
unfolding percent_of
display_percent none = 0
display_percent (some run) = percent_of run

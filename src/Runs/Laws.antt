-- ===== src/Runs/Laws.antt =====
-- About `displayPercent` of ui/src/lib/runs.js.
use restic_golang.Base.{ℕ, ◌≤◌, ◌≡◌, true, false, some, arith}
use restic_golang.Runs.{
  negsuc, Run, is_finished_well, full, clamp_percent, fraction, display_percent,
}

-- The percentage shown is between 0 and 100, whatever the server reports; a run that ended well
-- reads exactly 100, and any other run whose progress is negative reads 0.
pub display_percent_bounds :
    (run : Run)
    → (display_percent (some run) ≤ full)
      × (is_finished_well run.status ≡ true → display_percent (some run) ≡ full)
      × ((n : ℕ)
          → is_finished_well run.status ≡ false
          → fraction run.progress ≡ negsuc n
          → display_percent (some run) ≡ 0)
unfolding display_percent clamp_percent
display_percent_bounds run = (ground arith, ground arith, λ n. ground arith)

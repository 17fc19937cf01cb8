-- ===== src/SpeedLimit/Laws.antt =====
-- About `toMB` and `toKiB` of ui/src/components/repo-settings.jsx.
use restic_golang.Base.{ℕ, ◌+◌, ◌≤◌, ◌<◌, ◌≡◌, arith}
use restic_golang.Format.{round}
use restic_golang.SpeedLimit.{hundredths, kib_of}

-- A limit that is shown in hundredths of a MB/s and saved unchanged is off by 5 KiB/s at most, and
-- from then on it stays; but a limit of 1 to 5 KiB/s becomes 0, which is no limit.
pub kib_of-hundredths :
    (k : ℕ)
    → (kib_of (hundredths k) 100 ≤ k + 5)
      × (k ≤ kib_of (hundredths k) 100 + 5)
      × (hundredths (kib_of (hundredths k) 100) ≡ hundredths k)
      × (k < 6 → kib_of (hundredths k) 100 ≡ 0)
unfolding kib_of hundredths round
kib_of-hundredths k = (omega arith, omega arith, omega arith, λ h. omega (arith, h))

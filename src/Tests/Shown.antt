-- ===== src/Tests/Shown.antt =====
-- What is shown, at concrete inputs.
use restic_golang.Base.{ℕ, ◌+◌, ◌≡◌, ◌≤◌, ◌<◌, refl, false, none, some, List, [], ◌∷◌, arith}
use restic_golang.Pagination.{page_slice, list_pagination, Controls}
use restic_golang.Pagination.Laws.{gather, gather-pages, Describes, list_pagination-Describes}
use restic_golang.SpeedLimit.{hundredths, kib_of}
use restic_golang.SpeedLimit.Laws.{kib_of-hundredths}
use restic_golang.Runs.{Run}

abbrev items : List ℕ
items = 4 ∷ 8 ∷ 15 ∷ 16 ∷ 23 ∷ []

gather-pages_example : gather items 2 (page_slice items 1 2).total_pages ≡ items
gather-pages_example = gather-pages items 2

abbrev second_page : Controls
second_page = record {
  from = 3;
  to = 4;
  total = 5;
  page = 2;
  total_pages = 3;
  previous_disabled = false;
  next_disabled = false;
  previous_page = 1;
  next_page = 3;
}

list_pagination-second : list_pagination 2 2 5 ≡ some second_page
unfolding list_pagination
list_pagination-second = refl

list_pagination-Describes_example : Describes (page_slice items 2 2) second_page
list_pagination-Describes_example =
    list_pagination-Describes items 2 2 second_page (omega arith) list_pagination-second

abbrev going : Run
going = record {
  id = "r1";
  kind = "backup";
  status = "running";
  job_id = "j1";
  job_name = "Nightly";
  repository_id = "r1";
  repo_name = "local";
  error = "";
  started_at = "2024-05-01T02:00:00Z";
  finished_at = "";
  safety_snapshot = "";
  progress = none;
  summary = none;
}

kib_of-hundredths_example :
    (kib_of (hundredths 3) 100 ≤ 3 + 5)
    × (3 ≤ kib_of (hundredths 3) 100 + 5)
    × (hundredths (kib_of (hundredths 3) 100) ≡ hundredths 3)
    × (3 < 6 → kib_of (hundredths 3) 100 ≡ 0)
kib_of-hundredths_example = kib_of-hundredths 3

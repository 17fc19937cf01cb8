-- ===== src/SpeedTest.antt =====
-- The speed test of a repository (ui/src/components/speed-test.jsx): its results, the running test,
-- and its start.
use restic_golang.Api.{Request, Response}
use restic_golang.Api.Endpoints.{speed_test, repositories_call}
use restic_golang.Base.{
  ℕ, ◌*◌, ◌^◌, min, max, String, Bool, true, false, ◌&&◌, ◌||◌, Option, none, some, List, [], ◌∷◌,
  if◌then◌else◌, ◌==◌, ltb, any, find, concat, show,
}
use restic_golang.Format.{Clock, fmt_bytes, fmt_relative, to_fixed_1}
use restic_golang.ListPage.{Loaded, failed, loaded, listed}
use restic_golang.Runs.{Run, Speed}
use restic_golang.Speed.{Tone, speed_tone, fmt_speed, estimate_seconds, fmt_estimate}
use restic_golang.StartRun.{handle_start_response}
use restic_golang.StartRun

-- One result; `overhead` of its speed is in milliseconds.
pub record Test : Type 0 where
  pub run_id : String
  pub tested_at : String
  pub size_bytes : ℕ
  pub speed : Speed

abbrev pub sizes : List (ℕ × String)
sizes = (16, "16 MB") ∷ (64, "64 MB") ∷ (256, "256 MB") ∷ []

abbrev pub gib : ℕ
gib = 1024 ^ 3

-- `SpeedScore`, without the number where `rating` is set; and its colour.
unfoldable pub score_text : (rating : Bool) → Speed → String
score_text rating s = if rating then s.rating else concat (show s.score ∷ " " ∷ s.rating ∷ [])

unfoldable pub score_tone : Speed → Tone
unfolding speed_tone
score_tone s = speed_tone s.score

-- `Math.max(2, Math.min(98, score))`, the place of the mark on the track.
unfoldable pub mark : (score : ℕ) → ℕ
mark score = max 2 (min 98 score)

-- `Result`: the measurements, and what they mean for 1 GB.
pub record Result : Type 0 where
  pub upload : String
  pub download : String
  pub overhead : String
  pub backup : String
  pub restore : String

unfoldable pub result : Speed → Result
unfolding fmt_speed to_fixed_1 estimate_seconds fmt_estimate
result s = record {
  upload = fmt_speed s.upload;
  download = fmt_speed s.download;
  overhead = concat (to_fixed_1 s.overhead 1000 ∷ " s" ∷ []);
  backup = fmt_estimate (estimate_seconds gib s.upload s.overhead);
  restore = fmt_estimate (estimate_seconds gib s.download s.overhead);
}

unfoldable pub tested_text : Clock → Test → String
unfolding fmt_relative fmt_bytes
tested_text clock t =
    concat ("Tested " ∷ fmt_relative clock t.tested_at ∷ " with " ∷ fmt_bytes t.size_bytes ∷ [])

-- A line of the history.
unfoldable pub history_text : Clock → Test → String × String
unfolding fmt_relative fmt_speed
history_text clock t = (
  fmt_relative clock t.tested_at,
  concat ("↑ " ∷ fmt_speed t.speed.upload ∷ " · ↓ " ∷ fmt_speed t.speed.download ∷ []),
)

-- `phaseOf`, of a percentage in parts of a hundredth by 10 ^ 6.
unfoldable pub phase_of : (percent : ℕ) → String
phase_of percent =
    if ltb percent 10000000
    then "Timing a tiny backup and restore…"
    else if ltb percent 55000000
    then "Uploading test data…"
    else if ltb percent 95000000
    then "Downloading it back…"
    else "Forgetting the test snapshots…"

-- The loader: its message is its own, whatever the answer says.
unfoldable pub load : Response → Option (List Test) → Loaded (List Test)
unfolding listed
load res results =
    if res.ok then loaded (listed results) else failed "Could not load speed test results."

-- The test that runs on the repository, and whether another operation holds it.
unfoldable pub running : (repository_id : String) → List Run → Option Run
running repository_id active =
    find (λ (r : Run). r.kind == "speedtest" && r.repository_id == repository_id) active

unfoldable pub is_free : Option Run → Bool
is_free none = true
is_free (some _) = false

unfoldable pub busy_elsewhere : (repository_id : String) → List Run → Bool
unfolding running is_free
busy_elsewhere repository_id active =
    is_free (running repository_id active)
    && any (λ (r : Run). r.repository_id == repository_id) active

-- The state: the size chosen, and whether a start is waiting.
pub record State : Type 0 where
  pub size : ℕ
  pub starting : Bool

unfoldable pub start : (repository_id : String) → State → State × Request
unfolding repositories_call
start repository_id s =
    (record s { starting = true }, repositories_call (speed_test repository_id s.size))

unfoldable pub start_answered : Response → State → State × (Bool × List StartRun.Effect)
unfolding handle_start_response
start_answered res s = (
  record s { starting = false },
  handle_start_response res "Could not start the speed test." true,
)

-- What stands in the card under the running test.
pub data View : Type 0 where
  skeleton nothing never : View
  problem : (message : String) → View
  results : (latest : Test) → (earlier : List Test) → View

unfoldable pub without_latest : (is_running : Bool) → View
without_latest is_running = if is_running then nothing else never

unfoldable pub view :
    (is_running loading : Bool) → (error : Option String) → Option (List Test) → View
unfolding without_latest
view is_running true error none = skeleton
view is_running false (some message) none = problem message
view is_running false none none = without_latest is_running
view is_running loading error (some []) = without_latest is_running
view is_running loading error (some (t ∷ ts)) = results t ts

-- The button, which is there while no test runs, and the line under it.
unfoldable pub start_disabled : State → (busy_elsewhere : Bool) → Bool
start_disabled s busy = s.starting || busy

unfoldable pub start_text : State → (has_latest : Bool) → String
start_text s has_latest =
    if s.starting then "Starting…" else if has_latest then "Test again" else "Run speed test"

unfoldable pub note : State → (busy_elsewhere : Bool) → String
unfolding fmt_bytes
note s busy =
    if busy
    then "Another operation is using this repository. The test can start once it finishes."
    else concat (
        "Moves about "
        ∷ fmt_bytes (s.size * 2 * 1024 ^ 2)
        ∷ " over the network. The test snapshots are forgotten afterwards; their space is freed at the next prune."
        ∷ [])

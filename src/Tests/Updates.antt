-- ===== src/Tests/Updates.antt =====
-- The shared live state, loads and the session at concrete inputs.
use restic_golang.Activity
use restic_golang.Base.{
  ℕ, ◌+◌, ◌≡◌, refl, true, false, none, some, List, [], ◌∷◌, ◌++◌, map, String, arith,
}
use restic_golang.Runs.{Run, is_active}
use restic_golang.Live.{Message, Line, initial, receive_all, run_event, opened, stream_all}
use restic_golang.Live.Active.{find_id, latest, IsConsistent, receive_all-refines}
use restic_golang.Live.Stream.{Increasing, log_message, stream_all-Increasing, stream_all-replay}
use restic_golang.UseFetch
use restic_golang.UseFetch.Laws.{steps-newest}
use restic_golang.Session
use restic_golang.Session.Laws.{HasSession, require_auth-HasSession}

abbrev a_run : String → String → Run
a_run id status = record {
  id = id;
  kind = "backup";
  status = status;
  job_id = "j1";
  job_name = "Nightly";
  repository_id = "r1";
  repo_name = "local";
  error = "";
  started_at = "2024-05-01T02:00:00Z";
  finished_at = "";
  safety_snapshot = "";
  progress = none;
  summary = none;
}

abbrev run_message : Run → Message
run_message r = some (record { type = "run"; run = some r; progress = none; line = none })

-- Two runs start, a message is not JSON, and the first run ends.
abbrev messages : List Message
messages =
    run_message (a_run "r1" "starting")
    ∷ run_message (a_run "r2" "running")
    ∷ none
    ∷ run_message (a_run "r1" "success")
    ∷ []

receive_all-refines_example :
    ((id : String)
      → find_id id (receive_all initial messages).active_runs ≡ latest id none messages)
    × IsConsistent (receive_all initial messages)
receive_all-refines_example = receive_all-refines messages

receive_all-left : (receive_all initial messages).active_runs ≡ a_run "r2" "running" ∷ []
unfolding receive_all is_active run_event
receive_all-left = refl

abbrev a_line : ℕ → Line
a_line n = record { seq = n; level = "info"; message = "file" }

stream_all-Increasing_example :
    Increasing
      (stream_all true (opened none) (
        log_message (a_line 2)
        ∷ log_message (a_line 1)
        ∷ log_message (a_line 0)
        ∷ log_message (a_line 2)
        ∷ log_message (a_line 3)
        ∷ [])).lines
stream_all-Increasing_example = stream_all-Increasing true none (
    log_message (a_line 2)
    ∷ log_message (a_line 1)
    ∷ log_message (a_line 0)
    ∷ log_message (a_line 2)
    ∷ log_message (a_line 3)
    ∷ [])

stream_all-replay_example :
    (stream_all true (opened (some (a_run "r1" "running"))) (
      map log_message (a_line 1 ∷ a_line 2 ∷ [])
      ++ map log_message ((a_line 1 ∷ a_line 2 ∷ []) ++ a_line 3 ∷ []))).lines
    ≡ (a_line 1 ∷ a_line 2 ∷ []) ++ a_line 3 ∷ []
stream_all-replay_example =
    stream_all-replay (some (a_run "r1" "running")) (a_line 1 ∷ a_line 2 ∷ []) (a_line 3 ∷ [])
      (omega arith, (omega arith, (omega arith, tt)))

abbrev a_load : UseFetch.Fetch ℕ String
a_load = record (UseFetch.mounted none) { generation = 1; cancelled = 0 ∷ [] }

steps-newest_example :
    UseFetch.steps a_load (
      UseFetch.run ∷ (UseFetch.rejected 1 "down" ∷ [])
      ++ UseFetch.fulfilled (1 + 1) 7 ∷ (UseFetch.finished 1 ∷ [])
      ++ UseFetch.finished (1 + 1) ∷ UseFetch.fulfilled 0 5 ∷ [])
    ≡ record (UseFetch.step a_load UseFetch.run) { value = some 7; error = none; loading = false }
steps-newest_example =
    steps-newest a_load (UseFetch.rejected 1 "down" ∷ []) (UseFetch.finished 1 ∷ [])
      (UseFetch.fulfilled 0 5 ∷ []) 7 (omega arith, tt) (λ h. omega (arith, h), tt)
      (λ h. omega (arith, h), tt) (λ h. omega (arith, h), tt)

-- A session that ended, and a login.
abbrev answers : List Session.Event
answers =
    Session.status_answer true (some (record { setup_required = false; authenticated = true }))
    ∷ Session.logout_answer
    ∷ Session.login_answer true
    ∷ []

answers-pages : Session.require_auth (Session.steps Session.initial answers) ≡ Session.pages
unfolding Session.require_auth Session.steps
answers-pages = refl

require_auth-HasSession_example : HasSession answers
require_auth-HasSession_example = require_auth-HasSession answers answers-pages

-- A page is asked for, and a shorter history arrives.
abbrev choices : List Activity.Event
choices = Activity.choose_kind "backup" ∷ Activity.choose_page 4 ∷ Activity.loaded 150 ∷ []

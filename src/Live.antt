-- ===== src/Live.antt =====
-- The live state that the whole interface shares, and the stream of one run
-- (ui/src/lib/live.jsx). The server is a list of messages, in the order of their arrival.
pub mod Active
pub mod Stream
use restic_golang.Base.{
  ℕ, suc, ◌+◌, String, Bool, true, false, not, ◌&&◌, ◌||◌, Option, none, some, List, [], ◌∷◌, ◌++◌,
  if◌then◌else◌, ◌==◌, eqb, leb, keep, present, concat, show,
}
use restic_golang.Runs.{Run, Progress, is_active}

-- `seq` is 0 where the line has none.
pub record Line : Type 0 where
  pub seq : ℕ
  pub level : String
  pub message : String

-- A parsed event; a message is `none` where `JSON.parse` throws.
pub record Event : Type 0 where
  pub type : String
  pub run : Option Run
  pub progress : Option Progress
  pub line : Option Line

abbrev pub Message : Type 0
Message = Option Event

pub record Live : Type 0 where
  pub active_runs : List Run
  pub runs_version : ℕ

abbrev pub initial : Live
initial = record { active_runs = []; runs_version = 0 }

abbrev pub other_id : String → Run → Bool
other_id id r = not (r.id == id)

-- The update of `setActiveRuns`.
unfoldable pub set_active : Run → List Run → List Run
set_active run prev =
    let rest = keep (other_id run.id) prev in
    if is_active run.status then rest ++ run ∷ [] else rest

-- The run that an event of `/api/events` reports: `ev.type === "run" && ev.run`.
unfoldable pub run_event : Message → Option Run
run_event none = none
run_event (some ev) = if ev.type == "run" then ev.run else none

unfoldable pub apply_run : Option Run → Live → Live
unfolding set_active
apply_run none s = s
apply_run (some run) s = record {
  active_runs = set_active run s.active_runs;
  runs_version = s.runs_version + 1;
}

-- `es.onmessage` of the provider.
unfoldable pub on_message : Live → Message → Live
unfolding apply_run
on_message s m = apply_run (run_event m) s

unfoldable pub receive_all : Live → List Message → Live
unfolding on_message
receive_all s [] = s
receive_all s (m ∷ ms) = receive_all (on_message s m) ms

pub record RunStream : Type 0 where
  pub run : Option Run
  pub lines : List Line
  pub seen_seq : ℕ

-- The state of `useRunStream` when its effect starts.
abbrev pub opened : Option Run → RunStream
opened run = record { run = run; lines = []; seen_seq = 0 }

-- `setRun((prev) => (prev ? { ...prev, progress } : prev))`
unfoldable pub set_progress : Progress → Option Run → Option Run
set_progress p none = none
set_progress p (some r) = some (record r { progress = some p })

-- The `log` branch: a line that was delivered before is dropped.
unfoldable pub add_line : Line → RunStream → RunStream
add_line line s = if not (eqb line.seq 0) && leb line.seq s.seen_seq then s else record s {
  lines = s.lines ++ line ∷ [];
  seen_seq = if eqb line.seq 0 then s.seen_seq else line.seq;
}

unfoldable pub on_log : Bool → Event → RunStream → RunStream
unfolding add_line
on_log with_log ev s = elim ev.line [
  | none ↦ s
  | some line ↦ if ev.type == "log" && with_log then add_line line s else s
]

unfoldable pub on_progress : Bool → Event → RunStream → RunStream
unfolding on_log set_progress
on_progress with_log ev s = elim ev.progress [
  | none ↦ on_log with_log ev s
  | some p ↦
      if ev.type == "progress"
      then record s { run = set_progress p s.run }
      else on_log with_log ev s
]

unfoldable pub on_event : Bool → Event → RunStream → RunStream
unfolding on_progress
on_event with_log ev s = elim ev.run [
  | none ↦ on_progress with_log ev s
  | some r ↦ if ev.type == "run" then record s { run = some r } else on_progress with_log ev s
]

-- `es.onmessage` of a run's stream.
unfoldable pub on_stream : Bool → RunStream → Message → RunStream
unfolding on_event
on_stream with_log s none = s
on_stream with_log s (some ev) = on_event with_log ev s

unfoldable pub stream_all : Bool → RunStream → List Message → RunStream
unfolding on_stream
stream_all with_log s [] = s
stream_all with_log s (m ∷ ms) = stream_all with_log (on_stream with_log s m) ms

-- `status` of the provider, and `refreshStatus` behind its `await`.
pub record Status : Type 0 where
  pub restic_installed : Bool
  pub restic_version : String

abbrev pub no_status : Status
no_status = record { restic_installed = false; restic_version = "" }

unfoldable pub refresh_status : (ok : Bool) → (got : Status) → Status → Status
refresh_status ok got s = if ok then got else s

abbrev pub skip_backlog_seq : ℕ
skip_backlog_seq = 9007199254740991

-- The address of a run's stream.
unfoldable pub stream_url : Bool → String → String
stream_url with_log run_id =
    if with_log
    then concat ("/api/runs/" ∷ run_id ∷ "/events" ∷ [])
    else concat ("/api/runs/" ∷ run_id ∷ "/events?after=" ∷ show skip_backlog_seq ∷ [])

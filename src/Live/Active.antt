-- ===== src/Live/Active.antt =====
-- About the list of active runs of ui/src/lib/live.jsx.
use restic_golang.Base.{
  ◌≡◌, ◌≢◌, refl, ap, ◌∙◌, inl, inr, String, Bool, true, Option, none, some, List, [], ◌∷◌, ◌++◌,
  arith, if◌then◌else◌, ◌==◌, eq_iff, keep, find, All, All-append, All-keep, All-keep_self,
  Bool-cases,
}
use restic_golang.Runs.{Run, is_active}
use restic_golang.Live.{
  Live, Message, initial, other_id, set_active, run_event, apply_run, on_message, receive_all,
}

abbrev pub Distinct : List Run → Type 0
Distinct [] = Unit
Distinct (r ∷ rs) = All (λ s. s.id ≢ r.id) rs × Distinct rs

-- Every run in the list is active, and no two have one id.
pub record IsConsistent (s : Live) : Type 0 where
  pub active : All (λ r. is_active r.status ≡ true) s.active_runs
  pub distinct : Distinct s.active_runs

Distinct-keep : (p : Run → Bool) (rs : List Run) → Distinct rs → Distinct (keep p rs)
Distinct-keep p [] d = tt
Distinct-keep p (r ∷ rs) (h, d) =
    ground (arith, All-keep (λ s. s.id ≢ r.id) p rs h, Distinct-keep p rs d)

Distinct-append :
    (rs : List Run) (r : Run) → Distinct rs → All (λ s. s.id ≢ r.id) rs → Distinct (rs ++ r ∷ [])
Distinct-append [] r d h = (tt, tt)
Distinct-append (s ∷ rs) r (k, d) (n, h) =
    (All-append (λ t. t.id ≢ s.id) rs (r ∷ []) k (λ e. n (sym_id e), tt), Distinct-append rs r d h)
  where
    sym_id : r.id ≡ s.id → s.id ≡ r.id
    sym_id e = cc

ne_of_other_id : (id : String) (r : Run) → other_id id r ≡ true → r.id ≢ id
ne_of_other_id id r h e = ground (arith, eq_iff r.id id)

set_active-IsConsistent :
    (run : Run) (prev : List Run)
    → All (λ r. is_active r.status ≡ true) prev
    → Distinct prev
    → All (λ r. is_active r.status ≡ true) (set_active run prev) × Distinct (set_active run prev)
unfolding set_active
set_active-IsConsistent run prev a d =
    let rest = keep (other_id run.id) prev in
    let a' = All-keep (λ r. is_active r.status ≡ true) (other_id run.id) prev a in
    let d' = Distinct-keep (other_id run.id) prev d in
    let apart = All-keep_self (λ s. s.id ≢ run.id) (other_id run.id) (ne_of_other_id run.id) prev in
    elim (Bool-cases (is_active run.status)) [
      | inl h ↦ rw h (
        All-append (λ r. is_active r.status ≡ true) rest (run ∷ []) a' (h, tt),
        Distinct-append rest run d' apart,
      )
      | inr h ↦ rw h (a', d')
    ]

-- Every message keeps the list of active runs consistent: all active, no id twice.
pub on_message-IsConsistent :
    (s : Live) (m : Message) → IsConsistent s → IsConsistent (on_message s m)
unfolding on_message
on_message-IsConsistent s m c = step (run_event m)
  where
    step : (e : Option Run) → IsConsistent (apply_run e s)
    step none = c
    step (some run) =
        let (a, d) = set_active-IsConsistent run s.active_runs c.active c.distinct in
        record { active = a; distinct = d }

receive_all-IsConsistent :
    (ms : List Message) (s : Live) → IsConsistent s → IsConsistent (receive_all s ms)
unfolding receive_all
receive_all-IsConsistent [] s c = c
receive_all-IsConsistent (m ∷ ms) s c =
    receive_all-IsConsistent ms (on_message s m) (on_message-IsConsistent s m c)

-- The specification: what the last event about `id` said, if the run was active then.
unfoldable pub note : String → Run → Option Run → Option Run
note id r known = if r.id == id then (if is_active r.status then some r else none) else known

unfoldable pub note_event : String → Option Run → Option Run → Option Run
unfolding note
note_event id none known = known
note_event id (some r) known = note id r known

unfoldable pub latest : String → Option Run → List Message → Option Run
latest id known [] = known
latest id known (m ∷ ms) = latest id (note_event id (run_event m) known) ms

abbrev pub find_id : String → List Run → Option Run
find_id id = find (λ r. r.id == id)

find_id-keep_eq :
    (id gone : String) (rs : List Run) → gone ≡ id → find_id id (keep (other_id gone) rs) ≡ none
find_id-keep_eq id gone [] e = refl
find_id-keep_eq id gone (r ∷ rs) e =
    ground (arith, find_id-keep_eq id gone rs e, eq_iff r.id id, eq_iff r.id gone)

find_id-keep_ne :
    (id gone : String) (rs : List Run)
    → gone ≢ id
    → find_id id (keep (other_id gone) rs) ≡ find_id id rs
find_id-keep_ne id gone [] ne = refl
find_id-keep_ne id gone (r ∷ rs) ne =
    ground (arith, find_id-keep_ne id gone rs ne, eq_iff r.id id, eq_iff r.id gone)

abbrev or_last : String → Run → Option Run → Option Run
or_last id r none = if r.id == id then some r else none
or_last id r (some s) = some s

find_id-append :
    (id : String) (rs : List Run) (r : Run)
    → find_id id (rs ++ r ∷ []) ≡ or_last id r (find_id id rs)
find_id-append id [] r = refl
find_id-append id (s ∷ rs) r = ground (arith, find_id-append id rs r)

find_id-set_active :
    (id : String) (run : Run) (prev : List Run)
    → find_id id (set_active run prev) ≡ note id run (find_id id prev)
unfolding set_active note
find_id-set_active id run prev = ground (
  arith,
  eq_iff run.id id,
  find_id-append id (keep (other_id run.id) prev) run,
  find_id-keep_eq id run.id prev,
  find_id-keep_ne id run.id prev,
)

find_id-on_message :
    (id : String) (s : Live) (m : Message)
    → find_id id (on_message s m).active_runs
      ≡ note_event id (run_event m) (find_id id s.active_runs)
unfolding on_message note_event
find_id-on_message id s m = step (run_event m)
  where
    step :
        (e : Option Run)
        → find_id id (apply_run e s).active_runs ≡ note_event id e (find_id id s.active_runs)
    step none = refl
    step (some run) = find_id-set_active id run s.active_runs

find_id-receive_all :
    (id : String) (ms : List Message) (s : Live)
    → find_id id (receive_all s ms).active_runs ≡ latest id (find_id id s.active_runs) ms
unfolding receive_all latest
find_id-receive_all id [] s = refl
find_id-receive_all id (m ∷ ms) s =
    find_id-receive_all id ms (on_message s m)
    ∙ ap (λ known. latest id known ms) (find_id-on_message id s m)

-- After any sequence of messages, the run that the list holds under an id is the one that the
-- last event about that id reported, if it was active then, and no run otherwise; all the runs of
-- the list are active, and no two have the same id.
pub receive_all-refines :
    (ms : List Message)
    → ((id : String) → find_id id (receive_all initial ms).active_runs ≡ latest id none ms)
      × IsConsistent (receive_all initial ms)
receive_all-refines ms = (
  λ id. find_id-receive_all id ms initial,
  receive_all-IsConsistent ms initial (record { active = tt; distinct = tt }),
)

-- No event of the messages is about the id.
abbrev pub IsSilent : String → Option Run → Type 0
IsSilent id none = Unit
IsSilent id (some r) = r.id ≢ id

note_event-silent :
    (id : String) (e : Option Run) (known : Option Run)
    → IsSilent id e
    → note_event id e known ≡ known
unfolding note_event note
note_event-silent id none known h = refl
note_event-silent id (some r) known h = ground (arith, eq_iff r.id id)

latest-silent :
    (id : String) (ms : List Message) (known : Option Run)
    → All (λ m. IsSilent id (run_event m)) ms
    → latest id known ms ≡ known
unfolding latest
latest-silent id [] known h = refl
latest-silent id (m ∷ ms) known (h, hs) =
    latest-silent id ms (note_event id (run_event m) known) hs
    ∙ note_event-silent id (run_event m) known h

-- A run that the list holds stays there as long as no event is about it: a snapshot of the active
-- runs that leaves it out, as the server sends one after a dropped connection, does not remove it.
pub receive_all-keeps :
    (id : String) (ms : List Message) (s : Live)
    → All (λ m. IsSilent id (run_event m)) ms
    → find_id id (receive_all s ms).active_runs ≡ find_id id s.active_runs
receive_all-keeps id ms s h =
    find_id-receive_all id ms s ∙ latest-silent id ms (find_id id s.active_runs) h

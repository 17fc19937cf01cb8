-- ===== src/JobDetail/Laws.antt =====
-- About the deletion of a job in ui/src/routes/job-detail.jsx.
use restic_golang.Api.{Response}
use restic_golang.Api.Endpoints.{remove, jobs_call}
use restic_golang.Base.{
  ◌≡◌, refl, Bool, true, false, not, ◌&&◌, String, List, [], ◌∷◌, All, each_branch, both_branches,
  if◌then◌else◌,
}
use restic_golang.JobDetail.{
  Dialog, Event, open_dialog, cancel, press, tick, answer, Effect, send, opened, pressed, ticked,
  answered, remove_call, removed, step, steps,
}

-- The box is not ticked by any of the events.
abbrev pub IsUnticked : List Event → Type 0
IsUnticked [] = Unit
IsUnticked (tick true ∷ es) = ⊥
IsUnticked (tick false ∷ es) = IsUnticked es
IsUnticked (open_dialog ∷ es) = IsUnticked es
IsUnticked (cancel ∷ es) = IsUnticked es
IsUnticked (press ∷ es) = IsUnticked es
IsUnticked (answer _ _ ∷ es) = IsUnticked es

-- The request that deletes the job and leaves its snapshots alone.
abbrev pub IsPlain : (id : String) → Effect → Type 0
IsPlain id e = e ≡ send (jobs_call (remove id))

still_open : (b o : Bool) → (if b then false else o) ≡ true → o ≡ true
still_open true o h = cc
still_open false o h = h

module _ (id name : String) where
  abbrev Keeps : Dialog → Type 0
  Keeps d = (d.is_open ≡ true → d.forget_snapshots ≡ false) × All (IsPlain id) d.sent

  opened-Keeps : (d : Dialog) → Keeps d → Keeps (opened d)
  unfolding opened
  opened-Keeps d (h, k) =
      each_branch Keeps d.is_open {x = d}
        {y = record d { is_open = true; forget_snapshots = false; busy = false }} (λ _. (h, k))
        (λ _. (λ _. refl, k))

  pressed-Keeps : (d : Dialog) → Keeps d → Keeps (pressed id d)
  unfolding pressed remove_call
  pressed-Keeps d (h, k) =
      each_branch Keeps (d.is_open && not d.busy)
        {x = record d { busy = true; sent = send (remove_call id d.forget_snapshots) ∷ d.sent }}
        {y = d}
        (λ e.
          let is_open : d.is_open ≡ true = both d.is_open (not d.busy) e in
          (λ o. h o, (rw (h is_open) refl, k)))
        (λ _. (h, k))
    where
      both : (a b : Bool) → a && b ≡ true → a ≡ true
      both true b e = refl
      both false b e = cc

  ticked-Keeps : (d : Dialog) → Keeps d → Keeps (ticked false d)
  unfolding ticked
  ticked-Keeps d (h, k) =
      both_branches Keeps (d.is_open && not d.busy) {x = record d { forget_snapshots = false }}
        {y = d} (λ _. refl, k) (h, k)

  answer-Keeps : (f : Bool) (res : Response) (d : Dialog) → Keeps d → Keeps (answered name f res d)
  unfolding answered
  answer-Keeps f res d (h, k) = (λ o. h (still_open (removed name f res).0 d.is_open o), k)

  steps-Keeps :
      (es : List Event) (d : Dialog) → IsUnticked es → Keeps d → Keeps (steps id name d es)
  unfolding steps step answered
  steps-Keeps [] d u k = k
  steps-Keeps (open_dialog ∷ es) d u k = steps-Keeps es (opened d) u (opened-Keeps d k)
  steps-Keeps (cancel ∷ es) d u (h, k) =
      steps-Keeps es (record d { is_open = false }) u (λ o. cc, k)
  steps-Keeps (press ∷ es) d u k = steps-Keeps es (pressed id d) u (pressed-Keeps d k)
  steps-Keeps (tick true ∷ es) d u k = absurd u
  steps-Keeps (tick false ∷ es) d u k = steps-Keeps es (ticked false d) u (ticked-Keeps d k)
  steps-Keeps (answer f res ∷ es) d u k =
      steps-Keeps es (answered name f res d) u (answer-Keeps f res d k)

-- The dialog is closed, whatever was ticked in it before. It is opened, used, closed and opened
-- again, and its requests are answered, in any order; but the box is not ticked. Then every request
-- that it sends deletes the job alone: none of them forgets a snapshot.
pub steps-IsPlain :
    (id name : String) (d : Dialog) (es : List Event)
    → d.is_open ≡ false
    → d.sent ≡ []
    → IsUnticked es
    → All (IsPlain id) (steps id name d es).sent
steps-IsPlain id name d es h k u = (steps-Keeps id name es d u (λ o. cc, rw k tt)).1

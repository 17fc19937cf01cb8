-- ===== src/DockerStatus/Laws.antt =====
-- About the requests of ui/src/lib/docker.js.
use restic_golang.Base.{◌≤◌, ◌≡◌, refl, true, List, [], ◌∷◌, arith, if◌then◌else◌, present}
use restic_golang.DockerStatus.{
  Shared, Event, mounted, answer, initial, mount, fetch_status, step, steps,
}

-- A request was sent exactly if one is recorded, and an answer is known only of a request.
pub record IsValid (s : Shared) : Type 0 where
  pub once : s.sent ≡ (if s.pending then 1 else 0)
  pub asked : present s.cached ≡ true → s.pending ≡ true

step-IsValid : (s : Shared) (e : Event) → IsValid s → IsValid (step s e)
unfolding step mount fetch_status
step-IsValid s mounted v =
    let o = v.once in let a = v.asked in record { once = ground arith; asked = ground arith }
step-IsValid s (answer d) v =
    let o = v.once in let a = v.asked in record { once = ground arith; asked = ground arith }

steps-IsValid : (es : List Event) (s : Shared) → IsValid s → IsValid (steps s es)
unfolding steps
steps-IsValid [] s v = v
steps-IsValid (e ∷ es) s v = steps-IsValid es (step s e) (step-IsValid s e v)

sent_once : (s : Shared) → IsValid s → (s.sent ≤ 1) × (present s.cached ≡ true → s.sent ≡ 1)
sent_once s v = let o = v.once in let a = v.asked in (ground arith, ground arith)

-- However many components ask and whenever the answer comes, at most one request for the status is
-- sent; and when a status is known, one was.
pub steps-sent :
    (es : List Event)
    → ((steps initial es).sent ≤ 1)
      × (present (steps initial es).cached ≡ true → (steps initial es).sent ≡ 1)
steps-sent es =
    sent_once (steps initial es) (steps-IsValid es initial (record { once = refl; asked = λ h. h }))

-- ===== src/UseFetch/Laws.antt =====
-- About `useFetch` of ui/src/lib/use-fetch.js.
use restic_golang.Base.{
  ℕ, ◌+◌, ◌≤◌, ◌≡◌, ◌≢◌, refl, ap, ◌∙◌, false, none, some, List, [], ◌∷◌, ◌++◌, arith, eqb, any,
  All, both_branches,
}
use restic_golang.UseFetch.{
  Fetch, Event, run, unmount, reload, fulfilled, rejected, finished, set_data, is_stale, step,
  steps,
}

pub All-le : (m n : ℕ) (ks : List ℕ) → m ≤ n → All (λ k. k ≤ m) ks → All (λ k. k ≤ n) ks
All-le m n [] h _ = tt
All-le m n (k ∷ ks) h (p, q) = (omega arith, All-le m n ks h q)

pub not-cancelled : (g : ℕ) (ks : List ℕ) → All (λ k. k ≤ g) ks → any (eqb (g + 1)) ks ≡ false
not-cancelled g [] h = refl
not-cancelled g (k ∷ ks) (p, h) = ground (arith, not-cancelled g ks h)

module _ {A E : Type 0} where
  -- The effects that were cleaned up are not of the future.
  abbrev pub IsFresh : Fetch A E → Type 0
  IsFresh s = All (λ k. k ≤ s.generation) s.cancelled

  step-IsFresh : (s : Fetch A E) (e : Event A E) → IsFresh s → IsFresh (step s e)
  unfolding step
  step-IsFresh s run h =
      (omega arith, All-le s.generation (s.generation + 1) s.cancelled (omega arith) h)
  step-IsFresh s unmount h = (omega arith, h)
  step-IsFresh s reload h = h
  step-IsFresh s (fulfilled k v) h = both_branches IsFresh (is_stale k s) h h
  step-IsFresh s (rejected k x) h = both_branches IsFresh (is_stale k s) h h
  step-IsFresh s (finished k) h = both_branches IsFresh (is_stale k s) h h
  step-IsFresh s (set_data v) h = h

  -- Every state that a mounted component reaches is fresh.
  pub steps-IsFresh : (es : List (Event A E)) (s : Fetch A E) → IsFresh s → IsFresh (steps s es)
  unfolding steps
  steps-IsFresh [] s h = h
  steps-IsFresh (e ∷ es) s h = steps-IsFresh es (step s e) (step-IsFresh s e h)

  -- An answer to a load of another generation than `g`, in any of its three parts.
  abbrev pub IsLate : ℕ → Event A E → Type 0
  IsLate g (fulfilled k _) = k ≢ g
  IsLate g (rejected k _) = k ≢ g
  IsLate g (finished k) = k ≢ g
  IsLate g _ = ⊥

  step-late : (s : Fetch A E) (e : Event A E) → IsLate s.generation e → step s e ≡ s
  unfolding step
  step-late s (fulfilled k v) h = ground arith
  step-late s (rejected k x) h = ground arith
  step-late s (finished k) h = ground arith
  step-late s run h = absurd h
  step-late s unmount h = absurd h
  step-late s reload h = absurd h
  step-late s (set_data v) h = absurd h

  -- Late answers change nothing, however many there are and in whatever order.
  pub steps-late :
      (es : List (Event A E)) (s : Fetch A E) → All (IsLate s.generation) es → steps s es ≡ s
  unfolding steps
  steps-late [] s h = refl
  steps-late (e ∷ es) s (h, hs) = ap (λ t. steps t es) (step-late s e h) ∙ steps-late es s hs

  steps-append :
      (es fs : List (Event A E)) (s : Fetch A E) → steps s (es ++ fs) ≡ steps (steps s es) fs
  unfolding steps
  steps-append [] fs s = refl
  steps-append (e ∷ es) fs s = steps-append es fs (step s e)

  module _ (s : Fetch A E) (g : ℕ) (current : is_stale g s ≡ false) where
    pub step-fulfilled :
        (v : A) → step s (fulfilled g v) ≡ record s { value = some v; error = none }
    unfolding step
    step-fulfilled v = rw current

    pub step-rejected : (x : E) → step s (rejected g x) ≡ record s { error = some x }
    unfolding step
    step-rejected x = rw current

    pub step-finished : step s (finished g) ≡ record s { loading = false }
    unfolding step
    step-finished = rw current

  -- The load that has just started is current.
  pub run-current : (s : Fetch A E) → IsFresh s → is_stale (s.generation + 1) (step s run) ≡ false
  unfolding step
  run-current s fresh =
      ground (arith, not-cancelled s.generation (s.generation ∷ s.cancelled) (omega arith, fresh))

  -- In a state in which only effects up to the current one were cleaned up, an effect runs, and its
  -- load is answered by `v`. Whatever parts of answers to other loads arrive before, between the two
  -- parts of that answer and after them: in the end `v` is shown, without an error, nothing is
  -- loading, and all else is as it was when the effect had run.
  pub steps-newest :
      (s : Fetch A E) (before between after : List (Event A E)) (v : A)
      → IsFresh s
      → All (IsLate (s.generation + 1)) before
      → All (IsLate (s.generation + 1)) between
      → All (IsLate (s.generation + 1)) after
      → steps s (
          run ∷ before
          ++ fulfilled (s.generation + 1) v ∷ between
          ++ finished (s.generation + 1) ∷ after)
        ≡ record (step s run) { value = some v; error = none; loading = false }
  unfolding steps
  steps-newest s before between after v fresh h k l =
      let g = s.generation + 1 in
      let s1 = step s run in
      let s2 : Fetch A E = record s1 { value = some v; error = none } in
      let s3 : Fetch A E = record s2 { loading = false } in
      let current = run-current s fresh in
      steps-append ((run ∷ before) ++ fulfilled g v ∷ between) (finished g ∷ after) s
      ∙ ap (λ t. steps t (finished g ∷ after))
          (steps-append (run ∷ before) (fulfilled g v ∷ between) s
            ∙ ap (λ t. steps t (fulfilled g v ∷ between)) (steps-late before s1 h)
            ∙ ap (λ t. steps t between) (step-fulfilled s1 g current v)
            ∙ steps-late between s2 k)
      ∙ ap (λ t. steps t after) (step-finished s2 g current)
      ∙ steps-late after s3 l

-- ===== src/UseFetch/Settled.antt =====
-- About what `useFetch` of ui/src/lib/use-fetch.js holds when it has stopped loading.
use mathlib.Core.Path.{subst}
use restic_golang.Base.{
  ℕ, ◌+◌, ◌≤◌, ◌≡◌, refl, sym, each_branch, inl, inr, Bool-cases, Bool, true, false, not, ◌||◌,
  Option, none, some, List, [], ◌∷◌, if◌then◌else◌, arith, eqb, eqb_iff, any, All,
}
use restic_golang.UseFetch.{
  Fetch, Event, mounted, run, unmount, reload, fulfilled, rejected, finished, set_data, is_stale,
  step, steps,
}
use restic_golang.UseFetch.Laws.{All-le, not-cancelled}

module _ {A E : Type 0} where
  -- There is a value or an error.
  abbrev pub settled : Option A → Option E → Bool
  settled none none = false
  settled _ _ = true

  abbrev pub IsSettled : Fetch A E → Type 0
  IsSettled s = settled s.value s.error ≡ true

  -- What a browser keeps to: only a load that was started is answered, and `finally` follows `then`
  -- or `catch`. `seen` are the loads answered so far.
  abbrev pub IsOrderly : Fetch A E → (seen : List ℕ) → List (Event A E) → Type 0
  IsOrderly s seen [] = Unit
  IsOrderly s seen (fulfilled k v ∷ es) =
      (k ≤ s.generation) × IsOrderly (step s (fulfilled k v)) (k ∷ seen) es
  IsOrderly s seen (rejected k x ∷ es) =
      (k ≤ s.generation) × IsOrderly (step s (rejected k x)) (k ∷ seen) es
  IsOrderly s seen (finished k ∷ es) =
      (any (eqb k) seen ≡ true) × IsOrderly (step s (finished k)) seen es
  IsOrderly s seen (run ∷ es) = IsOrderly (step s run) seen es
  IsOrderly s seen (unmount ∷ es) = IsOrderly (step s unmount) seen es
  IsOrderly s seen (reload ∷ es) = IsOrderly (step s reload) seen es
  IsOrderly s seen (set_data v ∷ es) = IsOrderly (step s (set_data v)) seen es

  -- The answered loads were started; and what stopped loading, or was answered and not cancelled,
  -- is settled.
  abbrev Keeps : Fetch A E → List ℕ → Type 0
  Keeps s seen =
      All (λ k. k ≤ s.generation) seen
      × (any (eqb s.generation) seen ≡ true
          → any (eqb s.generation) s.cancelled ≡ false
          → IsSettled s)
      × (s.loading ≡ false → IsSettled s)

  settled-value : (v : A) (e : Option E) → settled (some v) e ≡ true
  settled-value v e = refl

  settled-error : (o : Option A) (e : E) → settled o (some e) ≡ true
  settled-error none e = refl
  settled-error (some v) e = refl

  run-Keeps : (s : Fetch A E) (seen : List ℕ) → Keeps s seen → Keeps (step s run) seen
  unfolding step
  run-Keeps s seen (started, answered, stopped) = (
    All-le s.generation (s.generation + 1) seen (omega arith) started,
    λ h _. let k = not-cancelled s.generation seen started in cc,
    λ h. cc,
  )

  current-not_stale :
      (s : Fetch A E) (k : ℕ)
      → eqb s.generation k ≡ true
      → any (eqb s.generation) s.cancelled ≡ false
      → is_stale k s ≡ false
  unfolding is_stale
  current-not_stale s k e c =
      let same : s.generation ≡ k = (eqb_iff s.generation k).0 e in
      subst (λ (j : ℕ). any (eqb j) s.cancelled || not (eqb j s.generation) ≡ false) same
        (rw (c, (eqb_iff s.generation s.generation).1 refl) refl)

  not_stale-current :
      (s : Fetch A E) (k : ℕ)
      → is_stale k s ≡ false
      → (k ≡ s.generation) × (any (eqb k) s.cancelled ≡ false)
  unfolding is_stale
  not_stale-current s k h = ground (arith, eqb_iff k s.generation)

  stale-Keeps :
      (s : Fetch A E) (k : ℕ) (seen : List ℕ)
      → is_stale k s ≡ true
      → k ≤ s.generation
      → Keeps s seen
      → Keeps s (k ∷ seen)
  stale-Keeps s k seen e le (started, answered, stopped) = (
    (le, started),
    λ h c. elim (Bool-cases (eqb s.generation k)) [
      | inl f ↦ let g = current-not_stale s k f c in cc
      | inr f ↦ answered (later f h) c
    ],
    stopped,
  )
    where
      later :
          eqb s.generation k ≡ false
          → eqb s.generation k || any (eqb s.generation) seen ≡ true
          → any (eqb s.generation) seen ≡ true
      later f h = ground arith

  -- An answer to the load `k`, which leaves `t`, settled unless the load is stale.
  answer-Keeps :
      (s t : Fetch A E) (k : ℕ) (seen : List ℕ)
      → k ≤ s.generation
      → t.generation ≡ s.generation
      → IsSettled t
      → Keeps s seen
      → Keeps (if is_stale k s then s else t) (k ∷ seen)
  answer-Keeps s t k seen le g settled_t keeps =
      each_branch (λ u. Keeps u (k ∷ seen)) (is_stale k s) {x = s} {y = t}
        (λ e. stale-Keeps s k seen e le keeps)
        (λ e. (
          subst (λ (n : ℕ). All (λ j. j ≤ n) (k ∷ seen)) (sym g) (le, keeps.0),
          λ _ _. settled_t,
          λ _. settled_t,
        ))

  finished-Keeps :
      (s : Fetch A E) (k : ℕ) (seen : List ℕ)
      → any (eqb k) seen ≡ true
      → Keeps s seen
      → Keeps (step s (finished k)) seen
  unfolding step
  finished-Keeps s k seen h (started, answered, stopped) = elim (Bool-cases (is_stale k s)) [
    | inl e ↦ rw e (started, answered, stopped)
    | inr e ↦
        let (same, c) = not_stale-current s k e in
        rw e (
          started,
          answered,
          λ _.
              answered (subst (λ (j : ℕ). any (eqb j) seen ≡ true) same h)
                (subst (λ (j : ℕ). any (eqb j) s.cancelled ≡ false) same c),
        )
  ]

  own_cancelled : (s : Fetch A E) → any (eqb s.generation) (s.generation ∷ s.cancelled) ≡ false → ⊥
  own_cancelled s c = let e = (eqb_iff s.generation s.generation).1 refl in ground arith

  steps-Keeps :
      (es : List (Event A E)) (s : Fetch A E) (seen : List ℕ)
      → IsOrderly s seen es
      → Keeps s seen
      → (steps s es).loading ≡ false
      → IsSettled (steps s es)
  unfolding steps
  steps-Keeps [] s seen o (_, _, k) = k
  steps-Keeps (run ∷ es) s seen o k = steps-Keeps es (step s run) seen o (run-Keeps s seen k)
  steps-Keeps (unmount ∷ es) s seen o k =
      steps-Keeps es (step s unmount) seen o (k.0, λ h c. absurd (own_cancelled s c), k.2)
  steps-Keeps (reload ∷ es) s seen o k = steps-Keeps es (step s reload) seen o k
  steps-Keeps (fulfilled j v ∷ es) s seen (le, o) k =
      steps-Keeps es (step s (fulfilled j v)) (j ∷ seen) o
        (answer-Keeps s (record s { value = some v; error = none }) j seen le refl refl k)
  steps-Keeps (rejected j x ∷ es) s seen (le, o) k =
      steps-Keeps es (step s (rejected j x)) (j ∷ seen) o
        (answer-Keeps s (record s { error = some x }) j seen le refl (settled-error s.value x) k)
  steps-Keeps (finished j ∷ es) s seen (h, o) k =
      steps-Keeps es (step s (finished j)) seen o (finished-Keeps s j seen h k)
  steps-Keeps (set_data v ∷ es) s seen o k =
      steps-Keeps es (step s (set_data v)) seen o (k.0, λ _ _. refl, λ _. refl)

  -- Whatever loads run, answer in any order, are cleaned up or are run again: once nothing is
  -- loading, there is a value or an error.
  pub steps-IsSettled :
      (initial : Option A) (es : List (Event A E))
      → IsOrderly (mounted initial) [] es
      → (steps (mounted initial) es).loading ≡ false
      → IsSettled (steps (mounted initial) es)
  steps-IsSettled initial es o = steps-Keeps es (mounted initial) [] o (tt, λ h _. cc, λ h. cc)

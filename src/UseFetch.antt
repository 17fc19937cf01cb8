-- ===== src/UseFetch.antt =====
-- `useFetch` (ui/src/lib/use-fetch.js): loads that may answer in any order. A load is known by the
-- generation in which its effect ran; `Promise` calls `then` or `catch`, and `finally` after it.
pub mod Laws
pub mod Settled
use restic_golang.Base.{
  ℕ, ◌+◌, Bool, true, false, not, ◌||◌, Option, none, some, List, [], ◌∷◌, if◌then◌else◌, eqb, any,
}

-- `cancelled` holds the generations whose effect was cleaned up.
pub record Fetch (A E : Type 0) : Type 0 where
  pub value : Option A
  pub loading : Bool
  pub error : Option E
  pub nonce : ℕ
  pub generation : ℕ
  pub cancelled : List ℕ

-- `run`: a dependency changed, so the old effect is cleaned up and the new one starts.
pub data Event (A E : Type 0) : Type 0 where
  run unmount reload : Event A E
  fulfilled : (mine : ℕ) → A → Event A E
  rejected : (mine : ℕ) → E → Event A E
  finished : (mine : ℕ) → Event A E
  set_data : A → Event A E

module _ {A E : Type 0} where
  abbrev pub mounted : Option A → Fetch A E
  mounted initial = record {
    value = initial;
    loading = true;
    error = none;
    nonce = 0;
    generation = 0;
    cancelled = [];
  }

  -- `cancelled || mine !== generation.current`
  unfoldable pub is_stale : ℕ → Fetch A E → Bool
  is_stale mine s = any (eqb mine) s.cancelled || not (eqb mine s.generation)

  unfoldable pub step : Fetch A E → Event A E → Fetch A E
  unfolding is_stale
  step s run = record s {
    loading = true;
    generation = s.generation + 1;
    cancelled = s.generation ∷ s.cancelled;
  }
  step s unmount = record s { cancelled = s.generation ∷ s.cancelled }
  step s reload = record s { nonce = s.nonce + 1 }
  step s (fulfilled mine v) =
      if is_stale mine s then s else record s { value = some v; error = none }
  step s (rejected mine e) = if is_stale mine s then s else record s { error = some e }
  step s (finished mine) = if is_stale mine s then s else record s { loading = false }
  step s (set_data v) = record s { value = some v }

  unfoldable pub steps : Fetch A E → List (Event A E) → Fetch A E
  unfolding step
  steps s [] = s
  steps s (e ∷ es) = steps (step s e) es

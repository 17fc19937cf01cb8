-- ===== src/Confirm/Laws.antt =====
-- About the promises of ui/src/components/confirm.jsx.
use restic_golang.Base.{
  ℕ, ◌+◌, ◌<◌, ◌≡◌, ◌≢◌, refl, sym, Bool, true, false, Option, none, some, List, [], ◌∷◌, ◌++◌,
  arith, All, All-append,
}
use mathlib.Core.Path.{subst}
use restic_golang.Confirm.{
  Given, Confirm, Event, ask, press_cancel, press_action, open_change, initial, resolve, settle,
  step, steps,
}

-- No promise is resolved twice.
abbrev pub Once : List (ℕ × Bool) → Type 0
Once [] = Unit
Once ((n, _) ∷ rs) = All (λ a. a.0 ≢ n) rs × Once rs

Once-append :
    (rs : List (ℕ × Bool)) (n : ℕ) (v : Bool)
    → Once rs
    → All (λ a. a.0 ≢ n) rs
    → Once (rs ++ (n, v) ∷ [])
Once-append [] n v o h = (tt, tt)
Once-append ((m, w) ∷ rs) n v (p, o) (q, h) =
    (All-append (λ a. a.0 ≢ m) rs ((n, v) ∷ []) p ((λ e. q (sym e)), tt), Once-append rs n v o h)

-- The open promise, if there is one, is the newest and unresolved.
abbrev pub IsOpen : Option ℕ → ℕ → List (ℕ × Bool) → Type 0
IsOpen none made answers = Unit
IsOpen (some n) made answers = (n + 1 ≡ made) × All (λ a. a.0 ≢ n) answers

-- Only promises that were made are resolved, none twice; the open one is the newest, unresolved.
pub record IsValid (c : Confirm) : Type 0 where
  pub once : Once c.answers
  pub made_before : All (λ a. a.0 < c.made) c.answers
  pub is_open : IsOpen c.resolver c.made c.answers

All-lt : (n : ℕ) (rs : List (ℕ × Bool)) → All (λ a. a.0 < n) rs → All (λ a. a.0 < n + 1) rs
All-lt n [] h = tt
All-lt n (a ∷ rs) (p, h) = (omega arith, All-lt n rs h)

All-ne : (n : ℕ) (rs : List (ℕ × Bool)) → All (λ a. a.0 < n) rs → All (λ a. a.0 ≢ n) rs
All-ne n [] h = tt
All-ne n (a ∷ rs) (p, h) = ((λ e. omega (arith, e)), All-ne n rs h)

settle-IsValid : (value : Bool) (c : Confirm) → IsValid c → IsValid (settle value c)
unfolding settle resolve
settle-IsValid value c v = go c.resolver v.is_open
  where
    go :
        (r : Option ℕ)
        → IsOpen r c.made c.answers
        → IsValid (record {
          state = none;
          resolver = none;
          made = c.made;
          answers = resolve r value c.answers;
        })
    go none _ = record { once = v.once; made_before = v.made_before; is_open = tt }
    go (some n) (e, h) = record {
      once = Once-append c.answers n value v.once h;
      made_before =
          All-append (λ a. a.0 < c.made) c.answers ((n, value) ∷ []) v.made_before
            (omega arith, tt);
      is_open = tt;
    }

step-IsValid : (c : Confirm) (e : Event) → IsValid c → IsValid (step c e)
unfolding step
step-IsValid c (ask o) v = record {
  once = v.once;
  made_before = All-lt c.made c.answers v.made_before;
  is_open = (refl, All-ne c.made c.answers v.made_before);
}
step-IsValid c press_cancel v = settle-IsValid false c v
step-IsValid c press_action v = settle-IsValid true c v
step-IsValid c (open_change true) v = v
step-IsValid c (open_change false) v = settle-IsValid false c v

steps-IsValid_from : (es : List Event) (c : Confirm) → IsValid c → IsValid (steps c es)
unfolding steps
steps-IsValid_from [] c v = v
steps-IsValid_from (e ∷ es) c v = steps-IsValid_from es (step c e) (step-IsValid c e v)

-- Whatever the callers ask and the user presses, with every call of `onOpenChange`: only promises
-- that `confirm` returned are resolved, none of them twice, and the one that the open dialog would
-- resolve is the newest and was not resolved before.
pub steps-IsValid : (es : List Event) → IsValid (steps initial es)
steps-IsValid es =
    steps-IsValid_from es initial (record { once = tt; made_before = tt; is_open = tt })

-- The promise `n` was made, is not resolved, and its resolver is gone.
abbrev pub IsOther : ℕ → Option ℕ → Type 0
IsOther n none = Unit
IsOther n (some m) = m ≢ n

record IsLost (n : ℕ) (c : Confirm) : Type 0 where
  made : n < c.made
  unanswered : All (λ a. a.0 ≢ n) c.answers
  gone : IsOther n c.resolver

settle-IsLost : (n : ℕ) (value : Bool) (c : Confirm) → IsLost n c → IsLost n (settle value c)
unfolding settle resolve
settle-IsLost n value c v = record { made = v.made; unanswered = go c.resolver v.gone; gone = tt }
  where
    go : (r : Option ℕ) → IsOther n r → All (λ a. a.0 ≢ n) (resolve r value c.answers)
    go none _ = v.unanswered
    go (some m) h = All-append (λ a. a.0 ≢ n) c.answers ((m, value) ∷ []) v.unanswered (h, tt)

step-IsLost : (n : ℕ) (c : Confirm) (e : Event) → IsLost n c → IsLost n (step c e)
unfolding step
step-IsLost n c (ask o) v = record {
  made = let m = v.made in omega arith;
  unanswered = v.unanswered;
  gone = λ e. let m = v.made in omega (arith, e);
}
step-IsLost n c press_cancel v = settle-IsLost n false c v
step-IsLost n c press_action v = settle-IsLost n true c v
step-IsLost n c (open_change true) v = v
step-IsLost n c (open_change false) v = settle-IsLost n false c v

steps-IsLost : (n : ℕ) (es : List Event) (c : Confirm) → IsLost n c → IsLost n (steps c es)
unfolding steps
steps-IsLost n [] c v = v
steps-IsLost n (e ∷ es) c v = steps-IsLost n es (step c e) (step-IsLost n c e v)

open_promise :
    (n : ℕ) (c : Confirm) (r : Option ℕ)
    → r ≡ some n
    → IsOpen r c.made c.answers
    → (n + 1 ≡ c.made) × All (λ a. a.0 ≢ n) c.answers
open_promise n c none h o = cc
open_promise n c (some m) h o = subst (λ k. IsOpen k c.made c.answers) h o

-- A question that is asked in a valid state while another is open leaves the other's promise
-- without an answer, for good: no later event resolves it.
pub step-lost :
    (c : Confirm) (n : ℕ) (o : Given) (es : List Event)
    → IsValid c
    → c.resolver ≡ some n
    → All (λ a. a.0 ≢ n) (steps (step c (ask o)) es).answers
unfolding step
step-lost c n o es v h =
    let (m, u) = open_promise n c c.resolver h v.is_open in
    let lost : IsLost n (step c (ask o)) = record {
      made = omega (arith, m);
      unanswered = u;
      gone = λ e. omega (arith, m, e);
    } in
    (steps-IsLost n es (step c (ask o)) lost).unanswered

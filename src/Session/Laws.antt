-- ===== src/Session/Laws.antt =====
-- About the session (ui/src/lib/auth.jsx) and `RequireAuth` of ui/src/main.jsx.
use restic_golang.Base.{◌≡◌, ◌⊎◌, inl, inr, true, false, none, some, List, [], ◌∷◌, arith, All}
use restic_golang.Session.{
  Auth, initial, require_auth, pages, Event, status_answer, setup_answer, login_answer,
  logout_answer, step, steps,
}

-- An answer by which the server says that there is a session.
abbrev pub Grants : Event → Type 0
Grants (status_answer ok none) = ⊥
Grants (status_answer ok (some b)) = (ok ≡ true) × (b.authenticated ≡ true)
Grants (setup_answer ok) = ok ≡ true
Grants (login_answer ok) = ok ≡ true
Grants logout_answer = ⊥

-- An answer after which there is no session, whatever was before.
abbrev pub Revokes : Event → Type 0
Revokes (status_answer ok none) = Unit
Revokes (status_answer ok (some b)) = (ok ≡ false) ⊎ (b.authenticated ≡ false)
Revokes logout_answer = Unit
Revokes _ = ⊥

-- Some answer granted a session, and none has revoked it since.
abbrev pub HasSession : List Event → Type 0
HasSession [] = ⊥
HasSession (e ∷ es) = HasSession es ⊎ (Grants e × All (λ f. ¬ Revokes f) es)

step-authenticated :
    (a : Auth) (e : Event)
    → (step a e).authenticated ≡ true
    → Grants e ⊎ ((a.authenticated ≡ true) × ¬ Revokes e)
unfolding step
step-authenticated a (status_answer ok none) h = absurd (ground arith)
step-authenticated a (status_answer ok (some b)) h = inl (ground arith)
step-authenticated a (setup_answer ok) h = ground arith
step-authenticated a (login_answer ok) h = ground arith
step-authenticated a logout_answer h = absurd (ground arith)

steps-authenticated :
    (es : List Event) (a : Auth)
    → (steps a es).authenticated ≡ true
    → HasSession es ⊎ ((a.authenticated ≡ true) × All (λ f. ¬ Revokes f) es)
unfolding steps
steps-authenticated [] a h = inr (h, tt)
steps-authenticated (e ∷ es) a h = join (steps-authenticated es (step a e) h)
  where
    now :
        All (λ f. ¬ Revokes f) es
        → (Grants e ⊎ ((a.authenticated ≡ true) × ¬ Revokes e))
        → HasSession (e ∷ es) ⊎ ((a.authenticated ≡ true) × All (λ f. ¬ Revokes f) (e ∷ es))
    now later (inl g) = inl (inr (g, later))
    now later (inr (t, n)) = inr (t, (n, later))

    join :
        (HasSession es ⊎ (((step a e).authenticated ≡ true) × All (λ f. ¬ Revokes f) es))
        → HasSession (e ∷ es) ⊎ ((a.authenticated ≡ true) × All (λ f. ¬ Revokes f) (e ∷ es))
    join (inl s) = inl (inl s)
    join (inr (t, later)) = now later (step-authenticated a e t)

-- The pages are shown only when some answer of the server granted a session, by a login, a setup
-- or a status that says so, and no later answer revoked it, by a logout, a failed status call or a
-- status without a session.
pub require_auth-HasSession :
    (es : List Event) → require_auth (steps initial es) ≡ pages → HasSession es
unfolding require_auth
require_auth-HasSession es h = start (steps-authenticated es initial (ground arith))
  where
    start : (HasSession es ⊎ ((false ≡ true) × All (λ f. ¬ Revokes f) es)) → HasSession es
    start (inl s) = s
    start (inr (t, _)) = cc

-- ===== src/AuthForms/Laws.antt =====
-- About the redirects and the forms of ui/src/routes/setup.jsx, login.jsx and settings.jsx.
use mathlib.Core.Path.{subst}
use restic_golang.Api.Endpoints.{auth_setup}
use restic_golang.Base.{
  ℕ, suc, ◌≤◌, ◌≡◌, ◌⊎◌, refl, sym, inl, inr, show, Bool-cases, Bool, true, false, some, [], ◌∷◌,
  arith, if◌then◌else◌, eq_iff, ltb, not, trim, truthy, ◌==◌,
}
use restic_golang.AuthForms.{
  Address, setup_page, login_page, inner_page, redirect, gate, follow, send, SetupForm,
  submit_setup, too_short, min_len, text_length,
}
use restic_golang.Session.{Auth, require_auth}

-- Where a visit ends: at the setup, inside, or at the login.
abbrev pub home : Auth → Address
home a = if a.setup_required then setup_page else if a.authenticated then inner_page else login_page

abbrev known : (setup_required authenticated : Bool) → Auth
known s u = record { loading = false; setup_required = s; authenticated = u }

follow-known :
    (fuel : ℕ) (s u : Bool) (p : Address)
    → follow (suc (suc fuel)) (known s u) p ≡ some (home (known s u))
unfolding follow redirect gate require_auth
follow-known fuel true true setup_page = refl
follow-known fuel true true login_page = refl
follow-known fuel true true inner_page = refl
follow-known fuel true false setup_page = refl
follow-known fuel true false login_page = refl
follow-known fuel true false inner_page = refl
follow-known fuel false true setup_page = refl
follow-known fuel false true login_page = refl
follow-known fuel false true inner_page = refl
follow-known fuel false false setup_page = refl
follow-known fuel false false login_page = refl
follow-known fuel false false inner_page = refl

-- Once the status is known, following the redirects from any address ends after at most one of
-- them: at the setup while the app has no password, else inside with a session, and at the login
-- without one.
pub follow-home :
    (fuel : ℕ) (a : Auth) (p : Address)
    → a.loading ≡ false
    → follow (suc (suc fuel)) a p ≡ some (home a)
follow-home fuel a p h =
    subst (λ (b : Bool). follow (suc (suc fuel)) (record a { loading = b }) p ≡ some (home a))
      (sym h) (follow-known fuel a.setup_required a.authenticated p)

long_enough : (n : ℕ) → ltb n min_len ≡ false → min_len ≤ n
long_enough n h = ground arith

untrue : (b : Bool) → not b ≡ false → b ≡ true
untrue true h = refl
untrue false h = cc

-- The setup sends nothing and says why; or the token is not blank, the password was typed twice
-- alike and has 12 characters at least, and these two are what it sends.
pub submit_setup_lem :
    (f : SetupForm)
    → (((submit_setup f).1 ≡ []) × (truthy (submit_setup f).0.error ≡ true))
      ⊎ ((f.password ≡ f.confirm)
          × (min_len ≤ text_length f.password)
          × (truthy (trim f.token) ≡ true)
          × ((submit_setup f).1 ≡ send (auth_setup f.password (trim f.token)) ∷ []))
unfolding submit_setup too_short show
submit_setup_lem f = elim (Bool-cases (not (truthy (trim f.token)))) [
  | inl t ↦ inl (rw t (refl, refl))
  | inr t ↦ elim (Bool-cases (ltb (text_length f.password) min_len)) [
    | inl l ↦ inl (rw (t, l) (refl, refl))
    | inr l ↦ elim (Bool-cases (not (f.password == f.confirm))) [
      | inl e ↦ inl (rw (t, l, e) (refl, refl))
      | inr e ↦ inr (
        (eq_iff f.password f.confirm).0 (untrue _ e),
        long_enough _ l,
        untrue _ t,
        rw (t, l, e) refl,
      )
    ]
  ]
]

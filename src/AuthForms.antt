-- ===== src/AuthForms.antt =====
-- The pages of the session: ui/src/routes/setup.jsx, ui/src/routes/login.jsx and the password form of
-- ui/src/routes/settings.jsx; and where these pages and the gate of ui/src/main.jsx redirect to.
pub mod Laws
use restic_golang.Api.{Request, Response, error_of}
use restic_golang.Api.Endpoints.{auth_setup, auth_login, auth_change_password}
use restic_golang.Base.{
  ℕ, zero, suc, ◌+◌, String, Bool, true, false, not, ◌&&◌, ◌||◌, Option, none, some, List, [], ◌∷◌,
  if◌then◌else◌, ◌==◌, ltb, leb, concat, show, trim, truthy,
}
use restic_golang.Session.{Auth, Screen, blank, setup, login, pages, require_auth}
use Prim.Native.Char.{code}
use Prim.Native.String

-- `s.length`: a character beyond 0xFFFF counts twice.
unfoldable pub text_length : String → ℕ
text_length String.[] = 0
text_length (String.◌∷◌ c s) =
    let rest = text_length s in (if leb (code c) 0xffff then 1 else 2) + rest

abbrev pub min_len : ℕ
min_len = 12

pub data Effect : Type 0 where
  send : Request → Effect
  toast_success : String → Effect
  replace_page : (target : String) → Effect

unfoldable pub too_short : String
too_short = concat ("Use at least " ∷ show min_len ∷ " characters." ∷ [])

-- `Setup`
pub record SetupForm : Type 0 where
  pub token : String
  pub password : String
  pub confirm : String
  pub busy : Bool
  pub error : String

-- `submit` up to its `await`: the three checks, and the request.
unfoldable pub submit_setup : SetupForm → SetupForm × List Effect
unfolding text_length too_short auth_setup
submit_setup f =
    if not (truthy (trim f.token))
    then (record f { error = "Enter the setup token from the server log." }, [])
    else if ltb (text_length f.password) min_len
    then (record f { error = too_short }, [])
    else if not (f.password == f.confirm)
    then (record f { error = "The two passwords do not match." }, [])
    else (record f { error = ""; busy = true }, send (auth_setup f.password (trim f.token)) ∷ [])

unfoldable pub setup_answered : Response → SetupForm → SetupForm × List Effect
setup_answered res f =
    if res.ok
    then (record f { busy = false }, replace_page "/dashboard" ∷ [])
    else (record f { busy = false; error = error_of res "Could not save the password." }, [])

-- `Login`
pub record LoginForm : Type 0 where
  pub password : String
  pub busy : Bool
  pub error : String

unfoldable pub submit_login : LoginForm → LoginForm × List Effect
unfolding auth_login
submit_login f = (record f { error = ""; busy = true }, send (auth_login f.password) ∷ [])

unfoldable pub login_answered : Response → LoginForm → LoginForm × List Effect
login_answered res f =
    if res.ok
    then (record f { busy = false }, replace_page "/dashboard" ∷ [])
    else (record f { busy = false; error = error_of res "Incorrect password."; password = "" }, [])

unfoldable pub login_disabled : LoginForm → Bool
login_disabled f = f.busy || not (truthy f.password)

-- The password form of `Settings`.
pub record PasswordForm : Type 0 where
  pub current : String
  pub next : String
  pub confirm : String
  pub busy : Bool
  pub error : String

unfoldable pub submit_password : PasswordForm → PasswordForm × List Effect
unfolding text_length too_short auth_change_password
submit_password f =
    if ltb (text_length f.next) min_len
    then (record f { error = too_short }, [])
    else if not (f.next == f.confirm)
    then (record f { error = "The two new passwords do not match." }, [])
    else (record f { error = ""; busy = true }, send (auth_change_password f.current f.next) ∷ [])

unfoldable pub password_answered : Response → PasswordForm → PasswordForm × List Effect
password_answered res f =
    if res.ok
    then (
      record f { busy = false; current = ""; next = ""; confirm = "" },
      toast_success "Password updated." ∷ [],
    )
    else (record f { busy = false; error = error_of res "Could not change the password." }, [])

unfoldable pub password_disabled : PasswordForm → Bool
password_disabled f =
    f.busy || (not (truthy f.current) || (not (truthy f.next) || not (truthy f.confirm)))

-- The addresses: `/setup`, `/login`, and those behind the gate.
pub data Address : Type 0 where
  setup_page login_page inner_page : Address

-- `<Navigate to>` of the gate, by what it renders.
unfoldable pub gate : Screen → Option Address
gate blank = none
gate setup = some setup_page
gate login = some login_page
gate pages = none

-- Where an address redirects to, `none` where it stays.
unfoldable pub redirect : Auth → Address → Option Address
unfolding gate require_auth
redirect a setup_page =
    if a.loading || a.setup_required
    then none
    else some (if a.authenticated then inner_page else login_page)
redirect a login_page =
    if a.loading
    then none
    else if a.setup_required
    then some setup_page
    else if a.authenticated
    then some inner_page
    else none
redirect a inner_page = gate (require_auth a)

-- Following the redirects: the address in the end, `none` where `fuel` steps are not enough.
unfoldable pub follow : ℕ → Auth → Address → Option Address
unfolding redirect
follow zero a p = none
follow (suc fuel) a p = elim (redirect a p) [ none ↦ some p | some q ↦ follow fuel a q ]

-- `onLogout` of the settings, behind its `await`.
unfoldable pub logout_effects : List Effect
logout_effects = replace_page "/login" ∷ []

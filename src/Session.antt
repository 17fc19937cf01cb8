-- ===== src/Session.antt =====
-- The session (ui/src/lib/auth.jsx) and the gate in front of the pages (`RequireAuth` of
-- ui/src/main.jsx). Each operation is the part behind its `await`, given what the server answered.
pub mod Laws
use restic_golang.Base.{Bool, true, false, Option, none, some, if◌then◌else◌, List, [], ◌∷◌}

pub record Auth : Type 0 where
  pub loading : Bool
  pub setup_required : Bool
  pub authenticated : Bool

abbrev pub initial : Auth
initial = record { loading = true; setup_required = false; authenticated = false }

-- The body of `/api/auth/status`; `none` is a body that is not an object.
pub record StatusBody : Type 0 where
  pub setup_required : Bool
  pub authenticated : Bool

unfoldable pub apply : Option StatusBody → Auth → Auth
apply none a = record a { setup_required = false; authenticated = false }
apply (some b) a = record a { setup_required = b.setup_required; authenticated = b.authenticated }

-- `refresh`: a failed call counts as not authenticated.
unfoldable pub refreshed : (ok : Bool) → Option StatusBody → Auth → Auth
unfolding apply
refreshed ok body a =
    record (if ok
      then apply body a
      else record a { setup_required = false; authenticated = false }) { loading = false }

-- `setup` and `login`.
unfoldable pub set_up : (ok : Bool) → Auth → Auth
set_up ok a = if ok then record a { setup_required = false; authenticated = true } else a

unfoldable pub logged_in : (ok : Bool) → Auth → Auth
logged_in ok a = if ok then record a { authenticated = true; setup_required = false } else a

unfoldable pub logged_out : Auth → Auth
logged_out a = record a { authenticated = false }

-- What `RequireAuth` renders.
pub data Screen : Type 0 where
  blank setup login pages : Screen

unfoldable pub require_auth : Auth → Screen
require_auth a =
    if a.loading
    then blank
    else if a.setup_required
    then setup
    else if a.authenticated
    then pages
    else login

-- The answers that arrive, in their order.
pub data Event : Type 0 where
  status_answer : (ok : Bool) → Option StatusBody → Event
  setup_answer login_answer : (ok : Bool) → Event
  logout_answer : Event

unfoldable pub step : Auth → Event → Auth
unfolding refreshed set_up logged_in logged_out
step a (status_answer ok body) = refreshed ok body a
step a (setup_answer ok) = set_up ok a
step a (login_answer ok) = logged_in ok a
step a logout_answer = logged_out a

unfoldable pub steps : Auth → List Event → Auth
unfolding step
steps a [] = a
steps a (e ∷ es) = steps (step a e) es

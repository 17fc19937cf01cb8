-- ===== src/Confirm.antt =====
-- Questions to the user (ui/src/components/confirm.jsx): one dialog, and the promise that
-- `confirm` returned. A promise is known by its number, the resolver by the number it resolves.
pub mod Laws
use restic_golang.Base.{
  ℕ, suc, ◌+◌, String, Bool, true, false, Option, none, some, List, [], ◌∷◌, ◌++◌,
}

pub record Options : Type 0 where
  pub title : String
  pub description : String
  pub confirm_label : String
  pub cancel_label : String
  pub destructive : Bool

-- `opts`: what the caller leaves out is `none`.
pub record Given : Type 0 where
  pub title : Option String
  pub description : Option String
  pub confirm_label : Option String
  pub cancel_label : Option String
  pub destructive : Option Bool

-- `made` is the number of promises so far, `answers` the resolutions that took place, in order.
pub record Confirm : Type 0 where
  pub state : Option Options
  pub resolver : Option ℕ
  pub made : ℕ
  pub answers : List (ℕ × Bool)

abbrev pub initial : Confirm
initial = record { state = none; resolver = none; made = 0; answers = [] }

unfoldable pub given_or {ℓ} : {A : Type ℓ} → Option A → A → A
given_or none d = d
given_or (some a) d = a

unfoldable pub with_defaults : Given → Options
unfolding given_or
with_defaults o = record {
  title = given_or o.title "Are you sure?";
  description = given_or o.description "";
  confirm_label = given_or o.confirm_label "Confirm";
  cancel_label = given_or o.cancel_label "Cancel";
  destructive = given_or o.destructive false;
}

-- `confirm`: the promise returned has the number `c.made`.
unfoldable pub confirm : Given → Confirm → Confirm
unfolding with_defaults
confirm o c = record {
  state = some (with_defaults o);
  resolver = some c.made;
  made = c.made + 1;
  answers = c.answers;
}

unfoldable pub resolve : Option ℕ → Bool → List (ℕ × Bool) → List (ℕ × Bool)
resolve none value answers = answers
resolve (some n) value answers = answers ++ (n, value) ∷ []

unfoldable pub settle : Bool → Confirm → Confirm
unfolding resolve
settle value c = record {
  state = none;
  resolver = none;
  made = c.made;
  answers = resolve c.resolver value c.answers;
}

-- What happens to the dialog: `ask` by a caller, the two buttons, and `onOpenChange`, which the
-- dialog also calls when a button closes it.
pub data Event : Type 0 where
  ask : Given → Event
  press_cancel press_action : Event
  open_change : Bool → Event

unfoldable pub step : Confirm → Event → Confirm
unfolding confirm settle
step c (ask o) = confirm o c
step c press_cancel = settle false c
step c press_action = settle true c
step c (open_change true) = c
step c (open_change false) = settle false c

unfoldable pub steps : Confirm → List Event → Confirm
unfolding step
steps c [] = c
steps c (e ∷ es) = steps (step c e) es

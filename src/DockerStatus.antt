-- ===== src/DockerStatus.antt =====
-- Whether Docker can be reached (ui/src/lib/docker.js): the module's two variables, which all
-- components share, and the containers that use a path. A request is an element of `sent`.
pub mod Laws
use restic_golang.Base.{
  ℕ, suc, ◌+◌, String, Bool, true, false, not, ◌||◌, ◌&&◌, Option, none, some, List, [], ◌∷◌,
  if◌then◌else◌, ◌==◌, present, starts_with,
}

pub record Docker : Type 0 where
  pub available : Bool
  pub coolify : Bool
  pub message : String

-- `sent` counts the requests to `/api/docker/status`.
pub record Shared : Type 0 where
  pub cached : Option Docker
  pub pending : Bool
  pub sent : ℕ

abbrev pub initial : Shared
initial = record { cached = none; pending = false; sent = 0 }

-- `fetchStatus`
unfoldable pub fetch_status : Shared → Shared
fetch_status s = if s.pending then s else record s { pending = true; sent = s.sent + 1 }

-- `res.body?.docker || {...}`
unfoldable pub known : Option Docker → Docker
known none = record { available = false; coolify = false; message = "Could not ask the server." }
known (some d) = d

-- The effect of `useDockerStatus`, when a component mounts.
unfoldable pub mount : Shared → Shared
unfolding fetch_status
mount s = if present s.cached then s else fetch_status s

-- `answer`: the promise of the request is fulfilled, by the body's `docker`.
pub data Event : Type 0 where
  mounted : Event
  answer : Option Docker → Event

unfoldable pub step : Shared → Event → Shared
unfolding mount known
step s mounted = mount s
step s (answer d) = if s.pending then record s { cached = some (known d) } else s

unfoldable pub steps : Shared → List Event → Shared
unfolding step
steps s [] = s
steps s (e ∷ es) = steps (step s e) es

-- `useContainersUsing`: whether its effect asks, and what the answer leaves in the state, which the
-- effect has emptied.
unfoldable pub asks : Option Docker → String → Bool
asks none path = false
asks (some d) path = d.available && (not (path == "") && starts_with path "/")

unfoldable pub answered : (alive ok : Bool) → List String → List String → List String
answered alive ok got containers = if alive && ok then got else containers

-- ===== src/Shell.antt =====
-- The frame of the pages: the navigation and the status of restic (ui/src/components/shell.jsx), the
-- steps of a new install (ui/src/components/getting-started.jsx), the theme (ui/src/lib/theme.jsx),
-- and the status lines of ui/src/routes/settings.jsx.
use restic_golang.Base.{
  ℕ, String, Bool, true, false, not, eqb, ◌&&◌, Option, none, some, List, [], ◌∷◌, ◌++◌,
  if◌then◌else◌, ◌==◌, concat, or_text, take, drop, keep, length, show, trim,
}
use restic_golang.DockerStatus.{Docker}
use restic_golang.Live.{Status}
use restic_golang.Runs.{Run}

pub record Item : Type 0 where
  pub target : String
  pub label : String

abbrev item : String → String → Item
item target label = record { target = target; label = label }

abbrev pub nav : List Item
nav =
    item "/dashboard" "Dashboard"
    ∷ item "/jobs" "Jobs"
    ∷ item "/repositories" "Repositories"
    ∷ item "/folders" "Sources"
    ∷ item "/activity" "Activity"
    ∷ []

-- `useNav`: the sites stand third where Docker can be reached.
unfoldable pub use_nav : Option Docker → List Item
use_nav none = nav
use_nav (some d) =
    if d.available
    then take 2 nav ++ item "/coolify" (if d.coolify then "Coolify" else "Docker") ∷ drop 2 nav
    else nav

-- The count of running operations, at the entry of the activity; it is not shown for none.
unfoldable pub running_count : (target : String) → List Run → Option ℕ
running_count target [] = none
running_count target (r ∷ rs) = if target == "/activity" then some (length (r ∷ rs)) else none

-- `ResticStatus`: its text, and that of its tooltip. `short` is the version's number in `version`,
-- the first line of what restic says, or "".
unfoldable pub restic_status : Status → (version short : String) → String × String
restic_status s version short =
    if s.restic_installed
    then (concat ("restic " ∷ short ∷ " ready" ∷ []), or_text version "restic is installed")
    else ("restic not found", "")

-- The lines of the settings: whether it is well, the label and the detail.
unfoldable pub restic_line : Status → (version short : String) → Bool × (String × String)
restic_line s version short =
    if s.restic_installed
    then (
      true,
      (
        trim (concat ("restic " ∷ short ∷ [])),
        or_text version "Installed and ready to run backups.",
      ),
    )
    else (
      false,
      (
        "restic not found",
        "Install the restic binary on the server (see restic.net), then restart the app.",
      ),
    )

unfoldable pub docker_line : Option Docker → Bool × (String × String)
docker_line none = (false, ("Checking Docker…", ""))
docker_line (some d) =
    if d.available
    then (
      true,
      (
        if d.coolify then "Docker, managed by Coolify" else "Docker",
        "Sites, volumes and databases on this host can be backed up.",
      ),
    )
    else (false, ("Docker not available", d.message))

-- `GettingStarted`: a step, and what stands under it.
pub data Button : Type 0 where
  no_button : Button
  disabled : (label : String) → Button
  leads_to : (label target : String) → Button

pub record Step : Type 0 where
  pub done : Bool
  pub title : String
  pub button : Button

unfoldable pub link_unless : (done : Bool) → (label target : String) → Button
link_unless done label target = if done then no_button else leads_to label target

unfoldable pub getting_started : (has_folder has_repo : Bool) → List Step
unfolding link_unless
getting_started has_folder has_repo =
    record {
      done = has_folder;
      title = "Add a folder to back up";
      button = link_unless has_folder "Add a folder" "/folders";
    }
    ∷ record {
      done = has_repo;
      title = "Add a storage repository";
      button = link_unless has_repo "Add a repository" "/repositories";
    }
    ∷ record {
      done = false;
      title = "Create a job";
      button =
          if has_folder && has_repo
          then leads_to "Create a job" "/jobs"
          else disabled "Create a job";
    }
    ∷ []

unfoldable pub done_text : List Step → String
done_text steps = concat (
    show (length (keep (λ (s : Step). s.done) steps)) ∷ " of " ∷ show (length steps) ∷ " done" ∷ [])

-- The theme: the choice, what the system prefers, and what is stored, where storing works.
pub record Theme : Type 0 where
  pub theme : String
  pub system_dark : Bool
  pub stored : Option String
  pub can_store : Bool

-- `localStorage.getItem("theme") || "dark"`, and "dark" where reading throws.
unfoldable pub initial_theme : (can_store : Bool) → Option String → String
initial_theme can_store none = "dark"
initial_theme can_store (some s) = if can_store then or_text s "dark" else "dark"

unfoldable pub open_theme :
    (can_store : Bool) → (stored : Option String) → (system_dark : Bool) → Theme
unfolding initial_theme
open_theme can_store stored system_dark = record {
  theme = initial_theme can_store stored;
  system_dark = system_dark;
  stored = stored;
  can_store = can_store;
}

unfoldable pub resolved : Theme → String
resolved t = if t.theme == "system" then (if t.system_dark then "dark" else "light") else t.theme

unfoldable pub set_theme : String → Theme → Theme
set_theme next t = record t { theme = next; stored = if t.can_store then some next else t.stored }

unfoldable pub system_changed : Bool → Theme → Theme
system_changed dark t = record t { system_dark = dark }

-- Whether `<html>` has the class "dark".
unfoldable pub has_dark_class : Theme → Bool
unfolding resolved
has_dark_class t = resolved t == "dark"

-- `MobileActivity`: the link in the top bar of small screens.
unfoldable pub mobile_activity : List Run → Option String
mobile_activity active =
    if eqb (length active) 0 then none else some (concat (show (length active) ∷ " running" ∷ []))

-- `ResticBanner`
unfoldable pub shows_banner : Status → Bool
shows_banner status = not status.restic_installed

-- The drawer of small screens: any navigation closes it.
pub data Drawer : Type 0 where
  press_menu navigated : Drawer
  open_change : Bool → Drawer

unfoldable pub drawer : (menu_open : Bool) → Drawer → Bool
drawer menu_open press_menu = true
drawer menu_open navigated = false
drawer menu_open (open_change to) = to

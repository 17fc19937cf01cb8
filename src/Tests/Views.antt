-- ===== src/Tests/Views.antt =====
-- What the parts of pages show, at concrete inputs.
use restic_golang.Base.{ℕ, String, map, ◌≡◌, refl, true, false, List, [], ◌∷◌}
use restic_golang.Browser.{Browser, Entry, browse}
use restic_golang.Browser.Crumbs.{crumbs, segments, IsTrail, crumbs-IsTrail}
use restic_golang.Browser.Listing.{Answer, answered, pressed, slow_after}
use restic_golang.Browser.Listing
use restic_golang.Browser.Listing.Laws.{Shows, steps-Shows}
use restic_golang.Browser.View.{open_folder}
use restic_golang.History.Log.{Event, scrolled, filtered, steps, opened}
use restic_golang.History.Log.Laws.{reached, even}
use restic_golang.Live.{Line}

crumbs-IsTrail_example : IsTrail [] (segments "/srv//shop/") (crumbs "/srv//shop/")
crumbs-IsTrail_example = crumbs-IsTrail "/srv//shop/"

crumbs_srv :
    crumbs "/srv//shop/"
    ≡ record { text = "srv"; to = "/srv"; last = false }
      ∷ record { text = "shop"; to = "/srv/shop"; last = true }
      ∷ []
unfolding crumbs
crumbs_srv = refl

abbrev line : Line
line = record { seq = 1; level = "info"; message = "scan" }

abbrev six : List Line
six = line ∷ line ∷ line ∷ line ∷ line ∷ line ∷ []

-- A reader scrolls up; then more lines arrive.
abbrev events : List Event
events = scrolled 10 ∷ filtered "problems" ∷ filtered "all" ∷ scrolled 10 ∷ []

scrolled_up : (reached (even 40) six events).scroll_top ≡ 10
unfolding steps opened
scrolled_up = refl

abbrev an_entry : Entry
an_entry = record { path = "/srv/a"; name = "a"; is_dir = false; size = 5; mtime = "" }

abbrev nothing_yet : Browser
nothing_yet = record {
  path = "/";
  loading = true;
  entries = [];
  error = "";
  selected = [];
  screen = browse;
  in_place = true;
  target = "";
  stop_site = true;
  busy = false;
  slow = false;
}

-- A server that lists one file in every folder.
abbrev server : ℕ → String → Answer
server n path = record { ok = true; entries = record an_entry { name = path } ∷ []; message = "" }

-- The answer for the first folder comes after that for the second.
abbrev loads : List Listing.Event
loads =
    Listing.opened "/srv"
    ∷ pressed (open_folder "/srv/shop")
    ∷ answered 3
    ∷ answered 2
    ∷ slow_after 3
    ∷ []

steps-Shows_example :
    Shows server
      (Listing.steps server (record { browser = nothing_yet; asked = []; alive = false }) loads)
steps-Shows_example = steps-Shows server nothing_yet loads

last_listing :
    map
      (λ (e : Entry). e.name)
      (Listing.steps server
        (record { browser = nothing_yet; asked = []; alive = false })
        loads).browser.entries
    ≡ "/srv/shop" ∷ []
unfolding Listing.steps
last_listing = refl

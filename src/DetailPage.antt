-- ===== src/DetailPage.antt =====
-- What the pages of one job and of one repository have in common (ui/src/routes/job-detail.jsx and
-- repository-detail.jsx): the loader that tells a missing thing from a failure, and what is shown.
pub mod Laws
use restic_golang.Api.{Response, error_of}
use restic_golang.Base.{
  ℕ, String, Bool, true, false, Option, none, some, List, [], ◌∷◌, if◌then◌else◌, eqb, concat,
}
use restic_golang.ListPage.{Loaded, failed, loaded}
use restic_golang.UseFetch.{Fetch}

-- What a loader returns: `{ missing: true }`, or what was found.
pub data Detail (A : Type 0) : Type 0 where
  missing : Detail A
  found : A → Detail A

pub data View (A : Type 0) : Type 0 where
  not_found : View A
  error_state : (description : String) → View A
  skeleton : View A
  showing : A → View A
  -- The page reads the data although there are none.
  broken : View A

unfoldable pub retry_text : String → String
retry_text message = concat (message ∷ " Check that the server is running, then retry." ∷ [])

module _ {A : Type 0} where
  unfoldable pub load_detail : (fallback : String) → Response → A → Loaded (Detail A)
  load_detail fallback res got =
      if eqb res.status 404
      then loaded missing
      else if res.ok
      then loaded (found got)
      else failed (error_of res fallback)

  unfoldable pub detail_view : Option (Detail A) → Bool → Option String → View A
  unfolding retry_text
  detail_view (some missing) _ _ = not_found
  detail_view (some (found a)) _ _ = showing a
  detail_view none _ (some message) = error_state (retry_text message)
  detail_view none true none = skeleton
  detail_view none false none = broken

  -- The three early returns, and the page.
  unfoldable pub view : Fetch (Detail A) String → View A
  unfolding detail_view
  view s = detail_view s.value s.loading s.error

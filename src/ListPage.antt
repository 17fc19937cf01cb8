-- ===== src/ListPage.antt =====
-- What the pages of sources, jobs and repositories have in common (ui/src/routes/folders.jsx,
-- jobs.jsx and repositories.jsx): loading a list, what is shown of it, the effect that corrects the
-- page number, and the deletion of an entry.
pub mod Laws
use restic_golang.Api.{Request, Response, error_of}
use restic_golang.Base.{
  ℕ, zero, suc, String, Bool, true, false, Option, none, some, List, [], ◌∷◌, if◌then◌else◌, eqb,
}
use restic_golang.Confirm.{Given}
use restic_golang.Pagination.{page_slice, page_size}
use restic_golang.UseFetch.{Fetch, Event, fulfilled, rejected, finished}

-- `errorOf(res)`, by the default of its second parameter.
abbrev pub any_error : String
any_error = "Something went wrong."

-- What a loader does: it throws an error with a message, or it returns.
pub data Loaded (A : Type 0) : Type 0 where
  failed : String → Loaded A
  loaded : A → Loaded A

-- What a page shows instead of its list, or the list.
pub data View (B : Type 0) : Type 0 where
  error_state : String → View B
  skeleton no_items : View B
  showing : List B → View B

pub data Effect : Type 0 where
  send : Request → Effect
  toast_success : String → Effect
  toast_error : (title description : String) → Effect
  close_dialog reload_list : Effect

unfoldable pub list_view : {B : Type 0} → List B → View B
list_view [] = no_items
list_view (b ∷ bs) = showing (b ∷ bs)

-- What the effect sets, and the page after it.
unfoldable pub unless_set : Option ℕ → (page : ℕ) → (again : Option ℕ) → Option ℕ
unless_set none page again = some page
unless_set (some _) page again = again

module _ {A : Type 0} where
  -- `body?.items || []`
  unfoldable pub listed : Option (List A) → List A
  listed none = []
  listed (some l) = l

  -- A loader of one list: `if (!res.ok) throw new Error(errorOf(res, fallback))`
  unfoldable pub load : String → Response → Option (List A) → Loaded (List A)
  unfolding listed
  load fallback res given = if res.ok then loaded (listed given) else failed (error_of res fallback)

  -- What `useFetch` sees of a loader that was started in the generation `mine`.
  unfoldable pub outcome : ℕ → Loaded A → List (Event A String)
  outcome mine (loaded v) = fulfilled mine v ∷ finished mine ∷ []
  outcome mine (failed message) = rejected mine message ∷ finished mine ∷ []

  module _ {B : Type 0} (items : A → List B) where
    unfoldable pub view_of : Option A → Bool → Option String → View B
    unfolding list_view
    view_of (some a) _ _ = list_view (items a)
    view_of none _ (some message) = error_state message
    view_of none true none = skeleton
    view_of none false none = no_items

    -- `error && !data`, `loading && !data`, `items.length === 0`, and the list.
    unfoldable pub view : Fetch A String → View B
    unfolding view_of
    view s = view_of s.value s.loading s.error

  -- `React.useEffect(() => { if (page !== paged.page) setPage(paged.page) })`
  unfoldable pub page_effect : List A → ℕ → Option ℕ
  page_effect list page =
      let slice = page_slice list page page_size in
      if eqb page slice.page then none else some slice.page

  -- Rendering until the effect sets no page: the page in the end, `none` where `fuel` renders are
  -- not enough.
  unfoldable pub renders : ℕ → List A → ℕ → Option ℕ
  unfolding page_effect unless_set
  renders zero list page = none
  renders (suc fuel) list page =
      let again = renders fuel list (page_slice list page page_size).page in
      unless_set (page_effect list page) page again

-- The question of a deletion.
unfoldable pub question : (title description label : String) → Given
question title description label = record {
  title = some title;
  description = some description;
  confirm_label = some label;
  cancel_label = none;
  destructive = some true;
}

-- `remove` behind the answer to its question, and behind that of the server.
unfoldable pub confirmed : Request → Bool → List Effect
confirmed call ok = if ok then send call ∷ [] else []

unfoldable pub removed : (success failure : String) → Response → List Effect
removed success failure res =
    if res.ok
    then toast_success success ∷ reload_list ∷ []
    else toast_error failure (error_of res any_error) ∷ []

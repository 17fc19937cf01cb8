-- ===== src/DetailPage/Laws.antt =====
-- About the loading of ui/src/routes/job-detail.jsx and repository-detail.jsx.
use restic_golang.Api.{Response, error_of}
use restic_golang.Base.{
  ◌+◌, ◌≡◌, ◌≢◌, refl, ap, ◌∙◌, Bool, true, false, String, Option, none, some, List, [], ◌∷◌, eqb,
}
use restic_golang.DetailPage.{
  Detail, missing, found, not_found, error_state, showing, broken, load_detail, detail_view, view,
  retry_text,
}
use restic_golang.ListPage.{Loaded, outcome}
use restic_golang.ListPage.Laws.{ended, steps-outcome}
use restic_golang.UseFetch.{Fetch, Event, mounted, run, step, steps}
use restic_golang.UseFetch.Laws.{IsFresh, run-current}
use restic_golang.UseFetch.Settled.{settled, IsOrderly, steps-IsSettled}

module _ {A : Type 0} where
  detail_view-settled :
      (v : Option (Detail A)) (l : Bool) (e : Option String)
      → (l ≡ false → settled v e ≡ true)
      → detail_view v l e ≢ broken
  unfolding detail_view
  detail_view-settled (some missing) l e h k = cc
  detail_view-settled (some (found a)) l e h k = cc
  detail_view-settled none l (some m) h k = cc
  detail_view-settled none true none h k = cc
  detail_view-settled none false none h k = let f = h refl in cc

  -- Whatever loads of the page run, answer in any order, are cleaned up or are run again: the page
  -- never reads the data before there are any.
  pub view-unbroken :
      (es : List (Event (Detail A) String))
      → IsOrderly (mounted none) [] es
      → view (steps (mounted none) es) ≢ broken
  unfolding view
  view-unbroken es o =
      let s = steps (mounted none) es in
      detail_view-settled s.value s.loading s.error (steps-IsSettled none es o)

  -- A thing that is there is shown, whatever else holds.
  detail_view-some :
      (d : Detail A) (l : Bool) (e : Option String)
      → detail_view (some d) l e ≡ detail_view (some d) false none
  unfolding detail_view
  detail_view-some missing l e = refl
  detail_view-some (found a) l e = refl

  -- The view when a load that ran to its end was the last to start.
  view-outcome :
      (s : Fetch (Detail A) String) (l : Loaded (Detail A))
      → IsFresh s
      → view (steps s (run ∷ outcome (s.generation + 1) l)) ≡ view (ended (step s run) l)
  unfolding steps step
  view-outcome s l fresh =
      ap view (steps-outcome (step s run) (s.generation + 1) l (run-current s fresh))

  -- In a state in which only effects up to the current one were cleaned up, a load runs, and its
  -- answer arrives before anything else does. A status of 404 shows that there is no such thing; any
  -- other answer that is well shows the thing; and an answer that is not leaves what was there, and
  -- where nothing was, shows its error, or the fallback, with the advice to retry.
  pub view-load_detail :
      (s : Fetch (Detail A) String) (fallback : String) (res : Response) (got : A)
      → IsFresh s
      → let after =
          view (steps s (run ∷ outcome (s.generation + 1) (load_detail fallback res got))) in
        (eqb res.status 404 ≡ true → after ≡ not_found)
        × (eqb res.status 404 ≡ false → res.ok ≡ true → after ≡ showing got)
        × (eqb res.status 404 ≡ false
            → res.ok ≡ false
            → s.value ≡ none
            → after ≡ error_state (retry_text (error_of res fallback)))
        × (eqb res.status 404 ≡ false
            → res.ok ≡ false
            → (d : Detail A) → s.value ≡ some d
            → after ≡ detail_view (some d) false none)
  unfolding load_detail view detail_view step error_of
  view-load_detail s fallback res got fresh =
      let e = view-outcome s (load_detail fallback res got) fresh in
      (
        λ h. e ∙ rw h refl,
        λ h k. e ∙ rw (h, k) refl,
        λ h k v. e ∙ rw (h, k, v) refl,
        λ h k d v. e ∙ rw (h, k, v) (detail_view-some d false (some (error_of res fallback))),
      )

-- ===== src/StartRun.antt =====
-- The answer of an endpoint that starts an operation (ui/src/lib/start-run.js): where it leads the
-- user, and what it tells.
pub mod Laws
use restic_golang.Api.{Response, Body, Blocking, error_of}
use restic_golang.Base.{
  String, Bool, true, false, ◌&&◌, Option, none, some, List, [], ◌∷◌, if◌then◌else◌, ◌==◌, eqb,
  concat, or_text, to_lower, truthy,
}
use restic_golang.Runs.{kind_label}

-- A button of a message, which leads to an address.
pub record Action : Type 0 where
  pub label : String
  pub target : String

pub data Effect : Type 0 where
  navigate : String → Effect
  toast_success : String → Action → Effect
  toast_warning : (title description : String) → Option Action → Effect
  toast_error : (title : String) → (description : Option String) → Effect

abbrev pub run_page : String → String
run_page id = concat ("/runs/" ∷ id ∷ [])

-- `res.body.run?.kind ? kindLabel(res.body.run.kind) : "Operation"`
unfoldable pub started_kind : Body → String
started_kind b = if b.run_kind == "" then "Operation" else kind_label b.run_kind

-- The branch of an answer that started a run.
unfoldable pub started : Bool → Body → Bool × List Effect
unfolding started_kind
started stay b =
    if stay
    then (
      true,
      toast_success (concat (started_kind b ∷ " started" ∷ []))
            (record { label = "Open run"; target = run_page b.run_id })
          ∷ [],
    )
    else (true, navigate (run_page b.run_id) ∷ [])

unfoldable pub what : Option Blocking → String
what none = "another operation"
what (some r) = to_lower (kind_label r.kind)

unfoldable pub of_job : Option Blocking → String
of_job none = ""
of_job (some r) = if r.job_name == "" then "" else concat (" for “" ∷ r.job_name ∷ "”" ∷ [])

unfoldable pub view_it : Option Blocking → Option Action
view_it none = none
view_it (some r) =
    if r.run_id == "" then none else some (record { label = "View it"; target = run_page r.run_id })

-- The branch of a repository that another run holds.
unfoldable pub busy : Body → Bool × List Effect
unfolding what of_job view_it
busy b = (
  false,
  toast_warning (concat (or_text b.repo_name "That repository" ∷ " is busy" ∷ []))
        (concat (
          "A "
          ∷ what b.blocking_run
          ∷ of_job b.blocking_run
          ∷ " is already running. Stop it or wait for it to finish."
          ∷ []))
        (view_it b.blocking_run)
      ∷ [],
)

unfoldable pub with_body : Response → String → Bool → Body → Bool × List Effect
unfolding started busy
with_body res fallback stay b =
    if eqb res.status 202 && truthy b.run_id
    then started stay b
    else if eqb res.status 409 && b.code == "busy"
    then busy b
    else if b.code == "no_restic"
    then (false, toast_error "restic is not installed" (some (error_of res fallback)) ∷ [])
    else (false, toast_error (error_of res fallback) none ∷ [])

unfoldable pub of_body : Response → String → Bool → Option Body → Bool × List Effect
unfolding with_body
of_body res fallback stay none = (false, toast_error (error_of res fallback) none ∷ [])
of_body res fallback stay (some b) = with_body res fallback stay b

-- The result, and what was done for it.
unfoldable pub handle_start_response : Response → String → Bool → Bool × List Effect
unfolding of_body
handle_start_response res fallback stay = of_body res fallback stay res.body

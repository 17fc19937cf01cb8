-- ===== src/Retention/Editor.antt =====
-- The retention editor (ui/src/components/retention-editor.jsx) as a state machine: the user's
-- actions, and the answers to what was sent, are events.
use restic_golang.Api.{Response, error_of}
use restic_golang.Base.{
  ℕ, String, Bool, true, false, ◌||◌, not, Option, none, some, List, [], ◌∷◌, if◌then◌else◌, ltb,
  concat,
}
use restic_golang.Retention.{
  Counts, Policy, preset_values, retention_form_from_job, retention_payload,
  describe_retention_title,
}

pub record Editor : Type 0 where
  pub form : Policy
  pub busy : Bool
  pub applying : Bool
  pub error : String

-- What the component asks of others: a request, a message to the user, a call of `onSaved`.
pub data Effect : Type 0 where
  save_retention : Policy → Effect
  run_retention : (dry_run : Bool) → Effect
  toast_success : String → Effect
  start_response : (fallback : String) (stay : Bool) → Effect
  on_saved : Effect

-- The effect on `[job]`: the form is read anew.
unfoldable pub on_job : Option Policy → Editor → Editor
unfolding retention_form_from_job
on_job r e = record e { form = retention_form_from_job r; error = "" }

unfoldable pub opened : Option Policy → Editor
unfolding retention_form_from_job
opened r = record { form = retention_form_from_job r; busy = false; applying = false; error = "" }

unfoldable pub set_enabled : Bool → Editor → Editor
set_enabled on e = record e { form = record e.form { enabled = on } }

unfoldable pub choose_preset : String → Option Counts → Policy → Policy
choose_preset preset none form = record form { preset = preset }
choose_preset preset (some values) form = record form { preset = preset; counts = values }

unfoldable pub set_preset : String → Editor → Editor
unfolding choose_preset preset_values
set_preset preset e = record e { form = choose_preset preset (preset_values preset) e.form }

-- The six inputs of the custom policy; `Math.max(0, parseInt(value || "0", 10) || 0)` is the count
-- that was typed, or 0.
pub data CustomField : Type 0 where
  last hourly daily weekly monthly within_days : CustomField

unfoldable pub set_count : CustomField → ℕ → Counts → Counts
set_count last n c = record c { keep_last = n }
set_count hourly n c = record c { keep_hourly = n }
set_count daily n c = record c { keep_daily = n }
set_count weekly n c = record c { keep_weekly = n }
set_count monthly n c = record c { keep_monthly = n }
set_count within_days n c = record c { keep_within_days = n }

unfoldable pub set_custom : CustomField → ℕ → Editor → Editor
unfolding set_count
set_custom field n e = record e {
  form = record e.form { counts = set_count field n e.form.counts };
}

unfoldable pub has_rule : Counts → Bool
has_rule c =
    ltb 0 c.keep_last
    || ltb 0 c.keep_hourly
    || ltb 0 c.keep_daily
    || ltb 0 c.keep_weekly
    || ltb 0 c.keep_monthly
    || ltb 0 c.keep_within_days

-- `save` up to its `await`, with the payload at hand.
unfoldable pub submit_with : Policy → Editor → Editor × List Effect
unfolding has_rule
submit_with retention e =
    if (if retention.enabled then not (has_rule retention.counts) else false)
    then (record e { busy = false; error = "Set at least one keep rule, or choose a preset." }, [])
    else (record e { busy = true; error = "" }, save_retention retention ∷ [])

-- `onSubmit`
unfoldable pub submit : Editor → Editor × List Effect
unfolding retention_payload submit_with
submit e = submit_with (retention_payload e.form) e

-- `save` behind its `await`.
unfoldable pub saved : Policy → Response → Editor → Editor × List Effect
unfolding describe_retention_title error_of
saved retention res e =
    if res.ok
    then (
      record e { busy = false },
      toast_success (
            if retention.enabled
            then concat ("Retention: " ∷ describe_retention_title retention ∷ "." ∷ [])
            else "Retention paused.")
          ∷ on_saved
          ∷ [],
    )
    else (record e { busy = false; error = error_of res "Could not save retention." }, [])

-- `preview` up to its `await`, and behind it.
unfoldable pub preview : Editor → Editor × List Effect
preview e = (record e { applying = true }, run_retention true ∷ [])

unfoldable pub previewed : Editor → Editor × List Effect
previewed e = (
  record e { applying = false },
  start_response "Could not start the retention preview." false ∷ [],
)

-- `applyNow` once the question is answered, and behind the request; `started` is what
-- `handleStartResponse` returned.
unfoldable pub apply_now : Bool → Editor → Editor × List Effect
apply_now ok e = if ok then (record e { applying = true }, run_retention false ∷ []) else (e, [])

unfoldable pub applied : Bool → Bool → Editor → Editor × List Effect
applied stay started e = (
  record e { applying = false },
  start_response "Could not start retention." stay ∷ (if started then on_saved ∷ [] else []),
)

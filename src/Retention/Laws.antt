-- ===== src/Retention/Laws.antt =====
-- About the form of ui/src/lib/retention.js and its editor (ui/src/components/retention-editor.jsx).
use restic_golang.Base.{
  ◌≡◌, ◌≢◌, refl, ap, ◌∙◌, ◌⊎◌, inl, inr, String, Bool, true, false, Option, none, some, List, [],
  ◌∷◌, arith, ◌==◌, or_text, Bool-cases,
}
use restic_golang.Retention.{
  Counts, Policy, empty_counts, preset_values, counts_for, retention_form_from_job,
  retention_payload,
}
use restic_golang.Retention.Editor.{Editor, Effect, save_retention, has_rule, submit, submit_with}

or_text-or_text : (s c d : String) → (c == "") ≡ false → or_text (or_text s c) d ≡ or_text s c
or_text-or_text s c d h = elim (Bool-cases (s == "")) [ inl e ↦ rw e (rw h) | inr e ↦ rw e (rw e) ]

counts_for_idem :
    (b : Bool) (v : Option Counts) (c : Counts)
    → counts_for b v (counts_for b v c) ≡ counts_for b v c
unfolding counts_for
counts_for_idem b none c = refl
counts_for_idem true (some v) c = refl
counts_for_idem false (some v) c = refl

-- A policy whose counts are those of its preset, if that has some.
abbrev policy : Bool → String → Counts → Policy
policy enabled preset c = record {
  enabled = enabled;
  preset = preset;
  counts = counts_for (preset == "custom") (preset_values preset) c;
}

policy_again :
    (enabled : Bool) (p q : String) (c : Counts)
    → q ≡ p
    → policy enabled q (policy enabled p c).counts ≡ policy enabled p c
policy_again enabled p q c e =
    ap (λ r. policy enabled r (policy enabled p c).counts) e
    ∙ ap (λ (k : Counts). record { enabled = enabled; preset = p; counts = k })
        (counts_for_idem (p == "custom") (preset_values p) c)

-- The form that is read from what was sent is what was sent, and sending that sends the same again.
pub retention_form_from_job-payload :
    (form : Policy)
    → (retention_form_from_job (some (retention_payload form)) ≡ retention_payload form)
      × (retention_payload (retention_payload form) ≡ retention_payload form)
unfolding retention_form_from_job retention_payload
retention_form_from_job-payload form = (
  policy_again form.enabled _ _ form.counts (or_text-or_text form.preset "custom" "balanced" refl),
  policy_again form.enabled _ _ form.counts (or_text-or_text form.preset "custom" "custom" refl),
)

-- The two outcomes of a submission with the payload `r`.
abbrev pub Sends : Policy → Editor × List Effect → Type 0
Sends r out =
    (out.1 ≡ save_retention r ∷ [])
    × (out.0.busy ≡ true)
    × (out.0.error ≡ "")
    × (r.enabled ≡ true → has_rule r.counts ≡ true)

abbrev pub Refuses : Policy → Editor × List Effect → Type 0
Refuses r out =
    (out.1 ≡ [])
    × (out.0.busy ≡ false)
    × (out.0.error ≢ "")
    × (r.enabled ≡ true)
    × (r.counts ≡ empty_counts)

no_rule : (c : Counts) → has_rule c ≡ false → c ≡ empty_counts
unfolding has_rule
no_rule c h = ground arith

submit_with_cases :
    (r : Policy) (e : Editor) → Sends r (submit_with r e) ⊎ Refuses r (submit_with r e)
unfolding submit_with
submit_with_cases r e = elim (Bool-cases r.enabled) [
  | inr off ↦ inl (rw off, rw off, rw off, λ on. cc)
  | inl on ↦ elim (Bool-cases (has_rule r.counts)) [
    | inl h ↦ inl (rw (on, h), rw (on, h), rw (on, h), λ _. h)
    | inr h ↦ inr (rw (on, h), rw (on, h), rw (on, h) (λ q. cc), on, no_rule r.counts h)
  ]
]

-- The editor sends an enabled policy only if it has a keep rule, and what it sends is the payload
-- of the form; it refuses exactly the enabled policies without a rule, and then sends nothing.
pub submit_guard :
    (e : Editor)
    → Sends (retention_payload e.form) (submit e) ⊎ Refuses (retention_payload e.form) (submit e)
unfolding submit
submit_guard e = submit_with_cases (retention_payload e.form) e

-- ===== src/Retention.antt =====
-- Snapshot retention of a job (ui/src/lib/retention.js): presets, the form, what is sent and how it
-- reads. Counts are natural numbers: the form admits no others, and the server sends none.
pub mod Editor
pub mod Laws
pub mod Describe
use restic_golang.Base.{
  ℕ, String, Bool, true, false, not, ◌&&◌, Option, none, some, List, [], ◌∷◌, ◌++◌, if◌then◌else◌,
  ◌==◌, ltb, concat, join, or_text, show, find, capitalize,
}

pub record Counts : Type 0 where
  pub keep_last : ℕ
  pub keep_hourly : ℕ
  pub keep_daily : ℕ
  pub keep_weekly : ℕ
  pub keep_monthly : ℕ
  pub keep_within_days : ℕ

-- A preset's `values` are `null` for `custom`.
pub record Preset : Type 0 where
  pub id : String
  pub label : String
  pub description : String
  pub values : Option Counts

-- The API's JobRetention, and the state of the form: the counts stand beside the two other fields.
pub record Policy : Type 0 where
  pub enabled : Bool
  pub preset : String
  pub counts : Counts

abbrev pub empty_counts : Counts
empty_counts = record {
  keep_last = 0;
  keep_hourly = 0;
  keep_daily = 0;
  keep_weekly = 0;
  keep_monthly = 0;
  keep_within_days = 0;
}

abbrev pub light : Counts
light = record empty_counts { keep_last = 24; keep_daily = 7 }

abbrev pub balanced : Counts
balanced = record empty_counts { keep_last = 24; keep_daily = 7; keep_weekly = 4 }

abbrev pub long : Counts
long = record empty_counts { keep_last = 48; keep_daily = 14; keep_weekly = 8; keep_monthly = 12 }

abbrev pub retention_presets : List Preset
retention_presets =
    record {
      id = "light";
      label = "Light";
      description = "Last 24 snapshots and 7 dailies";
      values = some light;
    }
    ∷ record {
      id = "balanced";
      label = "Balanced";
      description = "Last 24, 7 daily, 4 weekly — good for hourly jobs";
      values = some balanced;
    }
    ∷ record {
      id = "long";
      label = "Long";
      description = "Last 48, 14 daily, 8 weekly, 12 monthly";
      values = some long;
    }
    ∷ record {
      id = "custom";
      label = "Custom";
      description = "Set keep counts yourself";
      values = none;
    }
    ∷ []

-- `RETENTION_PRESETS.find((p) => p.id === preset)?.values`
unfoldable pub preset_values : String → Option Counts
preset_values preset = elim (find (λ p. p.id == preset) retention_presets) [
  | none ↦ none
  | some p ↦ p.values
]

-- The values of a preset other than `custom`, or the other counts.
unfoldable pub counts_for : Bool → Option Counts → Counts → Counts
counts_for custom none other = other
counts_for custom (some values) other = if custom then other else values

unfoldable pub form_preset : Option Policy → String
form_preset none = "balanced"
form_preset (some r) = or_text r.preset "balanced"

unfoldable pub stored_counts : Option Policy → Counts
stored_counts none = balanced
stored_counts (some r) = r.counts

unfoldable pub is_enabled : Option Policy → Bool
is_enabled none = false
is_enabled (some r) = r.enabled

-- `retentionFormFromJob`, of the job's `retention`.
unfoldable pub retention_form_from_job : Option Policy → Policy
unfolding form_preset stored_counts is_enabled preset_values counts_for
retention_form_from_job r = record {
  enabled = is_enabled r;
  preset = form_preset r;
  counts = counts_for (form_preset r == "custom") (preset_values (form_preset r)) (stored_counts r);
}

-- `retentionPayload` of a form that is there.
unfoldable pub retention_payload : Policy → Policy
unfolding preset_values counts_for
retention_payload form =
    let preset = or_text form.preset "custom" in
    record {
      enabled = form.enabled;
      preset = preset;
      counts = counts_for (preset == "custom") (preset_values preset) form.counts;
    }

-- `if (n > 0) parts.push(...)`
unfoldable pub part : ℕ → List String → List String
part n words = if ltb 0 n then concat words ∷ [] else []

unfoldable pub parts : Counts → List String
unfolding part
parts c =
    part c.keep_last ("last " ∷ show c.keep_last ∷ [])
    ++ (part c.keep_hourly (show c.keep_hourly ∷ " hourly" ∷ [])
        ++ (part c.keep_daily (show c.keep_daily ∷ " daily" ∷ [])
            ++ (part c.keep_weekly (show c.keep_weekly ∷ " weekly" ∷ [])
                ++ (part c.keep_monthly (show c.keep_monthly ∷ " monthly" ∷ [])
                    ++ part c.keep_within_days ("within " ∷ show c.keep_within_days ∷ "d" ∷ [])))))

-- `describeRetention` of a policy that is there.
unfoldable pub describe_retention : Policy → String
unfolding parts
describe_retention r = join ", " (parts r.counts)

unfoldable pub describe_retention_title : Policy → String
unfolding describe_retention
describe_retention_title r = let d = describe_retention r in if d == "" then "" else capitalize d

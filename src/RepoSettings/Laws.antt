-- ===== src/RepoSettings/Laws.antt =====
-- About the check form of ui/src/components/repo-settings.jsx.
use restic_golang.Base.{
  ◌≡◌, ◌≢◌, sym, inl, inr, Bool-cases, String, some, arith, if◌then◌else◌, ◌==◌, eq_iff, or_text,
}
use restic_golang.RepoSettings.{Check, check_form, payload}

kept : (s d : String) → s ≢ "" → or_text s d ≡ s
kept s d h = ground (arith, eq_iff s "")

read_data_again : (r : String) → r ≢ "" → or_text (if r == "none" then "" else r) "none" ≡ r
read_data_again r h = elim (Bool-cases (r == "none")) [
  | inl e ↦ rw e (sym ((eq_iff r "none").0 e))
  | inr e ↦ rw e (kept r "none" h)
]

-- A form whose choices are all made is read back from what it sends: saving and opening the page
-- again shows the same choices, whether or not the check is turned on.
pub check_form-payload :
    (form : Check)
    → form.every ≢ ""
    → form.at ≢ ""
    → form.read_data ≢ ""
    → check_form (some (payload form)) ≡ form
unfolding check_form payload
check_form-payload form e a r =
    rw (kept form.every "weekly" e, kept form.at "04:00" a, read_data_again form.read_data r)

-- ===== src/Base/Keys.antt =====
-- An object used as a table of values, `{ [key]: value }`, by its keys.
use mathlib.Core.Path.{◌≡◌, refl, sym, ap, ◌∙◌}
use mathlib.Core.Logic.{inl, inr}
use mathlib.Core.Bool.{true, false}
use mathlib.Core.List.{List, [], ◌∷◌}
use Prim.Native.String.{String}
use text.Mathlib.Text.{◌==◌}
use text.Mathlib.TextEquality.{eq_iff}
use restic_golang.Base.Tests.{if◌then◌else◌, Bool-cases}

-- How two keys compare by way of a third one.
join-eq : (d k k' : String) → k == k' ≡ true → d == k ≡ d == k'
join-eq d k k' e = ap (λ s. d == s) ((eq_iff k k').0 e)

-- Of two different keys a third one is at most one.
apart-eq : (d k k' : String) → k == k' ≡ false → d == k' ≡ true → d == k ≡ false
apart-eq d k k' e f = elim (Bool-cases (d == k)) [
  | inl g ↦ let h = (eq_iff k k').1 (sym ((eq_iff d k).0 g) ∙ (eq_iff d k').0 f) in cc
  | inr g ↦ g
]

module _ {ℓ} {V : Type ℓ} where
  -- `m[k] || none`
  abbrev pub value_at : String → V → List (String × V) → V
  value_at k none [] = none
  value_at k none ((k', v) ∷ rest) =
      let other = value_at k none rest in if k == k' then v else other

  -- `m[k] ||= none`, and a change of `m[k]` by `f`.
  abbrev pub upsert : String → V → (V → V) → List (String × V) → List (String × V)
  upsert k none f [] = (k, f none) ∷ []
  upsert k none f ((k', v) ∷ rest) =
      let other = upsert k none f rest in if k == k' then (k', f v) ∷ rest else (k', v) ∷ other

  pub value_at-upsert :
      (d k : String) (none : V) (f : V → V) (m : List (String × V))
      → value_at d none (upsert k none f m)
        ≡ (if d == k then f (value_at d none m) else value_at d none m)
  value_at-upsert d k none f [] = elim (Bool-cases (d == k)) [
    | inl e ↦ rw e refl
    | inr e ↦ rw e refl
  ]
  value_at-upsert d k none f ((k', v) ∷ rest) = elim (Bool-cases (k == k')) [
    | inl e ↦ elim (Bool-cases (d == k')) [
      | inl g ↦ rw (e, join-eq d k k' e) (rw g refl)
      | inr g ↦ rw (e, join-eq d k k' e) (rw g refl)
    ]
    | inr e ↦ elim (Bool-cases (d == k')) [
      | inl g ↦ rw (e, apart-eq d k k' e g) (rw g refl)
      | inr g ↦ rw e (rw g (value_at-upsert d k none f rest))
    ]
  ]

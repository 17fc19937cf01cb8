-- ===== src/Retention/Describe.antt =====
-- About `describeRetention` of ui/src/lib/retention.js.
use Prim.Native.String
use text.Mathlib.TextLemmas.{append-eq-nil_iff}
use restic_golang.Base.{
  ℕ, ◌≡◌, ◌≢◌, ◌↔◌, refl, ◌⊎◌, inl, inr, String, false, List, [], ◌∷◌, ◌++◌, arith, concat, join,
  show, ltb, All, All-append,
}
use restic_golang.Retention.{Counts, Policy, part, parts, describe_retention}
use restic_golang.Retention.Editor.{has_rule}

abbrev IsThere : String → Type 0
IsThere s = s ≢ ""

IsThere-append : (s t : String) → IsThere s ⊎ IsThere t → IsThere (String.◌++◌ s t)
IsThere-append s t (inl h) e = h ((append-eq-nil_iff.0 e).0)
IsThere-append s t (inr h) e = h ((append-eq-nil_iff.0 e).1)

join-IsThere : (sep s : String) (l : List String) → IsThere s → IsThere (join sep (s ∷ l))
join-IsThere sep s [] h = h
join-IsThere sep s (t ∷ l) h = IsThere-append s _ (inl h)

part-IsThere : (n : ℕ) (words : List String) → IsThere (concat words) → All IsThere (part n words)
unfolding part
part-IsThere n words h = ground arith

parts-IsThere : (c : Counts) → All IsThere (parts c)
unfolding parts
parts-IsThere c =
    All-append IsThere _ _ (before c.keep_last "last " (show c.keep_last ∷ []) (λ e. cc)) (
      All-append IsThere _ _ (behind c.keep_hourly (show c.keep_hourly) " hourly" (λ e. cc)) (
        All-append IsThere _ _ (behind c.keep_daily (show c.keep_daily) " daily" (λ e. cc)) (
          All-append IsThere _ _ (behind c.keep_weekly (show c.keep_weekly) " weekly" (λ e. cc)) (
            All-append IsThere _ _
              (behind c.keep_monthly (show c.keep_monthly) " monthly" (λ e. cc))
              (before c.keep_within_days "within " (show c.keep_within_days ∷ "d" ∷ [])
                (λ e. cc))))))
  where
    before : (n : ℕ) (s : String) (l : List String) → IsThere s → All IsThere (part n (s ∷ l))
    before n s l h = part-IsThere n (s ∷ l) (IsThere-append s (concat l) (inl h))

    behind : (n : ℕ) (s t : String) → IsThere (concat (t ∷ [])) → All IsThere (part n (s ∷ t ∷ []))
    behind n s t h = part-IsThere n (s ∷ t ∷ []) (IsThere-append s (concat (t ∷ [])) (inr h))

join-parts : (l : List String) → All IsThere l → join ", " l ≡ "" → l ≡ []
join-parts [] h e = refl
join-parts (s ∷ l) (p, h) e = absurd (join-IsThere ", " s l p e)

part-append-nil_iff :
    (n : ℕ) (words rest : List String)
    → (part n words ++ rest ≡ []) ↔ ((ltb 0 n ≡ false) × (rest ≡ []))
unfolding part
part-append-nil_iff n words rest = ground arith

parts-nil_iff : (c : Counts) → (parts c ≡ []) ↔ (has_rule c ≡ false)
unfolding parts has_rule part
parts-nil_iff c = ground (arith, part-append-nil_iff c.keep_last, part-append-nil_iff c.keep_hourly)

-- The description of a policy is empty exactly when the editor's test finds no keep rule in it.
pub describe_retention-empty_iff :
    (r : Policy) → (describe_retention r ≡ "") ↔ (has_rule r.counts ≡ false)
unfolding describe_retention
describe_retention-empty_iff r = (
  λ e. (parts-nil_iff r.counts).0 (join-parts (parts r.counts) (parts-IsThere r.counts) e),
  λ h. rw ((parts-nil_iff r.counts).1 h),
)

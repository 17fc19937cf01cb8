-- ===== src/Base/Split.antt =====
-- `s.split("/")`, and what it makes of texts that are joined by slashes.
use Prim.Native.Char.{Char, code}
use Prim.Native.String
use Prim.Native.String.append
use Prim.Native.String.{String}
use text.Mathlib.TextLemmas.{append-nil}
use mathlib.Core.Path.{◌≡◌, refl, ap, ◌∙◌}
use mathlib.Core.Logic.{inl, inr}
use mathlib.Core.Bool.{Bool, false}
use mathlib.Core.List.{List, [], ◌∷◌, ◌++◌}
use restic_golang.Base.Lists.{All}
use restic_golang.Base.Tests.{eqb, if◌then◌else◌, Bool-cases}
use restic_golang.Base.Text.{join}

-- `c` in front of the first part.
unfoldable pub lead : Char → List String → List String
lead c [] = String.◌∷◌ c "" ∷ []
lead c (p ∷ ps) = String.◌∷◌ c p ∷ ps

unfoldable pub is_slash : Char → Bool
is_slash c = eqb (code c) b'/'

-- `s.split("/")`
unfoldable pub split : String → List String
unfolding lead is_slash
split String.[] = "" ∷ []
split (String.◌∷◌ c s) = let rest = split s in if is_slash c then "" ∷ rest else lead c rest

-- No character is a slash.
abbrev pub HasNoSlash : String → Type 0
HasNoSlash String.[] = Unit
HasNoSlash (String.◌∷◌ c s) = (is_slash c ≡ false) × HasNoSlash s

lead-HasNoSlash :
    (c : Char) (ps : List String)
    → is_slash c ≡ false
    → All HasNoSlash ps
    → All HasNoSlash (lead c ps)
unfolding lead
lead-HasNoSlash c [] e h = ((e, tt), tt)
lead-HasNoSlash c (p ∷ ps) e (h, t) = ((e, h), t)

pub split-HasNoSlash : (s : String) → All HasNoSlash (split s)
unfolding split
split-HasNoSlash String.[] = (tt, tt)
split-HasNoSlash (String.◌∷◌ c s) = elim (Bool-cases (is_slash c)) [
  | inl h ↦ rw h (tt, split-HasNoSlash s)
  | inr h ↦ rw h (lead-HasNoSlash c (split s) h (split-HasNoSlash s))
]

pub split-slash :
    (p s : String) → HasNoSlash p → split (String.◌++◌ p (String.◌∷◌ "/" s)) ≡ p ∷ split s
unfolding split lead is_slash
split-slash String.[] s h = rw (append.nil (String.◌∷◌ "/" s)) refl
split-slash (String.◌∷◌ c p) s (e, h) =
    rw (append.cons c p (String.◌∷◌ "/" s)) (rw e (rw (split-slash p s h) refl))

pub split-part : (p : String) → HasNoSlash p → split p ≡ p ∷ []
unfolding split lead
split-part String.[] h = refl
split-part (String.◌∷◌ c p) (e, h) = rw e (rw (split-part p h) refl)

pub slash-append : (s : String) → String.◌++◌ "/" s ≡ String.◌∷◌ "/" s
slash-append s = rw (append.cons "/" "" s) (rw (append.nil s) refl)

pub split-join :
    (p : String) (ps : List String)
    → HasNoSlash p
    → All HasNoSlash ps
    → split (join "/" (p ∷ ps)) ≡ p ∷ ps
split-join p [] h _ = split-part p h
split-join p (q ∷ ps) h (k, t) = rw (append-nil (join "/" (q ∷ ps))) (
    rw (slash-append (join "/" (q ∷ ps)))
      (split-slash p (join "/" (q ∷ ps)) h ∙ ap (p ∷◌) (split-join q ps k t)))

lead-lead : (c d : Char) (l ys : List String) → lead c (lead d l ++ ys) ≡ (lead c (lead d l)) ++ ys
unfolding lead
lead-lead c d [] ys = refl
lead-lead c d (p ∷ l) ys = refl

lead-split :
    (c : Char) (p : String) (ys : List String) → lead c (split p ++ ys) ≡ (lead c (split p)) ++ ys
unfolding split lead
lead-split c String.[] ys = refl
lead-split c (String.◌∷◌ d p) ys = elim (Bool-cases (is_slash d)) [
  | inl h ↦ rw h refl
  | inr h ↦ rw h (lead-lead c d (split p) ys)
]

-- A slash is where a text is split, whatever stands on its two sides.
pub split-append : (p s : String) → split (String.◌++◌ p (String.◌∷◌ "/" s)) ≡ split p ++ split s
unfolding split is_slash
split-append String.[] s = rw (append.nil (String.◌∷◌ "/" s)) refl
split-append (String.◌∷◌ c p) s =
    rw (append.cons c p (String.◌∷◌ "/" s)) (elim (Bool-cases (is_slash c)) [
      | inl h ↦ rw h (ap ("" ∷◌) (split-append p s))
      | inr h ↦ rw h (rw (split-append p s) (lead-split c p (split s)))
    ])

pub HasNoSlash-append : (p s : String) → HasNoSlash p → HasNoSlash s → HasNoSlash (String.◌++◌ p s)
HasNoSlash-append String.[] s h k = rw (append.nil s) k
HasNoSlash-append (String.◌∷◌ c p) s (e, h) k =
    rw (append.cons c p s) (e, HasNoSlash-append p s h k)

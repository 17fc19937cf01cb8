-- ===== src/Base/Text.antt =====
-- What the code uses of JavaScript's strings: templates, decimal numbers, `trim`, `toUpperCase`,
-- `startsWith` and `split`. A text that may be missing is "" where the code tests only truth.
use Prim.Native.Char.{Char, code}
use Prim.Native.Nat.{ℕ, zero, suc, ◌/◌, ◌%◌}
use Prim.Native.String
use Prim.Native.String.{String, [], ◌∷◌}
use mathlib.Core.Bool.{Bool, true, false, ◌&&◌, ◌||◌}
use mathlib.Core.List.{List}
use mathlib.Core.Option.{Option, none, some}
use text.Mathlib.Text.{◌==◌}
use restic_golang.Base.Tests.{ltb, leb, eqb, if◌then◌else◌}

-- A template literal: its parts, joined.
abbrev pub concat : List String → String
concat List.[] = ""
concat (List.◌∷◌ s parts) = String.◌++◌ s (concat parts)

-- `parts.join(sep)`
abbrev pub join : String → List String → String
join sep List.[] = ""
join sep (List.◌∷◌ s List.[]) = s
join sep (List.◌∷◌ s (List.◌∷◌ t parts)) =
    concat (List.◌∷◌ s (List.◌∷◌ sep (List.◌∷◌ (join sep (List.◌∷◌ t parts)) List.[])))

-- `s || d`
abbrev pub or_text : String → String → String
or_text s d = if s == "" then d else s

-- `o?.s || ""`
abbrev pub text_of : Option String → String
text_of none = ""
text_of (some s) = s

-- `Boolean(s)`
abbrev pub truthy : String → Bool
truthy s = if s == "" then false else true

digit : ℕ → String
digit zero = "0"
digit (suc zero) = "1"
digit (suc (suc zero)) = "2"
digit (suc (suc (suc zero))) = "3"
digit (suc (suc (suc (suc zero)))) = "4"
digit (suc (suc (suc (suc (suc zero))))) = "5"
digit (suc (suc (suc (suc (suc (suc zero)))))) = "6"
digit (suc (suc (suc (suc (suc (suc (suc zero))))))) = "7"
digit (suc (suc (suc (suc (suc (suc (suc (suc zero)))))))) = "8"
digit _ = "9"

-- The digits of `n` in front of `rest`; `fuel` is at least the number of digits.
show_from : ℕ → ℕ → String → String
show_from zero n rest = rest
show_from (suc fuel) n rest =
    let s = String.◌++◌ (digit (n % 10)) rest in
    let more = show_from fuel (n / 10) s in if ltb n 10 then s else more

-- `String(n)` of a natural number below 10 ^ 25.
unfoldable pub show : ℕ → String
unfolding digit show_from
show n = show_from 25 n ""

-- White space and line ends, as `trim` reads them.
is_space : Char → Bool
is_space c =
    (leb 9 (code c) && leb (code c) 13)
    || eqb (code c) 32
    || eqb (code c) 160
    || eqb (code c) 0x1680
    || (leb 0x2000 (code c) && leb (code c) 0x200a)
    || eqb (code c) 0x2028
    || eqb (code c) 0x2029
    || eqb (code c) 0x202f
    || eqb (code c) 0x205f
    || eqb (code c) 0x3000
    || eqb (code c) 0xfeff

trim_start : String → String
trim_start [] = []
trim_start (c ∷ s) = if is_space c then trim_start s else c ∷ s

blank : String → Bool
blank [] = true
blank (_ ∷ _) = false

trim_end : String → String
trim_end [] = []
trim_end (c ∷ s) = let r = trim_end s in if is_space c && blank r then [] else c ∷ r

unfoldable pub trim : String → String
unfolding is_space trim_start trim_end blank
trim s = trim_end (trim_start s)

-- The character of `upper` at the place of `c` in `lower`, or `c`.
swap_case : String → String → Char → Char
swap_case [] _ c = c
swap_case (_ ∷ _) [] c = c
swap_case (a ∷ lower) (b ∷ upper) c = if eqb (code a) (code c) then b else swap_case lower upper c

-- `toUpperCase` and `toLowerCase` of ASCII letters; other characters stay as they are.
upper_char : Char → Char
upper_char c = swap_case "abcdefghijklmnopqrstuvwxyz" "ABCDEFGHIJKLMNOPQRSTUVWXYZ" c

lower_char : Char → Char
lower_char c = swap_case "ABCDEFGHIJKLMNOPQRSTUVWXYZ" "abcdefghijklmnopqrstuvwxyz" c

-- `d.charAt(0).toUpperCase() + d.slice(1)`
unfoldable pub capitalize : String → String
unfolding upper_char swap_case
capitalize [] = []
capitalize (c ∷ s) = upper_char c ∷ s

unfoldable pub to_lower : String → String
unfolding lower_char swap_case
to_lower [] = []
to_lower (c ∷ s) = lower_char c ∷ to_lower s

-- The text behind the prefix `p`, if `s` starts with it.
unfoldable pub strip_prefix : String → String → Option String
strip_prefix [] s = some s
strip_prefix (a ∷ p) [] = none
strip_prefix (a ∷ p) (c ∷ s) = if eqb (code a) (code c) then strip_prefix p s else none

unfoldable pub starts_with : String → String → Bool
unfolding strip_prefix
starts_with s p = elim (strip_prefix p s) [ none ↦ false | some _ ↦ true ]

-- `s.includes(p)`
unfoldable pub includes : String → String → Bool
unfolding starts_with
includes [] p = starts_with [] p
includes (c ∷ s) p = starts_with (c ∷ s) p || includes s p

-- The numbers of the characters.
unfoldable pub codes : String → List ℕ
codes [] = List.[]
codes (c ∷ s) = List.◌∷◌ (code c) (codes s)

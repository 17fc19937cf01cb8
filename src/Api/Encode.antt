-- ===== src/Api/Encode.antt =====
-- `encodeURIComponent` and the query string of `URLSearchParams`: over the bytes of the text in
-- UTF-8, unreserved characters stand for themselves and others as `%XX`.
use Prim.Native.Char.{Char, code}
use Prim.Native.String
use restic_golang.Api.Json.{Value, is_given, value_text}
use restic_golang.Base.{
  ℕ, zero, suc, ◌+◌, ◌/◌, ◌%◌, String, Bool, ◌&&◌, ◌||◌, List, [], ◌∷◌, if◌then◌else◌, ◌==◌, eqb,
  leb, ltb, any, concat, codes,
}

abbrev pub hex_digits : List String
hex_digits =
    "0" ∷ "1" ∷ "2" ∷ "3" ∷ "4" ∷ "5" ∷ "6" ∷ "7" ∷ "8" ∷ "9" ∷ "A" ∷ "B" ∷ "C" ∷ "D" ∷ "E" ∷ "F"
    ∷ []

unfoldable pub text_at : List String → ℕ → String
text_at [] i = ""
text_at (s ∷ l) zero = s
text_at (s ∷ l) (suc i) = text_at l i

-- A byte as `%XX`.
unfoldable pub percent_byte : ℕ → String
unfolding text_at
percent_byte b = concat ("%" ∷ text_at hex_digits (b / 16 % 16) ∷ text_at hex_digits (b % 16) ∷ [])

unfoldable pub percent_bytes : List ℕ → String
unfolding percent_byte
percent_bytes [] = ""
percent_bytes (b ∷ bs) = String.◌++◌ (percent_byte b) (percent_bytes bs)

-- The UTF-8 bytes of a character.
unfoldable pub utf8 : ℕ → List ℕ
utf8 n =
    if ltb n 128
    then n ∷ []
    else if ltb n 2048
    then (192 + n / 64) ∷ (128 + n % 64) ∷ []
    else if ltb n 65536
    then (224 + n / 4096) ∷ (128 + n / 64 % 64) ∷ (128 + n % 64) ∷ []
    else (240 + n / 262144) ∷ (128 + n / 4096 % 64) ∷ (128 + n / 64 % 64) ∷ (128 + n % 64) ∷ []

unfoldable pub is_alphanumeric : ℕ → Bool
is_alphanumeric n =
    (leb b'a' n && leb n b'z') || (leb b'A' n && leb n b'Z') || (leb b'0' n && leb n b'9')

-- The characters that each of the two encodings leaves: A-Z a-z 0-9 and some marks.
unfoldable pub is_unreserved : ℕ → Bool
unfolding is_alphanumeric
is_unreserved n = is_alphanumeric n || any (eqb n) (codes "-_.!~*'()")

unfoldable pub is_form_safe : ℕ → Bool
unfolding is_alphanumeric
is_form_safe n = is_alphanumeric n || any (eqb n) (codes "*-._")

unfoldable pub encode_char : (ℕ → Bool) → Char → String
unfolding utf8 percent_bytes
encode_char plain c =
    if plain (code c) then String.◌∷◌ c String.[] else percent_bytes (utf8 (code c))

unfoldable pub encode_uri_component : String → String
unfolding encode_char is_unreserved codes
encode_uri_component String.[] = String.[]
encode_uri_component (String.◌∷◌ c s) =
    String.◌++◌ (encode_char is_unreserved c) (encode_uri_component s)

-- `URLSearchParams` writes a space as `+`.
unfoldable pub form_char : Char → String
unfolding encode_char is_form_safe codes
form_char c = if eqb (code c) 32 then "+" else encode_char is_form_safe c

unfoldable pub form_encode : String → String
unfolding form_char
form_encode String.[] = String.[]
form_encode (String.◌∷◌ c s) = String.◌++◌ (form_char c) (form_encode s)

unfoldable pub pair_text : String → Value → String
unfolding form_encode value_text
pair_text k v = concat (form_encode k ∷ "=" ∷ form_encode (value_text v) ∷ [])

-- The pairs that the loop `if (v !== undefined && v !== null && v !== "") q.set(k, v)` sets. The
-- keys of an object are distinct, so `set` appends.
unfoldable pub given_pairs : List (String × Value) → List String
unfolding is_given pair_text
given_pairs [] = []
given_pairs ((k, v) ∷ ps) = if is_given v then pair_text k v ∷ given_pairs ps else given_pairs ps

unfoldable pub join_pairs : List String → String
join_pairs [] = ""
join_pairs (p ∷ []) = p
join_pairs (p ∷ q ∷ ps) = concat (p ∷ "&" ∷ join_pairs (q ∷ ps) ∷ [])

-- `path + (qs ? "?" + qs : "")`
unfoldable pub with_query : String → String → String
with_query path qs = if qs == "" then path else concat (path ∷ "?" ∷ qs ∷ [])

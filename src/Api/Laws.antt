-- ===== src/Api/Laws.antt =====
-- About `encodeURIComponent` in the addresses of ui/src/lib/api.js.
use Prim.Native.Char.{Char, code}
use Prim.Native.String
use Prim.Native.String.append
use restic_golang.Api.Encode.{
  hex_digits, text_at, percent_byte, percent_bytes, utf8, is_unreserved, encode_char,
  encode_uri_component,
}
use restic_golang.Base.{
  ℕ, zero, suc, ◌%◌, ◌/◌, ◌≡◌, ◌≢◌, refl, inl, inr, String, true, ◌||◌, List, [], ◌∷◌, ◌++◌, arith,
  eqb, codes, All, All-append, Bool-cases,
}

-- A character that an encoded text may hold: an unreserved one, or `%`.
abbrev pub IsPlain : ℕ → Type 0
IsPlain n = (is_unreserved n || eqb n b'%') ≡ true

abbrev pub IsPlainText : String → Type 0
IsPlainText s = All IsPlain (codes s)

codes-append : (s t : String) → codes (String.◌++◌ s t) ≡ codes s ++ codes t
unfolding codes
codes-append String.[] t = rw (append.nil t)
codes-append (String.◌∷◌ c s) t = rw (append.cons c s t) (rw (codes-append s t))

IsPlainText-append : (s t : String) → IsPlainText s → IsPlainText t → IsPlainText (String.◌++◌ s t)
IsPlainText-append s t p q = rw (codes-append s t) (All-append IsPlain (codes s) (codes t) p q)

text_at-IsPlainText : (l : List String) (i : ℕ) → All IsPlainText l → IsPlainText (text_at l i)
unfolding text_at codes
text_at-IsPlainText [] i h = tt
text_at-IsPlainText (s ∷ l) zero (p, h) = p
text_at-IsPlainText (s ∷ l) (suc i) (p, h) = text_at-IsPlainText l i h

hex_digits-IsPlainText : All IsPlainText hex_digits
unfolding codes is_unreserved
hex_digits-IsPlainText = (
  (refl, tt),
  (
    (refl, tt),
    (
      (refl, tt),
      (
        (refl, tt),
        (
          (refl, tt),
          (
            (refl, tt),
            (
              (refl, tt),
              (
                (refl, tt),
                (
                  (refl, tt),
                  (
                    (refl, tt),
                    (
                      (refl, tt),
                      ((refl, tt), ((refl, tt), ((refl, tt), ((refl, tt), ((refl, tt), tt))))),
                    ),
                  ),
                ),
              ),
            ),
          ),
        ),
      ),
    ),
  ),
)

percent_byte-IsPlainText : (b : ℕ) → IsPlainText (percent_byte b)
unfolding percent_byte codes is_unreserved
percent_byte-IsPlainText b =
    let x = text_at-IsPlainText hex_digits (b / 16 % 16) hex_digits-IsPlainText in
    let y = text_at-IsPlainText hex_digits (b % 16) hex_digits-IsPlainText in
    IsPlainText-append "%" _ (refl, tt) (IsPlainText-append _ _ x (IsPlainText-append _ "" y tt))

percent_bytes-IsPlainText : (bs : List ℕ) → IsPlainText (percent_bytes bs)
unfolding percent_bytes codes
percent_bytes-IsPlainText [] = tt
percent_bytes-IsPlainText (b ∷ bs) =
    IsPlainText-append _ _ (percent_byte-IsPlainText b) (percent_bytes-IsPlainText bs)

encode_char-IsPlainText : (c : Char) → IsPlainText (encode_char is_unreserved c)
unfolding encode_char codes
encode_char-IsPlainText c = elim (Bool-cases (is_unreserved (code c))) [
  | inl h ↦ rw h (rw h refl, tt)
  | inr h ↦ rw h (percent_bytes-IsPlainText (utf8 (code c)))
]

encode_uri_component-IsPlainText : (s : String) → IsPlainText (encode_uri_component s)
unfolding encode_uri_component codes
encode_uri_component-IsPlainText String.[] = tt
encode_uri_component-IsPlainText (String.◌∷◌ c s) =
    IsPlainText-append _ _ (encode_char-IsPlainText c) (encode_uri_component-IsPlainText s)

-- A character that cannot end a path segment or a query value.
abbrev pub IsInert : ℕ → Type 0
IsInert n = (n ≢ b'/') × (n ≢ b'?') × (n ≢ b'#') × (n ≢ b'&') × (n ≢ b'=') × (n ≢ b'+') × (n ≢ b' ')

IsPlain-IsInert : (n : ℕ) → IsPlain n → IsInert n
unfolding is_unreserved codes
IsPlain-IsInert n h = ground arith

All-IsInert : (l : List ℕ) → All IsPlain l → All IsInert l
All-IsInert [] h = tt
All-IsInert (n ∷ l) (p, h) = (IsPlain-IsInert n p, All-IsInert l h)

-- Whatever text is put into an address by `encodeURIComponent`, a snapshot's id, a path or a
-- container's name: its encoding holds no `/`, `?`, `#`, `&`, `=`, `+` and no space.
pub encode_uri_component-IsInert : (s : String) → All IsInert (codes (encode_uri_component s))
encode_uri_component-IsInert s = All-IsInert _ (encode_uri_component-IsPlainText s)

-- ===== src/SpeedLimit.antt =====
-- The speed limits of a repository (ui/src/components/repo-settings.jsx, `SpeedLimitCard`): KiB/s as
-- the server keeps them, MB/s as they are typed. `number` is `Number(v.trim().replace(",", "."))`.
pub mod Laws
use restic_golang.Api.{Response, error_of}
use restic_golang.Base.{
  ℕ, ◌*◌, ◌/◌, ◌%◌, String, Bool, true, false, not, ◌&&◌, ◌||◌, List, [], ◌∷◌, if◌then◌else◌, ◌==◌,
  eqb, concat, show, trim,
}
use restic_golang.Format.{round}

-- What a text is as a number; `at` is a fraction that is not negative.
pub data Number : Type 0 where
  nan infinite negative : Number
  at : (num den : ℕ) → Number

-- `Math.round((kib / 1024) * 100)`
unfoldable pub hundredths : ℕ → ℕ
unfolding round
hundredths kib = round (kib * 100) 1024

-- `String(h / 100)`
unfoldable pub decimal : ℕ → String
decimal h =
    if eqb (h % 100) 0
    then show (h / 100)
    else if eqb (h % 10) 0
    then concat (show (h / 100) ∷ "." ∷ show (h / 10 % 10) ∷ [])
    else concat (show (h / 100) ∷ "." ∷ show (h / 10 % 10) ∷ show (h % 10) ∷ [])

unfoldable pub to_mb : ℕ → String
unfolding hundredths decimal
to_mb kib = if eqb kib 0 then "" else decimal (hundredths kib)

-- `Math.round(n * 1024)`
unfoldable pub kib_of : ℕ → ℕ → ℕ
unfolding round
kib_of num den = round (num * 1024) den

unfoldable pub kib_of_number : Number → ℕ
unfolding kib_of
kib_of_number (at num den) = kib_of num den
kib_of_number _ = 0

unfoldable pub to_kib : (String → Number) → String → ℕ
unfolding kib_of_number
to_kib number mb = if mb == "" then 0 else kib_of_number (number mb)

unfoldable pub fmt_limit : ℕ → String
unfolding to_mb
fmt_limit kib = if eqb kib 0 then "no limit" else concat (to_mb kib ∷ " MB/s" ∷ [])

-- `Number(...) >= 0`
unfoldable pub is_amount : Number → Bool
is_amount nan = false
is_amount negative = false
is_amount _ = true

unfoldable pub is_bad : (String → Number) → String → Bool
unfolding is_amount
is_bad number v = not (trim v == "") && not (is_amount (number v))

pub record Card : Type 0 where
  pub upload : String
  pub download : String
  pub busy : Bool
  pub error : String

pub data Effect : Type 0 where
  set_speed_limit : (upload download : ℕ) → Effect
  toast_success : String → Effect
  on_saved : Effect

-- The effect on `[repo]`.
unfoldable pub on_repo : (upload download : ℕ) → Card → Card
unfolding to_mb
on_repo upload download c = record c {
  upload = to_mb upload;
  download = to_mb download;
  error = "";
}

-- `save` up to its `await`, and behind it.
unfoldable pub save : (String → Number) → Card → Card × List Effect
unfolding is_bad to_kib
save number c =
    if is_bad number c.upload || is_bad number c.download
    then (record c { error = "Enter a number of MB/s, or leave the field empty for no limit." }, [])
    else (
      record c { busy = true; error = "" },
      set_speed_limit (to_kib number c.upload) (to_kib number c.download) ∷ [],
    )

unfoldable pub saved : (upload download : ℕ) → Response → Card → Card × List Effect
unfolding fmt_limit
saved upload download res c =
    if res.ok
    then (
      record c { busy = false },
      toast_success (
            concat ("Upload: " ∷ fmt_limit upload ∷ ". Download: " ∷ fmt_limit download ∷ "." ∷ []))
          ∷ on_saved
          ∷ [],
    )
    else (record c { busy = false; error = error_of res "Could not save the speed limit." }, [])

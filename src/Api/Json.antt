-- ===== src/Api/Json.antt =====
-- The JavaScript values that requests carry. A field whose value is `undefined` is not sent.
use restic_golang.Base.{ℕ, String, Bool, List, [], ◌∷◌, show, if◌then◌else◌, ◌==◌, true, false}

mutual
  pub data Value : Type 0 where
    undefined null : Value
    bool : Bool → Value
    num : ℕ → Value
    str : String → Value
    arr : Items → Value
    obj : Fields → Value

  pub data Items : Type 0 where
    nil : Items
    item : Value → Items → Items

  pub data Fields : Type 0 where
    end : Fields
    field : String → Value → Fields → Fields

abbrev pub strings : List String → Items
strings [] = nil
strings (s ∷ l) = item (str s) (strings l)

abbrev pub nums : List ℕ → Items
nums [] = nil
nums (n ∷ l) = item (num n) (nums l)

-- `v !== undefined && v !== null && v !== ""`
unfoldable pub is_given : Value → Bool
is_given undefined = false
is_given null = false
is_given (str s) = if s == "" then false else true
is_given _ = true

-- `String(v)` of the values that a query holds.
unfoldable pub value_text : Value → String
value_text (num n) = show n
value_text (str s) = s
value_text (bool b) = if b then "true" else "false"
value_text _ = ""

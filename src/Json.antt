-- ===== src/Json.antt =====
-- JSON values as `JSON.parse` and `response.json()` return them. A text is a list of code units;
-- a number is one that is not negative and whole, which is all that the modelled code reads.
use teleyes.Common.{ℕ, Bool, Option, none, some, if◌then◌else◌}
use teleyes.Text.{Text, text_eq}

mutual
  pub data Json : Type 0 where
    null : Json
    boolean : Bool → Json
    number : ℕ → Json
    string : Text → Json
    array : Items → Json
    object : Fields → Json

  pub data Items : Type 0 where
    nil : Items
    cons : Json → Items → Items

  pub data Fields : Type 0 where
    end : Fields
    field : Text → Json → Fields → Fields

-- `record[key]`; `none` is `undefined`. Each key stands once.
unfoldable pub get : Text → Fields → Option Json
get key end = none
get key (field k v rest) = if text_eq k key then some v else get key rest

abbrev pub as_string : Option Json → Option Text
as_string (some (string text)) = some text
as_string _ = none

abbrev pub as_number : Option Json → Option ℕ
as_number (some (number n)) = some n
as_number _ = none

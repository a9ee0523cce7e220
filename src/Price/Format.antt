-- ===== src/Price/Format.antt =====
-- The texts with which the pages fill a price field, each from a price in cents:
-- apps/web/src/components/ProductPanel.tsx and apps/web/src/pages/RegrasPage.tsx.
use teleyes.Common.{
  ℕ, suc, zero, ◌+◌, ◌/◌, ◌%◌, [], ◌∷◌, ◌++◌, Option, none, some, ltb, ◌==◌, if◌then◌else◌,
}
use teleyes.Text.{Text}

-- The last decimal digit of a number.
abbrev pub digit : ℕ → ℕ
digit n = n % 10 + b'0'

-- The digits of a number below 1000, without zeros in front.
abbrev pub small_digits : ℕ → Text
small_digits n =
    if ltb n 10
    then digit n ∷ []
    else if ltb n 100
    then digit (n / 10) ∷ digit n ∷ []
    else digit (n / 100) ∷ digit (n / 10) ∷ digit n ∷ []

abbrev pub three_digits : ℕ → Text
three_digits n = digit (n / 100) ∷ digit (n / 10) ∷ digit n ∷ []

-- A number with a separator between its groups of three digits, for at most `rounds` groups behind
-- the first.
unfoldable pub grouped : Text → ℕ → ℕ → Text
grouped dot zero n = small_digits n
grouped dot (suc rounds) n =
    let high = grouped dot rounds (n / 1000) ++ (dot ++ three_digits (n % 1000)) in
    if ltb n 1000 then small_digits n else high

-- `toLocaleString('pt-BR')` and `String` of a number of reais below 1000 ^ 6.
unfoldable pub to_locale_string : ℕ → Text
to_locale_string n = grouped (b'.' ∷ []) 5 n

unfoldable pub to_string : ℕ → Text
to_string n = grouped [] 5 n

-- `String(cents % 100).padStart(2, '0')`
abbrev pub two_digits : ℕ → Text
two_digits cents = digit (cents / 10) ∷ digit cents ∷ []

unfoldable pub format_price_input : Option ℕ → Text
format_price_input none = []
format_price_input (some cents) = to_locale_string (cents / 100) ++ b',' ∷ two_digits cents

unfoldable pub format_price_for_api : ℕ → Text
format_price_for_api cents = to_string (cents / 100) ++ b',' ∷ two_digits cents

-- The decimals that `String(cents / 100)` shows: none, one or two.
abbrev pub short_decimals : ℕ → Text
short_decimals cents =
    if cents % 100 == 0
    then []
    else if cents % 10 == 0
    then b'.' ∷ digit (cents / 10) ∷ []
    else b'.' ∷ two_digits cents

-- For prices below 10 ^ 15 cents, where the shortest text of the double is that of the quotient.
unfoldable pub price_to_input : Option ℕ → Text
price_to_input none = []
price_to_input (some cents) = to_string (cents / 100) ++ short_decimals cents

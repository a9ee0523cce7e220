-- ===== src/Price/RoundTrip.antt =====
-- The texts that fill a price field are read back as the same price.
use teleyes.Common.{
  ℕ, ◌*◌, ◌/◌, ◌%◌, ◌^◌, ◌≤◌, ◌<◌, ◌≡◌, refl, ◌∙◌, ◌⊎◌, [], ◌∷◌, ◌++◌, true, none, some, Option,
  all, arith, Bool-cases, inl, inr, ◌==◌,
}
use mathlib.Core.List.{append-nil}
use native.Mathlib.Decide.{dec_lt}
use teleyes.Text.{Text, is_digit, trim, trim_start, trim_end}
use teleyes.Text.Laws.{is_space-digit, is_solid, trim-solid, all_mono}
use teleyes.Price.Input.{
  success, cents_of, parse_optional_price_input, max_safe, pad_end, amount_to_cents, is_cents,
  is_thousands, without_dots, parse_amount, parse_price_input,
}
use teleyes.Price.Format.{
  digit, short_decimals, price_to_input, two_digits, grouped, to_locale_string, to_string,
  format_price_input, format_price_for_api,
}
use teleyes.Price.Digits.{value, value-two_digits, digits_from-value}
use teleyes.Price.Shape.{
  all-append, digit_first, keep-all, grouped-is_thousands, grouped-low, grouped-all, value-grouped,
  small_digits-all,
}
use teleyes.Price.Patterns.{
  parse_price_input-solid, digit_first-append, digit_first-grouped, no_comma, no_comma-digit,
  solid-digit, dot_solid, comma_two_digits-solid, parse_amount-comma, parse_amount-dot,
  parse_amount-plain,
}

-- The printed whole part, with or without dots, followed by a comma and two decimals.
parse-printed :
    (dot : Text) (cents : ℕ)
    → (is_thousands (grouped dot 5 (cents / 100)) ≡ true)
      ⊎ (all is_digit (grouped dot 5 (cents / 100)) ≡ true)
    → without_dots dot ≡ []
    → all no_comma dot ≡ true
    → all is_solid dot ≡ true
    → 0 < cents
    → cents ≤ max_safe
    → parse_price_input (grouped dot 5 (cents / 100) ++ b',' ∷ two_digits cents) ≡ success cents
parse-printed dot cents shape d c s low high =
    let xs = grouped dot 5 (cents / 100) in
    let first = digit_first-grouped dot 5 (cents / 100) in
    let solid = grouped-all is_solid dot solid-digit s 5 (cents / 100) in
    let comma_solid : all is_solid (b',' ∷ two_digits cents) ≡ true =
      comma_two_digits-solid cents in
    let free = grouped-all no_comma dot no_comma-digit c 5 (cents / 100) in
    parse_price_input-solid (xs ++ b',' ∷ two_digits cents)
      (all-append is_solid xs (b',' ∷ two_digits cents) solid comma_solid)
      (digit_first-append xs (b',' ∷ two_digits cents) first)
    ∙ ground (
      arith,
      parse_amount-comma xs (cents / 100) cents shape first free
          (value-grouped dot 5 (cents / 100) d (omega arith)) (omega arith),
    )

-- Every positive price that is a safe integer of cents is read back as the same price from the
-- text that the product panel writes into its field.
pub parse-format_price_input :
    (cents : ℕ)
    → 0 < cents
    → cents ≤ max_safe
    → parse_price_input (format_price_input (some cents)) ≡ success cents
unfolding format_price_input to_locale_string no_comma
parse-format_price_input cents low high =
    parse-printed (b'.' ∷ []) cents (dotted (dec_lt (cents / 100) 1000)) refl refl dot_solid low
      high
  where
    dotted :
        Dec (cents / 100 < 1000)
        → (is_thousands (grouped (b'.' ∷ []) 5 (cents / 100)) ≡ true)
          ⊎ (all is_digit (grouped (b'.' ∷ []) 5 (cents / 100)) ≡ true)
    dotted (yes h) = inr (rw (grouped-low (b'.' ∷ []) 5 _ h) (small_digits-all (cents / 100)))
    dotted (no h) = inl (grouped-is_thousands 4 (cents / 100) (omega arith))

-- So is the price that the panel sends to the server.
pub parse-format_price_for_api :
    (cents : ℕ)
    → 0 < cents
    → cents ≤ max_safe
    → parse_price_input (format_price_for_api cents) ≡ success cents
unfolding format_price_for_api to_string
parse-format_price_for_api cents low high =
    parse-printed [] cents (inr (grouped-all is_digit [] (λ c h. h) refl 5 (cents / 100))) refl refl
      refl low high

value-zeros : value 0 (pad_end []) ≡ 0
unfolding value
value-zeros = refl

value-ten : (n : ℕ) → value 0 (pad_end (digit n ∷ [])) ≡ n % 10 * 10
unfolding value
value-ten n = omega arith

short_decimals-solid : (cents : ℕ) → all is_solid (short_decimals cents) ≡ true
short_decimals-solid cents =
    ground (arith, dot_solid, is_space-digit (digit (cents / 10)), is_space-digit (digit cents))

-- The amount that is read from a whole part and the decimals that are shown.
short_amount :
    (xs ds : Text) (cents : ℕ)
    → value 0 xs ≡ cents / 100
    → value 0 (pad_end ds) ≡ cents % 100
    → cents ≤ max_safe
    → amount_to_cents xs ds ≡ some cents
unfolding amount_to_cents
short_amount xs ds cents h k m =
    ground (arith, digits_from-value 0 xs, digits_from-value 0 (pad_end ds))

cents_of-blank : cents_of (parse_optional_price_input []) ≡ none
unfolding parse_optional_price_input trim trim_start trim_end
cents_of-blank = refl

-- The three forms of `String(cents / 100)`.
module _ (xs : Text) (cents : ℕ) (t : all is_digit xs ≡ true) (first : digit_first xs ≡ true)
    (v : value 0 xs ≡ cents / 100) (m : cents ≤ max_safe) where
  decimals_free : (ds : Text) → all is_digit ds ≡ true → all no_comma (xs ++ b'.' ∷ ds) ≡ true
  unfolding no_comma
  decimals_free ds h =
      all-append no_comma xs (b'.' ∷ ds) (all_mono is_digit no_comma xs no_comma-digit t)
        (all_mono is_digit no_comma ds no_comma-digit h)

  parse_amount-decimals :
      (ds : Text)
      → is_cents ds ≡ true
      → all is_digit ds ≡ true
      → value 0 (pad_end ds) ≡ cents % 100
      → parse_amount (xs ++ b'.' ∷ ds) ≡ some (some cents)
  parse_amount-decimals ds c d k =
      parse_amount-dot xs ds cents t first c (decimals_free ds d) (short_amount xs ds cents v k m)

  parse_amount-short : parse_amount (xs ++ short_decimals cents) ≡ some (some cents)
  parse_amount-short = elim (Bool-cases (cents % 100 == 0)) [
    | inl round ↦
        rw (round, append-nil)
          (parse_amount-plain xs cents t first
            (short_amount xs [] cents v (value-zeros ∙ ground arith) m))
    | inr odd ↦ elim (Bool-cases (cents % 10 == 0)) [
      | inl ten ↦
          rw (odd, ten)
            (parse_amount-decimals (digit (cents / 10) ∷ []) (ground arith) (ground arith)
              (value-ten (cents / 10) ∙ ground arith))
      | inr one ↦
          rw (odd, one)
            (parse_amount-decimals (two_digits cents) (ground arith) (ground arith)
              (value-two_digits 0 cents ∙ omega arith))
    ]
  ]

parse_optional-solid :
    (text : Text)
    → all is_solid text ≡ true
    → digit_first text ≡ true
    → parse_optional_price_input text ≡ some (parse_price_input text)
unfolding parse_optional_price_input
parse_optional-solid [] h k = cc
parse_optional-solid (c ∷ text) h k = rw (trim-solid (c ∷ text) h)

-- The prices that the forms show: positive, and small enough for `price_to_input`.
abbrev pub IsShown : Option ℕ → Type 0
IsShown none = Unit
IsShown (some cents) = (0 < cents) × (cents ≤ 10 ^ 15)

-- A price that the rule form shows is read back as the same price, and no price as no price.
pub parse-price_to_input :
    (price : Option ℕ)
    → IsShown price
    → cents_of (parse_optional_price_input (price_to_input price)) ≡ price
unfolding price_to_input to_string
parse-price_to_input none h = cents_of-blank
parse-price_to_input (some cents) (low, high) =
    let xs = grouped [] 5 (cents / 100) in
    let t = grouped-all is_digit [] (λ c d. d) refl 5 (cents / 100) in
    let first = digit_first-grouped [] 5 (cents / 100) in
    let text = xs ++ short_decimals cents in
    let solid =
      all-append is_solid xs (short_decimals cents) (all_mono is_digit is_solid xs solid-digit t)
        (short_decimals-solid cents) in
    let begins = digit_first-append xs (short_decimals cents) first in
    let whole : value 0 xs ≡ cents / 100 =
      rw (keep-all xs t) at (value-grouped [] 5 (cents / 100) refl (omega arith)) in
    let read = parse_amount-short xs cents t first whole (omega arith) in
    let shown = parse_price_input-solid text solid begins in
    ground (arith, parse_optional-solid text solid begins, shown, read)

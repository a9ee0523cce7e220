-- ===== src/Price/Patterns.antt =====
-- Which pattern of the parser a printed price fits, and what it reads there.
use teleyes.Common.{
  ℕ, suc, zero, ◌+◌, ◌*◌, ◌/◌, ◌%◌, ◌≤◌, ◌≡◌, refl, ◌⊎◌, [], ◌∷◌, ◌++◌, true, false, ltb, none,
  some, if◌then◌else◌, all, arith, Bool-cases, inl, inr, Bool, ◌==◌, not,
}
use teleyes.Text.{Text, is_digit, is_space}
use teleyes.Text.Laws.{
  is_space-digit, is_solid, trim-solid, split_at-append, split_at-none, all_mono,
}
use teleyes.Price.Input.{
  max_safe, amount_to_cents, is_plain, is_cents, is_thousands, some_groups, match_decimal,
  without_dots, parse_amount, check_cents, parse_price_input,
}
use teleyes.Price.Format.{digit, small_digits, two_digits, grouped}
use teleyes.Price.Digits.{value, value-two_digits, digits_from-value}
use teleyes.Price.Shape.{digit_first, keep-all, is_thousands-digits, is_thousands-none}

-- Text that begins with a digit and has no white space goes to the patterns as it is.
pub parse_price_input-solid :
    (text : Text)
    → all is_solid text ≡ true
    → digit_first text ≡ true
    → parse_price_input text ≡ check_cents (parse_amount text)
unfolding parse_price_input
parse_price_input-solid [] h k = cc
parse_price_input-solid (c ∷ []) h k = rw (trim-solid (c ∷ []) h)
parse_price_input-solid (c ∷ d ∷ text) h k = rw (trim-solid (c ∷ d ∷ text) h) (ground arith)

pub digit_first-append : (xs ys : Text) → digit_first xs ≡ true → digit_first (xs ++ ys) ≡ true
digit_first-append [] ys h = cc
digit_first-append (x ∷ xs) ys h = h

pub digit_first-small : (n : ℕ) → digit_first (small_digits n) ≡ true
digit_first-small n = ground arith

pub digit_first-grouped : (dot : Text) (rounds n : ℕ) → digit_first (grouped dot rounds n) ≡ true
unfolding grouped
digit_first-grouped dot zero n = digit_first-small n
digit_first-grouped dot (suc rounds) n = elim (Bool-cases (ltb n 1000)) [
  | inl low ↦ rw low (digit_first-small n)
  | inr high ↦ rw high (
      digit_first-append (grouped dot rounds (n / 1000)) _
        (digit_first-grouped dot rounds (n / 1000)))
]

pub amount_to_cents-value :
    (reais : Text) (n cents : ℕ)
    → value 0 reais ≡ n
    → n * 100 + cents % 100 ≤ max_safe
    → amount_to_cents reais (two_digits cents) ≡ some (n * 100 + cents % 100)
unfolding amount_to_cents
amount_to_cents-value reais n cents h k = ground (
  arith,
  value-two_digits 0 cents,
  digits_from-value 0 reais,
  digits_from-value 0 (two_digits cents),
)

unfoldable pub no_comma : ℕ → Bool
no_comma c = not (c == b',')

pub no_comma-digit : (c : ℕ) → is_digit c ≡ true → no_comma c ≡ true
unfolding no_comma
no_comma-digit c h = ground arith

pub solid-digit : (c : ℕ) → is_digit c ≡ true → is_solid c ≡ true
solid-digit c h = ground (arith, is_space-digit c h)

pub two_digits-cents : (cents : ℕ) → is_cents (two_digits cents) ≡ true
two_digits-cents cents = ground arith

pub comma_solid : is_solid b',' ≡ true
unfolding is_space
comma_solid = refl

pub dot_solid : all is_solid (b'.' ∷ []) ≡ true
unfolding is_space
dot_solid = refl

-- A decimal comma behind a thousands number or behind plain digits.
pub match_comma :
    (left : Text → Bool) (xs : Text) (cents : ℕ)
    → all no_comma xs ≡ true
    → match_decimal left b',' (xs ++ b',' ∷ two_digits cents)
      ≡ (if left xs then some (xs, two_digits cents) else none)
unfolding match_decimal no_comma
match_comma left xs cents h =
    ground (arith, split_at-append b',' xs (two_digits cents) h, two_digits-cents cents)

pub comma_two_digits-solid : (cents : ℕ) → all is_solid (b',' ∷ two_digits cents) ≡ true
comma_two_digits-solid cents =
    ground (arith, comma_solid, is_space-digit (digit (cents / 10)), is_space-digit (digit cents))

pub match_none :
    (left : Text → Bool) (sep : ℕ) (text : Text)
    → all (λ c. not (c == sep)) text ≡ true
    → match_decimal left sep text ≡ none
unfolding match_decimal
match_none left sep text h = ground (arith, split_at-none sep text h)

pub is_plain-digits :
    (xs : Text) → digit_first xs ≡ true → all is_digit xs ≡ true → is_plain xs ≡ true
is_plain-digits [] h k = cc
is_plain-digits (x ∷ xs) h k = k

pub parse_amount-comma :
    (xs : Text) (n cents : ℕ)
    → (is_thousands xs ≡ true) ⊎ (all is_digit xs ≡ true)
    → digit_first xs ≡ true
    → all no_comma xs ≡ true
    → value 0 (without_dots xs) ≡ n
    → n * 100 + cents % 100 ≤ max_safe
    → parse_amount (xs ++ b',' ∷ two_digits cents) ≡ some (some (n * 100 + cents % 100))
unfolding parse_amount
parse_amount-comma xs n cents (inl t) first free v h = ground (
  arith,
  match_comma is_thousands xs cents free,
  amount_to_cents-value (without_dots xs) n cents v h,
)
parse_amount-comma xs n cents (inr t) first free v h = ground (
  arith,
  match_comma is_thousands xs cents free,
  match_comma is_plain xs cents free,
  is_thousands-none xs t,
  is_thousands-digits xs (b',' ∷ two_digits cents) t refl refl,
  is_plain-digits xs first t,
  keep-all xs t,
  amount_to_cents-value xs n cents,
)

short_decimals-some_groups : (ds : Text) → is_cents ds ≡ true → some_groups (b'.' ∷ ds) ≡ false
short_decimals-some_groups [] h = cc
short_decimals-some_groups (d ∷ []) h = refl
short_decimals-some_groups (d ∷ e ∷ []) h = refl
short_decimals-some_groups (d ∷ e ∷ f ∷ ds) h = ground arith

pub no_dot-digit : (c : ℕ) → is_digit c ≡ true → not (c == b'.') ≡ true
no_dot-digit c h = ground arith

match_dot :
    (xs ds : Text)
    → is_cents ds ≡ true
    → all is_digit xs ≡ true
    → digit_first xs ≡ true
    → match_decimal is_plain b'.' (xs ++ b'.' ∷ ds) ≡ some (xs, ds)
unfolding match_decimal
match_dot xs ds c t first = ground (
  arith,
  split_at-append b'.' xs ds (all_mono is_digit _ xs no_dot-digit t),
  is_plain-digits xs first t,
)

-- A decimal dot behind plain digits.
pub parse_amount-dot :
    (xs ds : Text) (amount : ℕ)
    → all is_digit xs ≡ true
    → digit_first xs ≡ true
    → is_cents ds ≡ true
    → all no_comma (xs ++ b'.' ∷ ds) ≡ true
    → amount_to_cents xs ds ≡ some amount
    → parse_amount (xs ++ b'.' ∷ ds) ≡ some (some amount)
unfolding parse_amount no_comma
parse_amount-dot xs ds amount t first c free a = ground (
  arith,
  match_none is_thousands b',' (xs ++ b'.' ∷ ds) free,
  match_none is_plain b',' (xs ++ b'.' ∷ ds) free,
  is_thousands-digits xs (b'.' ∷ ds) t refl (short_decimals-some_groups ds c),
  match_dot xs ds c t first,
)

-- Plain digits.
pub parse_amount-plain :
    (xs : Text) (amount : ℕ)
    → all is_digit xs ≡ true
    → digit_first xs ≡ true
    → amount_to_cents xs [] ≡ some amount
    → parse_amount xs ≡ some (some amount)
unfolding parse_amount no_comma
parse_amount-plain xs amount t first a = ground (
  arith,
  match_none is_thousands b',' xs (all_mono is_digit no_comma xs no_comma-digit t),
  match_none is_plain b',' xs (all_mono is_digit no_comma xs no_comma-digit t),
  match_none is_plain b'.' xs (all_mono is_digit _ xs no_dot-digit t),
  is_thousands-none xs t,
  is_plain-digits xs first t,
)

-- ===== src/Setup/Decimal.antt =====
-- `String` of a natural number, for the labels of the wizard.
use teleyes.Common.{
  ℕ, zero, suc, ◌+◌, ◌/◌, ◌%◌, ◌<◌, ◌≡◌, refl, true, [], ◌∷◌, ◌++◌, ltb, if◌then◌else◌, all, arith,
}
use teleyes.Text.{Text, is_digit}
use teleyes.Price.Digits.{value, value-append}

-- The digits of a number, by at most `rounds` divisions.
unfoldable pub digits_within : ℕ → ℕ → Text
digits_within zero n = []
digits_within (suc rounds) n =
    let high = digits_within rounds (n / 10) ++ (n % 10 + b'0') ∷ [] in
    if ltb n 10 then (n + b'0') ∷ [] else high

-- A number has fewer digits than its value plus two.
unfoldable pub decimal : ℕ → Text
unfolding digits_within
decimal n = digits_within (suc n) n

value-digits_within : (rounds n : ℕ) → n < rounds → value 0 (digits_within rounds n) ≡ n
unfolding digits_within value
value-digits_within zero n h = elim h [ ]
value-digits_within (suc rounds) n h = ground (
  arith,
  value-append 0 (digits_within rounds (n / 10)) ((n % 10 + b'0') ∷ []),
  value-digits_within rounds (n / 10),
)

pub value-decimal : (n : ℕ) → value 0 (decimal n) ≡ n
unfolding decimal
value-decimal n = value-digits_within (suc n) n (omega arith)

all-append_digit :
    (t : Text) (d : ℕ) → all is_digit t ≡ true → d < 10 → all is_digit (t ++ (d + b'0') ∷ []) ≡ true
all-append_digit [] d h k = ground arith
all-append_digit (c ∷ t) d h k = ground (arith, all-append_digit t d)

all-digits_within : (rounds n : ℕ) → all is_digit (digits_within rounds n) ≡ true
unfolding digits_within
all-digits_within zero n = refl
all-digits_within (suc rounds) n = ground (
  arith,
  all-append_digit (digits_within rounds (n / 10)) (n % 10),
  all-digits_within rounds (n / 10),
)

pub all-decimal : (n : ℕ) → all is_digit (decimal n) ≡ true
unfolding decimal
all-decimal n = all-digits_within (suc n) n

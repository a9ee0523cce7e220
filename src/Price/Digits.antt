-- ===== src/Price/Digits.antt =====
-- The number that a text of digits stands for, and that the digit loop computes it.
use teleyes.Common.{ℕ, ◌+◌, ◌-◌, ◌*◌, ◌/◌, ◌%◌, ◌≤◌, ◌<◌, ◌≡◌, refl, [], ◌∷◌, ◌++◌, some, arith}
use teleyes.Text.{Text}
use teleyes.Price.Input.{max_safe, digits_from}
use teleyes.Price.Format.{digit, small_digits, three_digits}

-- Positional notation.
unfoldable pub value : ℕ → Text → ℕ
value acc [] = acc
value acc (d ∷ ds) = value (acc * 10 + (d - b'0')) ds

pub value-append : (acc : ℕ) (xs ys : Text) → value acc (xs ++ ys) ≡ value (value acc xs) ys
unfolding value
value-append acc [] ys = refl
value-append acc (x ∷ xs) ys = value-append (acc * 10 + (x - b'0')) xs ys

le-value : (acc : ℕ) (ds : Text) → acc ≤ value acc ds
unfolding value
le-value acc [] = omega arith
le-value acc (d ∷ ds) = omega (arith, le-value (acc * 10 + (d - b'0')) ds)

pub digits_from-value :
    (acc : ℕ) (ds : Text) → value acc ds ≤ max_safe → digits_from acc ds ≡ some (value acc ds)
unfolding value digits_from
digits_from-value acc [] h = refl
digits_from-value acc (d ∷ ds) h =
    let next = acc * 10 + (d - b'0') in ground (arith, le-value next ds, digits_from-value next ds)

pub value-small_digits : (n : ℕ) → n < 1000 → value 0 (small_digits n) ≡ n
unfolding value
value-small_digits n h = ground arith

pub value-three_digits : (acc n : ℕ) → n < 1000 → value acc (three_digits n) ≡ acc * 1000 + n
unfolding value
value-three_digits acc n h = omega arith

pub value-two_digits : (acc n : ℕ) → value acc (digit (n / 10) ∷ digit n ∷ []) ≡ acc * 100 + n % 100
unfolding value
value-two_digits acc n = omega arith

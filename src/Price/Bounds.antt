-- ===== src/Price/Bounds.antt =====
-- What the parser accepts, and what it ignores.
use teleyes.Common.{
  ℕ, ◌≡◌, ◌<◌, ◌≤◌, refl, sym, ap, Bool-cases, inl, inr, ◌∙◌, Bool, true, false, ◌||◌, some, [],
  ◌∷◌, ◌++◌, ◌==◌, all, arith,
}
use teleyes.Text.{Text, is_space, trim, trim_start, trim_end, drop_if_last}
use teleyes.Text.Trim.{trim_end-trim_end}
use teleyes.Price.Input.{
  success, max_safe, amount_to_cents, parse_amount, strip_currency, parse_stripped,
  parse_price_input,
}

amount_to_cents-le :
    (reais decimal : Text) (cents : ℕ)
    → amount_to_cents reais decimal ≡ some cents
    → cents ≤ max_safe
unfolding amount_to_cents
amount_to_cents-le reais decimal cents h = ground arith

parse_amount-le :
    (text : Text) (cents : ℕ) → parse_amount text ≡ some (some cents) → cents ≤ max_safe
unfolding parse_amount
parse_amount-le text cents h = grind (arith, amount_to_cents-le)

-- A price that is accepted is a positive safe integer of cents.
pub parse_price_input-bounds :
    (raw : Text) (cents : ℕ)
    → parse_price_input raw ≡ success cents
    → (0 < cents) × (cents ≤ max_safe)
unfolding parse_price_input
parse_price_input-bounds raw cents h = bounds (strip_currency (trim raw)) h
  where
    bounds : (text : Text) → parse_stripped text ≡ success cents → (0 < cents) × (cents ≤ max_safe)
    bounds [] e = cc
    bounds (c ∷ text) e = ground (arith, parse_amount-le (c ∷ text) cents)

-- White space around a text is not read.
trim_start-append :
    (blank text : Text) → all is_space blank ≡ true → trim_start (blank ++ text) ≡ trim_start text
unfolding trim_start
trim_start-append [] text h = refl
trim_start-append (c ∷ blank) text h = ground (arith, trim_start-append blank text)

is_space-currency : (r : ℕ) → (r == b'r' || r == b'R') ≡ true → is_space r ≡ false
unfolding is_space
is_space-currency r h = ground arith

is_space-dollar : is_space b'$' ≡ false
unfolding is_space
is_space-dollar = refl

trim_end-blank : (blank : Text) → all is_space blank ≡ true → trim_end blank ≡ []
unfolding trim_end
trim_end-blank [] h = refl
trim_end-blank (c ∷ blank) h = ground (arith, trim_end-blank blank)

trim_end-append :
    (text blank : Text) → all is_space blank ≡ true → trim_end (text ++ blank) ≡ trim_end text
unfolding trim_end
trim_end-append [] blank h = trim_end-blank blank h
trim_end-append (c ∷ text) blank h = ap (drop_if_last c) (trim_end-append text blank h)

trim_start-drop_blank :
    (c : ℕ) (rest : Text) → is_space c ≡ true → trim_start (drop_if_last c rest) ≡ trim_start rest
unfolding trim_start
trim_start-drop_blank c [] h = ground arith
trim_start-drop_blank c (d ∷ ds) h = ground arith

trim_start-drop_solid :
    (c : ℕ) (rest : Text)
    → is_space c ≡ false
    → trim_start (drop_if_last c rest) ≡ drop_if_last c rest
unfolding trim_start
trim_start-drop_solid c [] h = ground arith
trim_start-drop_solid c (d ∷ ds) h = ground arith

trim_start-trim_end : (text : Text) → trim_start (trim_end text) ≡ trim_end (trim_start text)
unfolding trim_start trim_end
trim_start-trim_end [] = refl
trim_start-trim_end (c ∷ cs) = elim (Bool-cases (is_space c)) [
  | inl blank ↦ trim_start-drop_blank c (trim_end cs) blank ∙ rw blank (trim_start-trim_end cs)
  | inr solid ↦ trim_start-drop_solid c (trim_end cs) solid ∙ rw solid
]

trim-append :
    (before text behind : Text)
    → all is_space before ≡ true
    → all is_space behind ≡ true
    → trim (before ++ (text ++ behind)) ≡ trim text
unfolding trim
trim-append before text behind h k =
    ap trim_end (trim_start-append before (text ++ behind) h)
    ∙ sym (trim_start-trim_end (text ++ behind))
    ∙ ap trim_start (trim_end-append text behind k)
    ∙ trim_start-trim_end text

abbrev pub is_currency : ℕ → Bool
is_currency r = r == b'r' || r == b'R'

drop_if_last-solid : (c : ℕ) (rest : Text) → is_space c ≡ false → drop_if_last c rest ≡ c ∷ rest
drop_if_last-solid c [] h = ground arith
drop_if_last-solid c (d ∷ ds) h = refl

trim-currency :
    (r : ℕ) (text : Text) → is_currency r ≡ true → trim (r ∷ b'$' ∷ text) ≡ r ∷ b'$' ∷ trim_end text
unfolding trim trim_start trim_end
trim-currency r text h =
    let solid : is_space r ≡ false = is_space-currency r h in
    rw solid (
      ap (drop_if_last r) (drop_if_last-solid b'$' (trim_end text) is_space-dollar)
      ∙ drop_if_last-solid r (b'$' ∷ trim_end text) solid)

trim-trim_end : (text : Text) → trim (trim_end text) ≡ trim text
unfolding trim
trim-trim_end text = ap trim_end (trim_start-trim_end text) ∙ trim_end-trim_end (trim_start text)

trim-before : (before text : Text) → all is_space before ≡ true → trim (before ++ text) ≡ trim text
unfolding trim
trim-before before text h = ap trim_end (trim_start-append before text h)

strip_currency-currency :
    (r : ℕ) (text : Text) → is_currency r ≡ true → strip_currency (r ∷ b'$' ∷ text) ≡ trim text
strip_currency-currency r text h = rw h

-- White space and one "R$" or "r$" around a text that has no such prefix of its own are not read.
pub parse_price_input_prefix :
    (before middle text behind : Text) (r : ℕ)
    → all is_space before ≡ true
    → all is_space middle ≡ true
    → all is_space behind ≡ true
    → is_currency r ≡ true
    → strip_currency (trim text) ≡ trim text
    → parse_price_input (before ++ (r ∷ b'$' ∷ (middle ++ (text ++ behind))))
      ≡ parse_price_input text
unfolding parse_price_input
parse_price_input_prefix before middle text behind r h k l c s =
    let rest = middle ++ (text ++ behind) in
    ap parse_stripped (
      ap strip_currency (trim-before before (r ∷ b'$' ∷ rest) h ∙ trim-currency r rest c)
      ∙ strip_currency-currency r (trim_end rest) c
      ∙ trim-trim_end rest
      ∙ trim-append middle text behind k l
      ∙ sym s)

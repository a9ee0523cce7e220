-- ===== src/Price/Input.antt =====
-- apps/web/src/utils/priceInput.ts: the parser of a typed pt-BR price. A text is a list of UTF-16
-- code units.
use teleyes.Common.{
  ℕ, ◌+◌, ◌-◌, ◌*◌, Bool, true, false, not, ◌&&◌, ◌||◌, Option, none, some, [], ◌∷◌, leb, ◌==◌,
  if◌then◌else◌, all, keep, length,
}
use teleyes.Text.{Text, trim, is_digit, split_at}

-- The four messages of the source: "Informe um preço.", INVALID_FORMAT_MESSAGE, "O preço informado
-- é muito alto." and "O preço deve ser maior que zero.".
pub data PriceError : Type 0 where
  missing invalid_format too_high not_positive : PriceError

pub data PriceInputResult : Type 0 where
  success : ℕ → PriceInputResult
  failure : PriceError → PriceInputResult

-- Number.MAX_SAFE_INTEGER
abbrev pub max_safe : ℕ
max_safe = 9_007_199_254_740_991

-- The loop of `digitsToInteger`.
unfoldable pub digits_from : ℕ → Text → Option ℕ
digits_from value [] = some value
digits_from value (digit ∷ digits) =
    let next = value * 10 + (digit - b'0') in
    let rest = digits_from next digits in if leb next max_safe then rest else none

unfoldable pub digits_to_integer : Text → Option ℕ
unfolding digits_from
digits_to_integer digits = digits_from 0 digits

-- `decimal.padEnd(2, '0') || '0'`
abbrev pub pad_end : Text → Text
pad_end [] = b'0' ∷ b'0' ∷ []
pad_end (d ∷ []) = d ∷ b'0' ∷ []
pad_end (d ∷ e ∷ ds) = d ∷ e ∷ ds

abbrev pub safe_cents : Option ℕ → Option ℕ → Option ℕ
safe_cents none fractional = none
safe_cents (some whole) none = none
safe_cents (some whole) (some fractional) =
    let cents = whole * 100 + fractional in if leb cents max_safe then some cents else none

unfoldable pub amount_to_cents : Text → Text → Option ℕ
unfolding digits_to_integer
amount_to_cents reais decimal =
    safe_cents (digits_to_integer reais) (digits_to_integer (pad_end decimal))

-- `/^\d+$/`
abbrev pub is_plain : Text → Bool
is_plain [] = false
is_plain (c ∷ cs) = is_digit c && all is_digit cs

-- `/^\d{1,2}$/`
abbrev pub is_cents : Text → Bool
is_cents text = is_plain text && leb (length text) 2

-- `(?:\.\d{3})*$`
abbrev pub groups : Text → Bool
groups [] = true
groups (dot ∷ a ∷ b ∷ c ∷ rest) =
    dot == b'.' && (is_digit a && (is_digit b && (is_digit c && groups rest)))
groups _ = false

abbrev pub some_groups : Text → Bool
some_groups [] = false
some_groups (c ∷ cs) = groups (c ∷ cs)

-- `/^\d{1,3}(?:\.\d{3})+$/`: the digits before the first dot are one, two or three.
unfoldable pub is_thousands : Text → Bool
is_thousands (a ∷ []) = false
is_thousands (a ∷ b ∷ []) = false
is_thousands (a ∷ b ∷ c ∷ []) = false
is_thousands (a ∷ b ∷ c ∷ d ∷ rest) =
    is_digit a
    && (some_groups (b ∷ c ∷ d ∷ rest)
        || (is_digit b && (some_groups (c ∷ d ∷ rest) || (is_digit c && some_groups (d ∷ rest)))))
is_thousands [] = false

-- A match of `^(left)separator(\d{1,2})$`. Neither part can hold the separator's first place.
unfoldable pub match_decimal : (Text → Bool) → ℕ → Text → Option (Text × Text)
match_decimal left separator text = elim (split_at separator text) [
  | none ↦ none
  | some (reais, decimal) ↦ if left reais && is_cents decimal then some (reais, decimal) else none
]

-- `text.replaceAll('.', '')`
abbrev pub without_dots : Text → Text
without_dots text = keep (λ c. not (c == b'.')) text

-- The chain of patterns; `none` where no pattern matches, `some none` for an amount too high.
unfoldable pub parse_amount : Text → Option (Option ℕ)
parse_amount text = elim (match_decimal is_thousands b',' text) [
  | some (reais, decimal) ↦ some (amount_to_cents (without_dots reais) decimal)
  | none ↦
      if is_thousands text
      then some (amount_to_cents (without_dots text) [])
      else elim (match_decimal is_plain b',' text) [
        | some (reais, decimal) ↦ some (amount_to_cents reais decimal)
        | none ↦ elim (match_decimal is_plain b'.' text) [
          | some (reais, decimal) ↦ some (amount_to_cents reais decimal)
          | none ↦ if is_plain text then some (amount_to_cents text []) else none
        ]
      ]
]

-- `text.slice(0, 2).toLowerCase() === 'r$'`; only `R` and `r` are lowered to `r`.
abbrev pub strip_currency : Text → Text
strip_currency (c ∷ d ∷ rest) =
    if (c == b'r' || c == b'R') && d == b'$' then trim rest else c ∷ d ∷ rest
strip_currency text = text

abbrev pub check_cents : Option (Option ℕ) → PriceInputResult
check_cents none = failure invalid_format
check_cents (some none) = failure too_high
check_cents (some (some cents)) = if leb cents 0 then failure not_positive else success cents

abbrev pub parse_stripped : Text → PriceInputResult
parse_stripped [] = failure missing
parse_stripped (c ∷ text) = check_cents (parse_amount (c ∷ text))

unfoldable pub parse_price_input : Text → PriceInputResult
parse_price_input raw = parse_stripped (strip_currency (trim raw))

-- `parseOptionalPriceInput`: `none` is `{ cents: null, error: null }`.
abbrev pub optional_price : Text → PriceInputResult → Option PriceInputResult
optional_price [] parsed = none
optional_price (c ∷ text) parsed = some parsed

unfoldable pub parse_optional_price_input : Text → Option PriceInputResult
parse_optional_price_input raw = optional_price (trim raw) (parse_price_input raw)

-- The field `cents` of a result.
abbrev pub cents_of : Option PriceInputResult → Option ℕ
cents_of none = none
cents_of (some (success cents)) = some cents
cents_of (some (failure e)) = none

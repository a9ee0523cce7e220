-- ===== src/Setup/Validation.antt =====
-- apps/web/src/setup/validation.ts: the checks of the wizard's fields.
use teleyes.Common.{
  ℕ, ◌-◌, ◌/◌, ◌%◌, ◌^◌, Bool, true, false, not, ◌&&◌, ◌||◌, Option, none, some, [], ◌∷◌, ◌++◌, ltb,
  leb, ◌==◌, if◌then◌else◌, all, keep, length,
}
use teleyes.Text.{Text, trim, is_digit, is_space, split_at}
use teleyes.Price.Digits.{value}
use teleyes.Price.Format.{two_digits}
use teleyes.Setup.Decimal.{decimal}

-- The messages of the five checks, in the order of the source.
pub data Problem : Type 0 where
  id_missing id_not_number id_invalid : Problem
  hash_missing hash_format : Problem
  token_missing token_format : Problem
  phone_missing phone_no_plus phone_incomplete : Problem
  code_missing code_format : Problem

abbrev pub is_hex : ℕ → Bool
is_hex c = is_digit c || (leb b'a' c && leb c b'f') || (leb b'A' c && leb c b'F')

-- `[A-Za-z0-9_-]`
abbrev pub is_token_unit : ℕ → Bool
is_token_unit c =
    is_digit c || (leb b'a' c && leb c b'z') || (leb b'A' c && leb c b'Z') || c == b'_' || c == b'-'

-- Between `low` and `high` units that all pass a test: `[…]{low,high}`.
abbrev pub is_run : (ℕ → Bool) → ℕ → ℕ → Text → Bool
is_run test low high text = leb low (length text) && leb (length text) high && all test text

-- API_HASH, `/^[0-9a-fA-F]{32}$/`
unfoldable pub is_api_hash : Text → Bool
is_api_hash text = is_run is_hex 32 32 text

-- BOT_TOKEN, `/^\d{5,16}:[A-Za-z0-9_-]{30,64}$/`: no unit of its two runs is a colon.
unfoldable pub is_bot_token : Text → Bool
is_bot_token text = elim (split_at b':' text) [
  | none ↦ false
  | some (before, after) ↦ is_run is_digit 5 16 before && is_run is_token_unit 30 64 after
]

-- E164, `/^\+[1-9]\d{6,14}$/`
unfoldable pub is_e164 : Text → Bool
is_e164 (plus ∷ first ∷ rest) =
    plus == b'+' && (leb b'1' first && leb first b'9') && is_run is_digit 6 14 rest
is_e164 _ = false

-- CODE, `/^\d{4,8}$/`
unfoldable pub is_code : Text → Bool
is_code text = is_run is_digit 4 8 text

abbrev pub max_api_id : ℕ
max_api_id = 2 ^ 31 - 1

abbrev pub is_empty : Text → Bool
is_empty [] = true
is_empty (c ∷ cs) = false

-- `Number(text)` is exact below 2 ^ 53, and what is rounded there exceeds the limit either way.
unfoldable pub validate_api_id : Text → Option Problem
validate_api_id raw =
    let text = trim raw in
    if is_empty text
    then some id_missing
    else if not (all is_digit text)
    then some id_not_number
    else if value 0 text == 0 || ltb max_api_id (value 0 text)
    then some id_invalid
    else none

unfoldable pub validate_api_hash : Text → Option Problem
unfolding is_api_hash
validate_api_hash raw =
    let text = trim raw in
    if is_empty text
    then some hash_missing
    else if not (is_api_hash text)
    then some hash_format
    else none

unfoldable pub validate_bot_token : Text → Option Problem
unfolding is_bot_token
validate_bot_token raw =
    let text = trim raw in
    if is_empty text
    then some token_missing
    else if not (is_bot_token text)
    then some token_format
    else none

-- `[\s().-]`
abbrev pub is_phone_separator : ℕ → Bool
is_phone_separator c = is_space c || c == b'(' || c == b')' || c == b'.' || c == b'-'

unfoldable pub normalize_phone : Text → Text
normalize_phone raw = keep (λ c. not (is_phone_separator c)) raw

abbrev pub has_plus : Text → Bool
has_plus [] = false
has_plus (c ∷ cs) = c == b'+'

unfoldable pub validate_phone : Text → Option Problem
unfolding normalize_phone is_e164
validate_phone raw =
    let text = normalize_phone raw in
    if is_empty text
    then some phone_missing
    else if not (has_plus text)
    then some phone_no_plus
    else if not (is_e164 text)
    then some phone_incomplete
    else none

-- `raw.replace(/\s/g, '')`
unfoldable pub strip_spaces : Text → Text
strip_spaces raw = keep (λ c. not (is_space c)) raw

unfoldable pub validate_login_code : Text → Option Problem
unfolding strip_spaces is_code
validate_login_code raw =
    let text = strip_spaces raw in
    if is_empty text
    then some code_missing
    else if not (is_code text)
    then some code_format
    else none

-- The seconds are whole and not negative: `useRetryLock` and `useCountdown` give no others.
unfoldable pub seconds_label : ℕ → Text
unfolding decimal
seconds_label seconds =
    let minutes = seconds / 60 in
    let rest = seconds % 60 in
    if ltb 0 minutes then decimal minutes ++ b':' ∷ two_digits rest else decimal rest ++ b's' ∷ []

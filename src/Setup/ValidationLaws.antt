-- ===== src/Setup/ValidationLaws.antt =====
-- What the checks of apps/web/src/setup/validation.ts accept, and that its labels can be read.
use teleyes.Common.{
  ℕ, ◌+◌, ◌*◌, ◌/◌, ◌%◌, ◌≤◌, ◌<◌, ◌≡◌, ◌↔◌, refl, ap, ◌∙◌, Bool, true, false, not, Option, none,
  some, [], ◌∷◌, ◌++◌, ltb, ◌==◌, all, keep, arith, Bool-cases, inl, inr,
}
use teleyes.Text.{Text, trim, is_digit, split_at}
use teleyes.Text.Laws.{
  is_solid, is_space-digit, trim-solid, all_mono, split_at-append, split_at-none,
}
use teleyes.Price.Digits.{value, value-two_digits}
use teleyes.Price.Format.{two_digits}
use teleyes.Setup.Decimal.{decimal, value-decimal, all-decimal}
use teleyes.Setup.Validation.{
  max_api_id, validate_api_id, is_phone_separator, normalize_phone, validate_phone, is_e164,
  is_code, strip_spaces, validate_login_code, seconds_label, is_empty,
}

solid-digit : (c : ℕ) → is_digit c ≡ true → is_solid c ≡ true
solid-digit c h = rw (is_space-digit c h)

trim-decimal : (n : ℕ) → trim (decimal n) ≡ decimal n
trim-decimal n = trim-solid _ (all_mono is_digit is_solid (decimal n) solid-digit (all-decimal n))

not_empty-of_value : (t : Text) → 0 < value 0 t → is_empty t ≡ false
unfolding value
not_empty-of_value [] h = absurd (omega arith)
not_empty-of_value (c ∷ cs) h = refl

-- A positive number is accepted as an api_id in its decimal form exactly up to 2 ^ 31 - 1, and the
-- form that is accepted reads as that number.
pub validate_api_id-decimal :
    (n : ℕ)
    → 0 < n
    → ((validate_api_id (decimal n) ≡ none) ↔ (n ≤ max_api_id)) × (value 0 (trim (decimal n)) ≡ n)
unfolding validate_api_id
validate_api_id-decimal n h = rw (trim-decimal n) (
    ground (
      arith,
      value-decimal n,
      all-decimal n,
      not_empty-of_value (decimal n) (rw (value-decimal n) h),
    ))

keep-keep : (p : ℕ → Bool) (t : Text) → keep p (keep p t) ≡ keep p t
keep-keep p [] = refl
keep-keep p (c ∷ t) = ground (arith, keep-keep p t)

-- The text of a phone that is sent is normalized: sending it through the check again changes neither
-- the text nor the answer.
pub normalize_phone_fixed :
    (raw : Text)
    → (normalize_phone (normalize_phone raw) ≡ normalize_phone raw)
      × (validate_phone (normalize_phone raw) ≡ validate_phone raw)
unfolding validate_phone
normalize_phone_fixed raw =
    let fixed = keep-keep (λ c. not (is_phone_separator c)) raw in (fixed, rw fixed)

pub validate_phone-e164 :
    (raw : Text) → validate_phone raw ≡ none → is_e164 (normalize_phone raw) ≡ true
unfolding validate_phone
validate_phone-e164 raw h = ground arith

pub validate_login_code-code :
    (raw : Text) → validate_login_code raw ≡ none → is_code (strip_spaces raw) ≡ true
unfolding validate_login_code
validate_login_code-code raw h = ground arith

-- A reader of the labels: minutes before a colon, or seconds before an "s".
abbrev drop_last : Text → Text
drop_last [] = []
drop_last (c ∷ []) = []
drop_last (c ∷ d ∷ ds) = c ∷ drop_last (d ∷ ds)

abbrev read_split : Option (Text × Text) → Text → ℕ
read_split none text = value 0 (drop_last text)
read_split (some (minutes, seconds)) text = value 0 minutes * 60 + value 0 seconds

read_label : Text → ℕ
read_label text = read_split (split_at b':' text) text

drop_last-append : (t : Text) (c : ℕ) → drop_last (t ++ c ∷ []) ≡ t
drop_last-append [] c = refl
drop_last-append (d ∷ []) c = refl
drop_last-append (d ∷ e ∷ t) c = ap (λ (r : Text). d ∷ r) (drop_last-append (e ∷ t) c)

no_colon-digit : (c : ℕ) → is_digit c ≡ true → not (c == b':') ≡ true
no_colon-digit c h = ground arith

all-snoc :
    (p : ℕ → Bool) (t : Text) (c : ℕ) → all p t ≡ true → p c ≡ true → all p (t ++ c ∷ []) ≡ true
all-snoc p [] c h k = ground arith
all-snoc p (d ∷ t) c h k = ground (arith, all-snoc p t c)

no_colon-decimal : (n : ℕ) → all (λ c. not (c == b':')) (decimal n) ≡ true
no_colon-decimal n = all_mono is_digit _ (decimal n) no_colon-digit (all-decimal n)

read_label-colon :
    (m s : Text)
    → all (λ c. not (c == b':')) m ≡ true
    → read_label (m ++ b':' ∷ s) ≡ value 0 m * 60 + value 0 s
unfolding read_label
read_label-colon m s h = rw (read_label, split_at-append b':' m s h)

read_label-seconds :
    (s : Text) → all (λ c. not (c == b':')) s ≡ true → read_label (s ++ b's' ∷ []) ≡ value 0 s
unfolding read_label
read_label-seconds s h =
    rw (read_label, split_at-none b':' (s ++ b's' ∷ []) (all-snoc _ s b's' h refl))
      (ap (value 0) (drop_last-append s b's'))

value-clock : (n : ℕ) → n < 60 → value 0 (two_digits n) ≡ n
value-clock n h = value-two_digits 0 n ∙ omega arith

-- The label of a wait says how long it is.
read_label-seconds_label : (seconds : ℕ) → read_label (seconds_label seconds) ≡ seconds
unfolding seconds_label
read_label-seconds_label seconds = elim (Bool-cases (ltb 0 (seconds / 60))) [
  | inl long ↦ rw long (
      read_label-colon (decimal (seconds / 60)) (two_digits (seconds % 60))
        (no_colon-decimal (seconds / 60))
      ∙ omega (arith, value-decimal (seconds / 60), value-clock (seconds % 60) (omega arith)))
  | inr short ↦ rw short (
      read_label-seconds (decimal (seconds % 60)) (no_colon-decimal (seconds % 60))
      ∙ value-decimal (seconds % 60)
      ∙ ground arith)
]

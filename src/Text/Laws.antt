-- ===== src/Text/Laws.antt =====
-- Laws of the text methods.
use teleyes.Common.{
  ℕ, ◌≡◌, ◌↔◌, refl, Bool, true, false, not, none, some, [], ◌∷◌, ◌++◌, ◌==◌, all, arith,
}
use teleyes.Text.{Text, is_digit, is_space, trim_start, trim_end, trim, split_at, text_eq}

pub is_space-digit : (c : ℕ) → is_digit c ≡ true → is_space c ≡ false
unfolding is_space
is_space-digit c h = ground arith

abbrev pub is_solid : ℕ → Bool
is_solid c = not (is_space c)

trim_end-solid : (text : Text) → all is_solid text ≡ true → trim_end text ≡ text
unfolding trim_end
trim_end-solid [] h = refl
trim_end-solid (c ∷ []) h = ground arith
trim_end-solid (c ∷ d ∷ text) h = rw (trim_end-solid (d ∷ text) (ground arith))

-- A text without white space is not trimmed.
pub trim-solid : (text : Text) → all is_solid text ≡ true → trim text ≡ text
unfolding trim trim_start
trim-solid [] h = refl
trim-solid (c ∷ text) h = ground (arith, trim_end-solid (c ∷ text) h)

-- The split stands at the first occurrence.
pub split_at-append :
    (sep : ℕ) (before after : Text)
    → all (λ c. not (c == sep)) before ≡ true
    → split_at sep (before ++ sep ∷ after) ≡ some (before, after)
unfolding split_at
split_at-append sep [] after h = ground arith
split_at-append sep (c ∷ before) after h = ground (arith, split_at-append sep before after)

pub split_at-none :
    (sep : ℕ) (text : Text) → all (λ c. not (c == sep)) text ≡ true → split_at sep text ≡ none
unfolding split_at
split_at-none sep [] h = refl
split_at-none sep (c ∷ text) h = ground (arith, split_at-none sep text)

pub all_mono :
    (p q : ℕ → Bool) (text : Text)
    → ((c : ℕ) → p c ≡ true → q c ≡ true)
    → all p text ≡ true
    → all q text ≡ true
all_mono p q [] h k = refl
all_mono p q (c ∷ text) h k = ground (arith, h c, all_mono p q text h)

pub text_eq_iff : (a b : Text) → (text_eq a b ≡ true) ↔ (a ≡ b)
unfolding text_eq
text_eq_iff [] [] = ground arith
text_eq_iff [] (b ∷ bs) = ground arith
text_eq_iff (a ∷ rest) [] = ground arith
text_eq_iff (a ∷ rest) (b ∷ bs) = ground (arith, text_eq_iff rest bs)

-- ===== src/Text.antt =====
-- Texts of the source as lists of UTF-16 code units, with the methods of JavaScript's strings that
-- the modelled files call.
pub mod Laws
pub mod Trim
pub mod Prefix
use Prim.Native.Char.{code}
use Prim.Native.String.{String}
use mathlib.Core.List.{reverse}
use mathlib.Core.Option
use teleyes.Common.{
  ℕ, Bool, true, false, ◌&&◌, ◌||◌, Option, none, some, List, [], ◌∷◌, ◌++◌, leb, ◌==◌,
  if◌then◌else◌,
}

abbrev pub Text : Type 0
Text = List ℕ

-- The code units of a literal without characters outside the Basic Multilingual Plane.
abbrev pub codes : String → Text
codes String.[] = []
codes (String.◌∷◌ c s) = code c ∷ codes s

abbrev pub is_digit : ℕ → Bool
is_digit c = leb b'0' c && leb c b'9'

-- What `trim` and `\s` take for white space: WhiteSpace and LineTerminator of ECMAScript.
unfoldable pub is_space : ℕ → Bool
is_space c =
    (leb 9 c && leb c 13)
    || c == 32
    || c == 160
    || c == 0x1680
    || (leb 0x2000 c && leb c 0x200a)
    || c == 0x2028
    || c == 0x2029
    || c == 0x202f
    || c == 0x205f
    || c == 0x3000
    || c == 0xfeff

unfoldable pub trim_start : Text → Text
trim_start [] = []
trim_start (c ∷ cs) = if is_space c then trim_start cs else c ∷ cs

-- `trimEnd`: a white unit is dropped if nothing stays behind it.
abbrev pub drop_if_last : ℕ → Text → Text
drop_if_last c [] = if is_space c then [] else c ∷ []
drop_if_last c (d ∷ ds) = c ∷ d ∷ ds

unfoldable pub trim_end : Text → Text
trim_end [] = []
trim_end (c ∷ cs) = drop_if_last c (trim_end cs)

unfoldable pub trim : Text → Text
unfolding trim_start trim_end
trim text = trim_end (trim_start text)

abbrev pub add_before : ℕ → Option (Text × Text) → Option (Text × Text)
add_before c none = none
add_before c (some (before, after)) = some (c ∷ before, after)

-- One more unit in front of the first part.
abbrev pub grow : ℕ → List Text → List Text
grow c [] = (c ∷ []) ∷ []
grow c (part ∷ parts) = (c ∷ part) ∷ parts

-- The text before and behind the first occurrence of a unit.
unfoldable pub split_at : ℕ → Text → Option (Text × Text)
split_at sep [] = none
split_at sep (c ∷ cs) = if c == sep then some ([], cs) else add_before c (split_at sep cs)

-- `text.split(separator)` with a separator of one unit.
unfoldable pub split : ℕ → Text → List Text
split sep [] = [] ∷ []
split sep (c ∷ cs) = if c == sep then [] ∷ split sep cs else grow c (split sep cs)

-- `parts.join(', ')`
unfoldable pub join_comma : List Text → Text
join_comma [] = []
join_comma (t ∷ []) = t
join_comma (t ∷ u ∷ ts) = t ++ b',' ∷ b' ' ∷ join_comma (u ∷ ts)

-- `===` on texts.
unfoldable pub text_eq : Text → Text → Bool
text_eq [] [] = true
text_eq (a ∷ rest) (b ∷ bs) = a == b && text_eq rest bs
text_eq _ _ = false

-- `text.startsWith(prefix)` and `text.includes(part)`.
unfoldable pub starts_with : Text → Text → Bool
starts_with [] text = true
starts_with (p ∷ prefix) [] = false
starts_with (p ∷ prefix) (c ∷ text) = p == c && starts_with prefix text

unfoldable pub includes : Text → Text → Bool
includes part [] = starts_with part []
includes part (c ∷ text) = starts_with part (c ∷ text) || includes part text

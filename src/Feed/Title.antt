-- ===== src/Feed/Title.antt =====
-- apps/web/src/components/matchTitle.ts: the title of a card, cut from the message. `fold` is `foldAccents`.
use teleyes.Common.{
  ℕ, zero, suc, ◌+◌, Bool, true, false, not, ◌&&◌, ◌||◌, Option, none, some, List, [], ◌∷◌, map,
  ◌==◌, if◌then◌else◌, keep, max, length,
}
use teleyes.Text.{Text, is_space, trim, trim_end, split, starts_with}
use teleyes.Terms.TermList.{is_empty}

-- `replaceAll` of a unit written twice by nothing; `one` says that the unit before was the first half.
abbrev pub begins_with : ℕ → Text → Bool
begins_with mark [] = false
begins_with mark (c ∷ cs) = c == mark

unfoldable pub remove_pairs : Bool → ℕ → Text → Text
remove_pairs half mark [] = []
remove_pairs half mark (c ∷ cs) =
    if half
    then remove_pairs false mark cs
    else if c == mark && begins_with mark cs
    then remove_pairs true mark cs
    else c ∷ remove_pairs false mark cs

-- `replace(/ {2,}/g, ' ')`
unfoldable pub one_blank : Bool → Text → Text
one_blank behind [] = []
one_blank behind (c ∷ cs) =
    let rest = one_blank (c == b' ') cs in if c == b' ' && behind then rest else c ∷ rest

unfoldable pub strip_telegram_markup : Text → Text
strip_telegram_markup text =
    trim (one_blank false (remove_pairs false b'_' (remove_pairs false b'*' text)))

-- A match of `/https?:\/\//i` at the start. No unit outside ASCII folds to one of its letters.
abbrev pub is_letter : ℕ → ℕ → Bool
is_letter letter c = c == letter || c + 32 == letter

abbrev pub slashes : Text → Bool
slashes (c ∷ d ∷ e ∷ cs) = c == b':' && (d == b'/' && e == b'/')
slashes _ = false

abbrev pub ends_scheme : Text → Bool
ends_scheme [] = false
ends_scheme (c ∷ cs) = slashes (c ∷ cs) || (is_letter b's' c && slashes cs)

abbrev pub starts_link : Text → Bool
starts_link (h ∷ t ∷ u ∷ p ∷ cs) =
    is_letter b'h' h
    && (is_letter b't' t && (is_letter b't' u && (is_letter b'p' p && ends_scheme cs)))
starts_link _ = false

-- `FIRST_LINK_RE.test(text)`
unfoldable pub has_link : Text → Bool
has_link [] = false
has_link (c ∷ cs) = starts_link (c ∷ cs) || has_link cs

-- `cleaned.slice(0, match.index)`; `none` without a match.
abbrev pub cons_some : ℕ → Option Text → Option Text
cons_some c none = none
cons_some c (some before) = some (c ∷ before)

unfoldable pub before_link : Text → Option Text
before_link [] = none
before_link (c ∷ cs) =
    let later = before_link cs in if starts_link (c ∷ cs) then some [] else cons_some c later

abbrev pub shown_before : Text → Option Text → Text
shown_before cleaned none = cleaned
shown_before cleaned (some before) = if is_empty (trim_end before) then cleaned else trim_end before

unfoldable pub product_text : Text → Text
product_text message_text =
    let cleaned = strip_telegram_markup message_text in shown_before cleaned (before_link cleaned)

-- `text.lastIndexOf(part)`, for a part that is not empty.
unfoldable pub last_index_of : Text → Text → Option ℕ
last_index_of part [] = none
last_index_of part (c ∷ cs) = elim (last_index_of part cs) [
  | some index ↦ some (suc index)
  | none ↦ if starts_with part (c ∷ cs) then some 0 else none
]

abbrev pub latest : Option ℕ → ℕ → Option ℕ
latest none end = some end
latest (some last) end = some (max last end)

abbrev pub drop : ℕ → Text → Text
drop zero text = text
drop (suc n) [] = []
drop (suc n) (c ∷ cs) = drop n cs

-- `text.slice(0, end)` up to the next white space at or behind `end`.
unfoldable pub cut_at_space : ℕ → Text → Text
cut_at_space end [] = []
cut_at_space (suc end) (c ∷ cs) = c ∷ cut_at_space end cs
cut_at_space zero (c ∷ cs) = let rest = c ∷ cut_at_space zero cs in if is_space c then [] else rest

-- `text.indexOf('\n\n') !== -1`
unfoldable pub has_blank_line : Text → Bool
has_blank_line [] = false
has_blank_line (c ∷ cs) = starts_with (10 ∷ 10 ∷ []) (c ∷ cs) || has_blank_line cs

module _ (fold : Text → Text) where
  -- The loop of `ruleTermEndIndex`.
  unfoldable pub last_term_end : Text → Option ℕ → List Text → Option ℕ
  last_term_end folded last [] = last
  last_term_end folded last (term ∷ terms) =
      if is_empty (fold term)
      then last_term_end folded last terms
      else elim (last_index_of (fold term) folded) [
        | none ↦ last_term_end folded last terms
        | some index ↦ last_term_end folded (latest last (index + length (fold term))) terms
      ]

  unfoldable pub rule_term_end_index : Text → Text → Option ℕ
  rule_term_end_index text include_terms =
      last_term_end (fold text) none
        (keep (λ term. not (is_empty term)) (map trim (split b',' include_terms)))

  abbrev pub cut_behind : Text → Option ℕ → Text
  cut_behind text none = text
  cut_behind text (some end) =
      if has_blank_line (drop end text) then trim_end (cut_at_space end text) else text

  -- `none` is a match whose rule is not known.
  unfoldable pub cut_at_rule_term : Text → Option Text → Text
  cut_at_rule_term text none = text
  cut_at_rule_term text (some include_terms) =
      cut_behind text (rule_term_end_index text include_terms)

  unfoldable pub card_title : Text → Option Text → Text
  card_title message_text include_terms =
      let link_cut = product_text message_text in
      if has_link link_cut then link_cut else cut_at_rule_term link_cut include_terms

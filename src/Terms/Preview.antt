-- ===== src/Terms/Preview.antt =====
-- apps/web/src/utils/ruleMatchPreview.ts: whether a message would match a rule. A text is a list of
-- code points here, as its regular expressions with the flag `u` read it. The Unicode tables are
-- parameters: `nfkd` is `normalize('NFKD')`, `lower` is `toLowerCase`, `is_word` is `[\p{L}\p{N}]`.
use teleyes.Common.{
  ℕ, zero, suc, Bool, false, not, ◌&&◌, ◌||◌, Option, none, some, List, [], ◌∷◌, ◌++◌, map, leb,
  ltb, ◌==◌, if◌then◌else◌, keep, any, all, length,
}
use teleyes.Text.{Text, is_space, trim, trim_start, split, includes}
use teleyes.Terms.TermList.{is_empty}

-- `COMBINING_MARKS_RE`
abbrev pub is_combining : ℕ → Bool
is_combining c = leb 0x300 c && leb c 0x36f

-- `replace(/\s+/g, ' ')`: a run of white space leaves one blank, at its first unit.
unfoldable pub collapse : Bool → Text → Text
collapse in_run [] = []
collapse in_run (c ∷ cs) =
    let rest = collapse (is_space c) cs in
    if is_space c then if in_run then rest else b' ' ∷ rest else c ∷ rest

-- A match of `/\s+\+(?=\s)/` at the start of a text: the number of its units behind the first.
abbrev pub plus_blank : Text → Bool
plus_blank (c ∷ d ∷ cs) = c == b'+' && is_space d
plus_blank _ = false

unfoldable pub blanks : Text → ℕ
blanks [] = 0
blanks (c ∷ cs) = let more = suc (blanks cs) in if is_space c then more else 0

unfoldable pub separator : Text → Option ℕ
separator [] = none
separator (c ∷ cs) =
    if is_space c && plus_blank (trim_start cs) then some (suc (blanks cs)) else none

-- `split(AND_SEPARATOR_RE)`: the units of a separator that are left, the part so far, and the text.
unfoldable pub split_parts : ℕ → Text → Text → List Text
split_parts left part [] = part ∷ []
split_parts (suc left) part (c ∷ cs) = split_parts left part cs
split_parts zero part (c ∷ cs) = elim (separator (c ∷ cs)) [
  | none ↦ split_parts zero (part ++ c ∷ []) cs
  | some left ↦ part ∷ split_parts left [] cs
]

unfoldable pub split_term_parts : Text → List Text
split_term_parts term = map trim (split_parts zero [] (b' ' ∷ (trim term ++ b' ' ∷ [])))

-- `parseTerms`; a missing text (`null` or `undefined`) has no terms.
unfoldable pub parse_terms : Option Text → List Text
parse_terms none = []
parse_terms (some raw) = keep (λ term. not (is_empty term)) (map trim (split b',' raw))

module _ (nfkd lower : Text → Text) (is_word : ℕ → Bool) where
  unfoldable pub normalize_text : Text → Text
  normalize_text text = trim (
      collapse false (
        map (λ c. if is_word c || is_space c then c else b' ')
          (lower (keep (λ c. not (is_combining c)) (nfkd text)))))

  -- `termsError(raw) !== null`
  unfoldable pub terms_error : Option Text → Bool
  terms_error raw =
      any
        (λ term.
          ltb 1 (length (split_term_parts term))
          && any (λ part. is_empty (normalize_text part)) (split_term_parts term))
        (parse_terms raw)

  unfoldable pub all_parts : List Text → Text → Text → Bool
  all_parts [] term message = includes (normalize_text term) message
  all_parts (part ∷ parts) term message = all (λ p. includes p message) (part ∷ parts)

  unfoldable pub term_matches : Text → Text → Bool
  term_matches term message =
      all_parts (keep (λ part. not (is_empty part)) (map normalize_text (split_term_parts term)))
        term message

  unfoldable pub preview_rule_match : Text → Text → Option Text → Bool
  preview_rule_match message_text include_terms exclude_terms =
      let message = normalize_text message_text in
      if any (λ term. term_matches term message) (parse_terms exclude_terms)
      then false
      else any (λ term. term_matches term message) (parse_terms (some include_terms))

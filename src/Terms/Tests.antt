-- ===== src/Terms/Tests.antt =====
-- Runs of the term list and of the preview, for texts in ASCII.
use teleyes.Common.{
  ◌≡◌, refl, ◌↔◌, ℕ, Bool, true, false, none, some, List, [], ◌∷◌, ◌||◌, ◌&&◌, leb, map, ◌+◌,
  if◌then◌else◌,
}
use teleyes.Text.{
  Text, codes, trim, is_space, is_digit, split, join_comma, text_eq, includes, starts_with,
}
use teleyes.Terms.TermList.{
  has, terms_from, parse_term_list, serialize_term_list, add_terms, remove_term,
}
use teleyes.Terms.Preview.{
  collapse, blanks, separator, split_parts, split_term_parts, parse_terms, normalize_text,
  terms_error, all_parts, term_matches, preview_rule_match,
}
use teleyes.Terms.RoundTrip.{IsTermList, parse-serialize, parse-IsTermList}
use teleyes.Terms.RuleForm.{RuleInput, rule_to_form, form_to_input, form_to_input-rule_to_form}
use teleyes.Common.{arith}
use teleyes.Terms.Meaning.{Some, Holds, preview_rule_match_iff}

abbrev ascii_lower : Text → Text
ascii_lower text = map (λ c. if leb b'A' c && leb c b'Z' then c + 32 else c) text

abbrev ascii_word : ℕ → Bool
ascii_word c = is_digit c || (leb b'a' c && leb c b'z')

terms : Unit {0}
unfolding has terms_from parse_term_list serialize_term_list add_terms remove_term trim is_space
    split join_comma text_eq
terms = tt

preview : Unit {0}
unfolding collapse blanks separator split_parts split_term_parts parse_terms normalize_text
    terms_error all_parts term_matches preview_rule_match includes starts_with
preview = tt

term_runs :
    (parse_term_list ascii_lower (codes " iPhone , ,iphone,ps5")
      ≡ codes "iPhone" ∷ codes "ps5" ∷ [])
    × (add_terms ascii_lower (codes "a, b") (codes "B,c") ≡ codes "a, b, c")
    × (remove_term ascii_lower (codes "a, b, c") (codes "B") ≡ codes "a, c")
unfolding terms
term_runs = (refl, refl, refl)

preview_runs :
    (preview_rule_match
        (λ t. t)
        ascii_lower
        ascii_word
        (codes "Memoria DDR5 - 16GB ram")
        (codes "x, memoria + 16gb")
        none
      ≡ true)
    × (preview_rule_match
          (λ t. t)
          ascii_lower
          ascii_word
          (codes "Memoria 8GB")
          (codes "memoria + 16gb")
          none
        ≡ false)
    × (preview_rule_match
          (λ t. t)
          ascii_lower
          ascii_word
          (codes "Memoria 8GB")
          (codes "memoria")
          (some (codes "8gb"))
        ≡ false)
    × (split_term_parts (codes "a + b+c  + ") ≡ codes "a" ∷ codes "b+c" ∷ codes "" ∷ [])
unfolding terms preview
preview_runs = (refl, refl, refl, refl)

abbrev two_terms : List Text
two_terms = codes "iPhone" ∷ codes "ps5" ∷ []

two_terms-IsTermList : IsTermList ascii_lower [] two_terms
unfolding terms
two_terms-IsTermList = parse-IsTermList ascii_lower (codes "iPhone, ps5, IPHONE")

parse-serialize_example :
    parse_term_list ascii_lower (serialize_term_list ascii_lower two_terms) ≡ two_terms
parse-serialize_example = parse-serialize ascii_lower two_terms two_terms-IsTermList

preview_rule_match_iff_example :
    (preview_rule_match (λ t. t) ascii_lower ascii_word (codes "Fone 8GB") (codes "fone") none
      ≡ true)
    ↔ (Some
          (Holds
            (λ t. t)
            ascii_lower
            ascii_word
            (normalize_text (λ t. t) ascii_lower ascii_word (codes "Fone 8GB")))
          (parse_terms (some (codes "fone")))
        × (¬ Some
            (Holds
              (λ t. t)
              ascii_lower
              ascii_word
              (normalize_text (λ t. t) ascii_lower ascii_word (codes "Fone 8GB")))
            (parse_terms none)))
preview_rule_match_iff_example =
    preview_rule_match_iff (λ t. t) ascii_lower ascii_word (codes "Fone 8GB") (codes "fone") none

-- A rule without exclude terms and target, whose limit is R$ 1.999,90.
abbrev rule : RuleInput
rule = record {
  name = codes "TV";
  include_terms = codes "tv, oled";
  exclude_terms = none;
  max_price_cents = some 199990;
  target_price_cents = none;
}

form_to_input-rule_to_form_example : form_to_input (rule_to_form rule false) ≡ rule
form_to_input-rule_to_form_example =
    (form_to_input-rule_to_form rule tt (ground arith, ground arith) tt).0

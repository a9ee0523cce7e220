-- ===== src/Terms/RuleForm.antt =====
-- apps/web/src/pages/RegrasPage.tsx: a rule as the form shows it and as the form saves it.
use teleyes.Common.{ℕ, ◌≡◌, refl, Bool, false, Option, none, some, [], ◌++◌, if◌then◌else◌}
use teleyes.Text.{Text, codes, trim}
use teleyes.Terms.TermList.{is_empty}
use teleyes.Price.Input.{parse_optional_price_input, cents_of}
use teleyes.Price.Format.{price_to_input}
use teleyes.Price.RoundTrip.{IsShown, parse-price_to_input}

-- The fields of a rule that its form edits.
pub record RuleInput : Type 0 where
  pub name : Text
  pub include_terms : Text
  pub exclude_terms : Option Text
  pub max_price_cents : Option ℕ
  pub target_price_cents : Option ℕ

pub record RuleTestInput : Type 0 where
  pub include_terms : Text
  pub exclude_terms : Option Text
  pub max_price_cents : Option ℕ

pub record RuleForm : Type 0 where
  pub name : Text
  pub include_terms : Text
  pub exclude_terms : Text
  pub max_price_reais : Text
  pub target_price_reais : Text

abbrev pub or_empty : Option Text → Text
or_empty none = []
or_empty (some text) = text

unfoldable pub rule_to_form : RuleInput → Bool → RuleForm
rule_to_form rule as_copy = record {
  name = if as_copy then rule.name ++ codes " (cópia)" else rule.name;
  include_terms = rule.include_terms;
  exclude_terms = or_empty rule.exclude_terms;
  max_price_reais = price_to_input rule.max_price_cents;
  target_price_reais = price_to_input rule.target_price_cents;
}

abbrev pub filled_terms : Text → Option Text
filled_terms text = if is_empty (trim text) then none else some text

unfoldable pub form_to_input : RuleForm → RuleInput
form_to_input form = record {
  name = form.name;
  include_terms = form.include_terms;
  exclude_terms = filled_terms form.exclude_terms;
  max_price_cents = cents_of (parse_optional_price_input form.max_price_reais);
  target_price_cents = cents_of (parse_optional_price_input form.target_price_reais);
}

unfoldable pub form_to_test_input : RuleForm → RuleTestInput
form_to_test_input form = record {
  include_terms = form.include_terms;
  exclude_terms = filled_terms form.exclude_terms;
  max_price_cents = cents_of (parse_optional_price_input form.max_price_reais);
}

-- The exclude terms of a stored rule: none, or a text that is not blank.
abbrev pub IsFilled : Option Text → Type 0
IsFilled none = Unit
IsFilled (some text) = is_empty (trim text) ≡ false

filled_terms-or_empty :
    (terms : Option Text) → IsFilled terms → filled_terms (or_empty terms) ≡ terms
unfolding trim
filled_terms-or_empty none h = refl
filled_terms-or_empty (some text) h = rw h refl

-- A rule whose exclude terms are missing or not blank, and whose prices are missing or positive
-- and at most 10 ^ 15 cents, is the same rule after it is opened in its form and saved unchanged;
-- the test of the form asks for the same terms and price limit.
pub form_to_input-rule_to_form :
    (rule : RuleInput)
    → IsFilled rule.exclude_terms
    → IsShown rule.max_price_cents
    → IsShown rule.target_price_cents
    → (form_to_input (rule_to_form rule false) ≡ rule)
      × (form_to_test_input (rule_to_form rule false) ≡ record {
        include_terms = rule.include_terms;
        exclude_terms = rule.exclude_terms;
        max_price_cents = rule.max_price_cents;
      })
unfolding form_to_input form_to_test_input rule_to_form
form_to_input-rule_to_form rule h most target =
    let terms = filled_terms-or_empty rule.exclude_terms h in
    let limit = parse-price_to_input rule.max_price_cents most in
    let goal = parse-price_to_input rule.target_price_cents target in
    (rw (terms, limit, goal) refl, rw (terms, limit) refl)

-- ===== src/Rules/Tests.antt =====
-- Runs of the form and of the tester of a rule.
use teleyes.Common.{
  ℕ, ◌≡◌, refl, leb, ◌||◌, ◌+◌, ◌&&◌, if◌then◌else◌, Bool, none, some, List, [], ◌∷◌, map,
}
use teleyes.Price.Input.{parse_optional_price_input}
use teleyes.Text.{Text, codes, split, trim, is_space}
use teleyes.Session.Http.{returned}
use teleyes.Terms.RuleForm.{RuleForm}
use teleyes.Terms.TermList.{parse_term_list, terms_from, has}
use teleyes.Terms.Preview.{
  terms_error, parse_terms, split_term_parts, split_parts, separator, normalize_text,
}
use teleyes.Rules.Rail.{Rule, FormTarget, Rail, empty_form, mount}
use teleyes.Rules.Steps
use teleyes.Rules.TesterLaws.{IsNewest}
use teleyes.Rules.RunLaws.{run-IsNewest}
use teleyes.Rules.SaveLaws.{late_save_resets}

abbrev ascii_lower : Text → Text
ascii_lower text = map (λ c. if leb b'A' c && leb c b'Z' then c + 32 else c) text

abbrev is_ascii_word : ℕ → Bool
is_ascii_word c = leb b'0' c && leb c b'9' || leb b'a' c && leb c b'z'

-- `termsError` on terms in ASCII.
abbrev has_problem : Text → Bool
has_problem terms = terms_error (λ t. t) ascii_lower is_ascii_word (some terms)

abbrev mouse_rule : Rule
mouse_rule = record {
  id = 3;
  input = record {
    name = codes "Mouse";
    include_terms = codes "mouse";
    exclude_terms = none;
    max_price_cents = none;
    target_price_cents = none;
  };
}

-- The tester of a row is opened, asked again, and the older answer comes last.
abbrev tester_events : List Steps.Event
tester_events =
    Steps.Event.rules_loaded (mouse_rule ∷ [])
    ∷ Steps.Event.row_tester_toggled 3
    ∷ Steps.Event.test_answered 2 (returned none)
    ∷ Steps.Event.refresh_clicked
    ∷ Steps.Event.row_tester_toggled 3
    ∷ Steps.Event.test_answered 3 (returned none)
    ∷ []

run-IsNewest_example : IsNewest (Steps.run ascii_lower has_problem tester_events (mount (some 1)))
run-IsNewest_example = run-IsNewest ascii_lower has_problem (some 1) tester_events

abbrev typed : RuleForm
typed = record empty_form { name = codes "Teclado"; include_terms = codes "teclado" }

-- A rule is saved.
abbrev save_events : List Steps.Event
save_events = Steps.Event.form_changed typed ∷ Steps.Event.form_submitted ∷ []

abbrev rail : Rail
rail = Steps.run ascii_lower has_problem save_events (mount (some 1))

late_save_resets_example :
    let loaded =
      Steps.step ascii_lower has_problem
        (Steps.Event.form_changed typed)
        (Steps.step ascii_lower has_problem (Steps.Event.edit_clicked mouse_rule) rail) in
    let t = Steps.step ascii_lower has_problem (Steps.Event.save_answered (returned none)) loaded in
    (loaded.target ≡ FormTarget.edit mouse_rule)
    × (loaded.form ≡ typed)
    × (t.target ≡ FormTarget.create)
    × (t.form ≡ empty_form)
    × (t.sent ≡ rail.sent)
unfolding Steps.run Steps.step mount parse_term_list terms_from split trim is_space has
    parse_optional_price_input empty_form terms_error parse_terms split_term_parts split_parts
    separator normalize_text
late_save_resets_example =
    late_save_resets ascii_lower has_problem rail FormTarget.create mouse_rule typed none refl

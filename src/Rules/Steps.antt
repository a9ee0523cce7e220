-- ===== src/Rules/Steps.antt =====
-- apps/web/src/pages/RegrasPage.tsx: the requests of the form and of the tester, and the events of both.
use teleyes.Common.{
  ℕ, suc, Bool, true, false, not, ◌&&◌, ◌||◌, Option, none, some, List, [], ◌∷◌, ◌==◌,
  if◌then◌else◌, keep, any,
}
use teleyes.Text.{Text}
use teleyes.Price.Input.{PriceInputResult, failure, parse_optional_price_input}
use teleyes.Session.Http.{Outcome, returned}
use teleyes.Terms.TermList.{parse_term_list}
use teleyes.Terms.RuleForm.{RuleTestInput, RuleForm, rule_to_form, form_to_input}
use teleyes.Rules.Rail.{
  Rule, FormTarget, create, edit, FormError, terms_problem, price_wrong, save_failed, TestError,
  test_failed, empty_form, Rail, TesterContext, tester_context, effective_terms, load_form,
  toggle_row_tester, toggle_create_tester,
}

abbrev pub option_eq : Option ℕ → Option ℕ → Bool
option_eq none none = true
option_eq (some a) (some b) = a == b
option_eq _ _ = false

abbrev pub bool_eq : Bool → Bool → Bool
bool_eq true b = b
bool_eq false b = not b

-- `setFormTesting(false)`, the error and no result.
unfoldable pub refuse_test : TestError → Rail → Rail
refuse_test error s = record s { testing = false; test_error = some error; result = none }

abbrev pub is_nothing : List Text → Bool
is_nothing [] = true
is_nothing _ = false

-- `resetForm`
unfoldable pub reset_form : Rail → Rail
unfolding load_form
reset_form s = load_form create empty_form s

-- `configChanged` reloads the rules and asks for the state of the listener.
unfoldable pub answer_save : Option FormTarget → Outcome → Rail → Rail
unfolding reset_form
answer_save none outcome s = s
answer_save (some target) (returned body) s =
    reset_form
      (record s { submitting = false; saving = none; config_changes = suc s.config_changes })
answer_save (some target) outcome s = record s {
  form_error = some (save_failed outcome);
  submitting = false;
  saving = none;
}

-- The answer to the test `id`: only the newest request may change the panel.
unfoldable pub take_test : Outcome → ℕ → Rail → Rail
take_test (returned body) id s = record s { result = some (id, returned body); testing = false }
take_test outcome id s = record s {
  result = none;
  test_error = some (test_failed outcome);
  testing = false;
}

unfoldable pub answer_test : ℕ → Outcome → Rail → Rail
unfolding take_test
answer_test id outcome s =
    let left = record s { testing_out = keep (λ i. not (i == id)) s.testing_out } in
    if not (any (λ i. i == id) s.testing_out)
    then s
    else if id == s.request_id
    then take_test outcome id left
    else left

pub data Event : Type 0 where
  rules_loaded : List Rule → Event
  form_changed : RuleForm → Event
  create_clicked reset_clicked : Event
  edit_clicked duplicate_clicked : Rule → Event
  form_submitted : Event
  save_answered : Outcome → Event
  row_tester_toggled : ℕ → Event
  create_tester_toggled refresh_clicked : Event
  tester_typed : Text → Event
  test_answered : ℕ → Outcome → Event
  csrf_changed : Option ℕ → Event

module _ (lower : Text → Text) (has_problem : Text → Bool) where
  -- `fetchRealTesterPreview` for terms, with the token and the list of the terms.
  abbrev pub ask_test : Option ℕ → Bool → Rail → Rail
  ask_test none without s = refuse_test TestError.csrf_missing s
  ask_test (some token) true s = refuse_test TestError.no_terms s
  ask_test (some token) false s = record s {
    testing = true;
    test_error = none;
    result = none;
    testing_out = s.request_id ∷ s.testing_out;
  }

  unfoldable pub fetch_preview : Option RuleTestInput → Rail → Rail
  unfolding refuse_test
  fetch_preview none s = record s { request_id = suc s.request_id }
  fetch_preview (some terms) s =
      ask_test s.csrf (is_nothing (parse_term_list lower terms.include_terms))
        (record s { request_id = suc s.request_id })

  -- The effect of `[testerId, createTesterOpen]`, and the button "Atualizar".
  unfoldable pub effect_for : Option TesterContext → Rail → Rail
  unfolding fetch_preview effective_terms
  effect_for none s = record s { result = none; test_error = none }
  effect_for (some context) s = fetch_preview (some (effective_terms context s.target s.form)) s

  unfoldable pub refresh_for : Option TesterContext → Rail → Rail
  unfolding fetch_preview effective_terms
  refresh_for none s = s
  refresh_for (some context) s = fetch_preview (some (effective_terms context s.target s.form)) s

  -- The render behind a handler: the effect runs where the panel is another than before.
  unfoldable pub rendered : Option ℕ → Bool → Rail → Rail
  unfolding effect_for tester_context
  rendered old_id old_open s =
      if option_eq old_id s.tester_id && bool_eq old_open s.create_tester_open
      then s
      else effect_for (tester_context s.tester_id s.create_tester_open s.rules) s

  -- The checks of `submitForm`, and the call.
  abbrev pub submit_checked : Option PriceInputResult → Option PriceInputResult → Rail → Rail
  submit_checked (some (failure error)) price s = record s { form_error = some (price_wrong error) }
  submit_checked limit (some (failure error)) s = record s { form_error = some (price_wrong error) }
  submit_checked limit price s = record s {
    submitting = true;
    form_error = none;
    saving = some s.target;
    sent = form_to_input s.form ∷ s.sent;
  }

  abbrev pub submit_terms : Bool → Bool → Rail → Rail
  submit_terms true problem s = record s { form_error = some FormError.no_terms }
  submit_terms false true s = record s { form_error = some terms_problem }
  submit_terms false false s =
      submit_checked (parse_optional_price_input s.form.max_price_reais)
        (parse_optional_price_input s.form.target_price_reais) s

  unfoldable pub submit_form : Option ℕ → Rail → Rail
  submit_form none s = record s { form_error = some FormError.csrf_missing }
  submit_form (some token) s =
      submit_terms (is_nothing (parse_term_list lower s.form.include_terms))
        (has_problem s.form.include_terms || has_problem s.form.exclude_terms) s

  -- What the handler of an event does before the next render.
  unfoldable pub handle : Event → Rail → Rail
  unfolding load_form reset_form submit_form answer_save toggle_row_tester toggle_create_tester
      refresh_for tester_context answer_test
  handle (rules_loaded rules) s = record s { rules = rules }
  handle (form_changed form) s = record s { form = form }
  handle create_clicked s = load_form create empty_form s
  handle reset_clicked s = reset_form s
  handle (edit_clicked rule) s = load_form (edit rule) (rule_to_form rule.input false) s
  handle (duplicate_clicked rule) s = load_form create (rule_to_form rule.input true) s
  handle form_submitted s = if s.submitting then s else submit_form s.csrf s
  handle (save_answered outcome) s = answer_save s.saving outcome s
  handle (row_tester_toggled id) s = toggle_row_tester id s
  handle create_tester_toggled s = toggle_create_tester s
  handle refresh_clicked s =
      if s.testing
      then s
      else refresh_for (tester_context s.tester_id s.create_tester_open s.rules) s
  handle (tester_typed text) s = record s { tester_text = text }
  handle (test_answered id outcome) s = answer_test id outcome s
  handle (csrf_changed csrf) s = record s { csrf = csrf }

  unfoldable pub step : Event → Rail → Rail
  unfolding handle rendered
  step e s = rendered s.tester_id s.create_tester_open (handle e s)

  unfoldable pub run : List Event → Rail → Rail
  run [] s = s
  run (e ∷ es) s = run es (step e s)

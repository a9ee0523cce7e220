-- ===== src/Rules/Rail.antt =====
-- apps/web/src/pages/RegrasPage.tsx: the form of a rule, and the tester that asks the server which stored
-- messages its terms would match. `lower` is `toLowerCase`; `has_problem` says that
-- `termsError` finds a problem, as `terms_error` of Terms.Preview does on code points.
use teleyes.Common.{
  ℕ, suc, Bool, true, false, Option, none, some, List, [], ◌∷◌, ◌==◌, if◌then◌else◌,
}
use teleyes.Text.{Text}
use teleyes.Price.Input.{PriceError}
use teleyes.Session.Http.{Outcome}
use teleyes.Terms.RuleForm.{RuleInput, RuleTestInput, RuleForm, form_to_test_input}

pub record Rule : Type 0 where
  pub id : ℕ
  pub input : RuleInput

pub data FormTarget : Type 0 where
  create : FormTarget
  edit : Rule → FormTarget

pub data FormError : Type 0 where
  csrf_missing no_terms terms_problem : FormError
  price_wrong : PriceError → FormError
  save_failed : Outcome → FormError

-- The error of the tester.
pub data TestError : Type 0 where
  csrf_missing no_terms : TestError
  test_failed : Outcome → TestError

unfoldable pub empty_form : RuleForm
empty_form = record {
  name = [];
  include_terms = [];
  exclude_terms = [];
  max_price_reais = [];
  target_price_reais = [];
}

-- The state of the rail. `request_id` is `formTestRequestId`; a result comes with the number of the request
-- that it answers; `testing_out` lists the tests and `saving` the save that are not answered, `sent` the
-- saved inputs, the latest first.
pub record Rail : Type 0 where
  pub csrf : Option ℕ
  pub rules : List Rule
  pub target : FormTarget
  pub form : RuleForm
  pub form_version : ℕ
  pub form_error : Option FormError
  pub submitting : Bool
  pub saving : Option FormTarget
  pub sent : List RuleInput
  pub tester_id : Option ℕ
  pub create_tester_open : Bool
  pub tester_text : Text
  pub request_id : ℕ
  pub testing : Bool
  pub result : Option (ℕ × Outcome)
  pub test_error : Option TestError
  pub testing_out : List ℕ
  pub config_changes : ℕ

unfoldable pub mount : Option ℕ → Rail
mount csrf = record {
  csrf = csrf;
  rules = [];
  target = create;
  form = empty_form;
  form_version = 0;
  form_error = none;
  submitting = false;
  saving = none;
  sent = [];
  tester_id = none;
  create_tester_open = false;
  tester_text = [];
  request_id = 0;
  testing = false;
  result = none;
  test_error = none;
  testing_out = [];
  config_changes = 0;
}

abbrev pub find_rule : ℕ → List Rule → Option Rule
find_rule id [] = none
find_rule id (rule ∷ rules) = if rule.id == id then some rule else find_rule id rules

pub data TesterContext : Type 0 where
  of_rule : Rule → TesterContext
  of_create : TesterContext

abbrev pub rule_context : Option Rule → Option TesterContext
rule_context none = none
rule_context (some rule) = some (of_rule rule)

-- `testerContext`
unfoldable pub tester_context : Option ℕ → Bool → List Rule → Option TesterContext
tester_context (some id) shown rules = rule_context (find_rule id rules)
tester_context none shown rules = if shown then some of_create else none

abbrev pub is_edited : FormTarget → ℕ → Bool
is_edited create id = false
is_edited (edit rule) id = rule.id == id

abbrev pub stored_terms : RuleInput → RuleTestInput
stored_terms rule = record {
  include_terms = rule.include_terms;
  exclude_terms = rule.exclude_terms;
  max_price_cents = rule.max_price_cents;
}

-- `effectiveTesterTerms`: the form where it is about the rule that is tested, else what is stored.
unfoldable pub effective_terms : TesterContext → FormTarget → RuleForm → RuleTestInput
effective_terms of_create target form = form_to_test_input form
effective_terms (of_rule rule) target form =
    if is_edited target rule.id then form_to_test_input form else stored_terms rule.input

-- `loadForm`
abbrev pub keeps_tester : FormTarget → Option ℕ → Bool
keeps_tester target none = false
keeps_tester target (some id) = is_edited target id

unfoldable pub load_form : FormTarget → RuleForm → Rail → Rail
load_form target next s =
    let keeps = keeps_tester target s.tester_id in
    record s {
      request_id = if keeps then s.request_id else suc s.request_id;
      testing = if keeps then s.testing else false;
      target = target;
      form = next;
      form_version = suc s.form_version;
      form_error = none;
      create_tester_open = false;
      tester_id = if keeps then s.tester_id else none;
    }

-- Another panel, for which the request that is out is given up.
abbrev pub show_tester : Option ℕ → Bool → Rail → Rail
show_tester id create_open s = record s {
  request_id = suc s.request_id;
  testing = false;
  tester_id = id;
  create_tester_open = create_open;
  tester_text = [];
}

unfoldable pub close_tester : Rail → Rail
close_tester s = show_tester none false s

abbrev pub tests_rule : Option ℕ → ℕ → Bool
tests_rule none id = false
tests_rule (some tested) id = tested == id

unfoldable pub toggle_row_tester : ℕ → Rail → Rail
unfolding close_tester
toggle_row_tester id s =
    if tests_rule s.tester_id id then close_tester s else show_tester (some id) false s

unfoldable pub toggle_create_tester : Rail → Rail
unfolding close_tester
toggle_create_tester s = if s.create_tester_open then close_tester s else show_tester none true s

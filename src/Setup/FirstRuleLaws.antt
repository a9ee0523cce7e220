-- ===== src/Setup/FirstRuleLaws.antt =====
-- The rules that the setup creates.
use teleyes.Common.{ℕ, ◌≡◌, ◌≢◌, ◌↔◌, true, false, Bool, Option, none, List, [], ◌∷◌, All, arith}
use teleyes.Text.{Text, trim}
use teleyes.Text.Trim.{trim-trim}
use teleyes.Price.Input.{PriceInputResult, parse_optional_price_input}
use teleyes.Terms.TermList.{is_empty, parse_term_list}
use teleyes.Setup.FirstRule.{
  NewRule, RuleStep, opened, is_nothing, send_priced, Event, submitted, step, run,
}

module _ (lower : Text → Text) where
  -- A rule with a trimmed name and at least one term.
  abbrev pub IsUsable : NewRule → Type 0
  IsUsable rule =
      (is_empty rule.name ≡ false)
      × (trim rule.name ≡ rule.name)
      × (is_nothing (parse_term_list lower rule.include_terms) ≡ false)

  -- The step is busy exactly while one of its two calls is out, and each rule that it sent is usable.
  pub record IsSteady (s : RuleStep) : Type 0 where
    pub single : (s.busy ≡ true) ↔ (s.stage ≢ none)
    pub usable : All IsUsable s.sent

  send_priced-IsSteady :
      (result : Option PriceInputResult) (s : RuleStep)
      → is_empty (trim s.name) ≡ false
      → is_nothing (parse_term_list lower s.terms) ≡ false
      → IsSteady s
      → IsSteady (send_priced result s)
  unfolding send_priced
  send_priced-IsSteady result s n t v = ground (arith, trim-trim s.name)

  step-IsSteady : (e : Event) (s : RuleStep) → IsSteady s → IsSteady (step lower e s)
  unfolding step
  step-IsSteady submitted s v =
      ground (arith, send_priced-IsSteady (parse_optional_price_input s.price) s)
  step-IsSteady e s v = ground arith

  run_from : (es : List Event) (s : RuleStep) → IsSteady s → IsSteady (run lower es s)
  unfolding run
  run_from [] s v = v
  run_from (e ∷ es) s v = run_from es (step lower e s) (step-IsSteady e s v)

  opened-IsSteady : (csrf : Option ℕ) (has_rule : Bool) → IsSteady (opened csrf has_rule)
  unfolding opened
  opened-IsSteady csrf has_rule = ground arith

  -- After every sequence of events the step is busy exactly while the rule or the request to the monitor
  -- is out, and every rule that was sent has a name without white space around it and at least one term.
  pub run-IsSteady :
      (csrf : Option ℕ) (has_rule : Bool) (es : List Event)
      → IsSteady (run lower es (opened csrf has_rule))
  run-IsSteady csrf has_rule es = run_from es (opened csrf has_rule) (opened-IsSteady csrf has_rule)

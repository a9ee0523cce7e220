-- ===== src/Setup/FirstRule.antt =====
-- apps/web/src/setup/RuleStep.tsx: the first rule, from a template, and the request that the monitor
-- applies it. `lower` is `toLowerCase`.
use teleyes.Common.{
  ℕ, suc, Bool, true, false, not, ◌&&◌, ◌||◌, Option, none, some, List, [], ◌∷◌, ◌==◌,
  if◌then◌else◌,
}
use teleyes.Text.{Text, codes, trim}
use teleyes.Terms.TermList.{is_empty, parse_term_list}
use teleyes.Price.Input.{PriceInputResult, PriceError, success, failure, parse_optional_price_input}
use teleyes.Setup.Timers.{Failure, error_message}

-- `RuleTemplate`, without its texts for the reader.
pub record RuleTemplate : Type 0 where
  pub id : ℕ
  pub name : Text
  pub include_terms : Text

abbrev pub templates : List RuleTemplate
templates =
    record {
      id = 0;
      name = codes "Placa de vídeo RTX 5070";
      include_terms = codes "rtx 5070, rtx5070";
    }
    ∷ record { id = 1; name = codes "SSD NVMe 1TB"; include_terms = codes "ssd + nvme + 1tb" }
    ∷ record { id = 2; name = codes "Memória DDR5 32GB"; include_terms = codes "ddr5 + 32gb" }
    ∷ record { id = 3; name = []; include_terms = [] }
    ∷ []

abbrev pub find_template : ℕ → List RuleTemplate → Option RuleTemplate
find_template id [] = none
find_template id (template ∷ rest) =
    if template.id == id then some template else find_template id rest

pub data RuleError : Type 0 where
  name_missing terms_missing csrf_missing : RuleError
  price_wrong : PriceError → RuleError
  create_failed not_applied : Option ℕ → RuleError

-- The input of `createRule`.
pub record NewRule : Type 0 where
  pub name : Text
  pub include_terms : Text
  pub max_price_cents : Option ℕ

-- The call that is out: the rule, then the request to the monitor.
pub data Stage : Type 0 where
  creating applying : Stage

-- `sent` lists the rules that were sent, `refreshed` counts the runs of `onRefresh`.
pub record RuleStep : Type 0 where
  pub csrf : Option ℕ
  pub has_rule : Bool
  pub template_id : Option ℕ
  pub name : Text
  pub terms : Text
  pub price : Text
  pub error : Option RuleError
  pub busy : Bool
  pub created : Option Text
  pub adding : Bool
  pub stage : Option Stage
  pub sent : List NewRule
  pub refreshed : ℕ

unfoldable pub opened : Option ℕ → Bool → RuleStep
opened csrf has_rule = record {
  csrf = csrf;
  has_rule = has_rule;
  template_id = none;
  name = [];
  terms = [];
  price = [];
  error = none;
  busy = false;
  created = none;
  adding = false;
  stage = none;
  sent = [];
  refreshed = 0;
}

abbrev pub is_chosen : Option ℕ → Bool
is_chosen none = false
is_chosen (some id) = true

unfoldable pub shows_picker : RuleStep → Bool
shows_picker s = not s.has_rule || s.adding

-- `choose`
unfoldable pub choose : Option RuleTemplate → RuleStep → RuleStep
choose none s = s
choose (some next) s = record s {
  template_id = some next.id;
  name = next.name;
  terms = next.include_terms;
  price = [];
  error = none;
  created = none;
}

unfoldable pub send : Option ℕ → Option ℕ → RuleStep → RuleStep
send cents none s = record s { error = some csrf_missing }
send cents (some token) s = record s {
  busy = true;
  error = none;
  stage = some creating;
  sent = record { name = trim s.name; include_terms = s.terms; max_price_cents = cents } ∷ s.sent;
}

unfoldable pub send_priced : Option PriceInputResult → RuleStep → RuleStep
unfolding send
send_priced (some (failure error)) s = record s { error = some (price_wrong error) }
send_priced (some (success cents)) s = send (some cents) s.csrf s
send_priced none s = send none s.csrf s

abbrev pub is_nothing : List Text → Bool
is_nothing [] = true
is_nothing _ = false

-- The answer to `createRule`, and the request to the monitor behind it.
unfoldable pub rule_created : Option Stage → Text → RuleStep → RuleStep
rule_created (some creating) name s = record s {
  created = some name;
  template_id = none;
  adding = false;
  stage = some applying;
}
rule_created stage name s = s

unfoldable pub rule_refused : Option Stage → Failure → RuleStep → RuleStep
rule_refused (some creating) refusal s = record s {
  error = some (create_failed (error_message refusal));
  busy = false;
  stage = none;
}
rule_refused stage refusal s = s

-- The answer of the monitor; none is a success.
unfoldable pub applied : Option Stage → Option Failure → RuleStep → RuleStep
applied (some applying) none s = record s {
  busy = false;
  stage = none;
  refreshed = suc s.refreshed;
}
applied (some applying) (some refusal) s = record s {
  error = some (not_applied (error_message refusal));
  busy = false;
  stage = none;
  refreshed = suc s.refreshed;
}
applied stage answer s = s

pub data Event : Type 0 where
  template_chosen : ℕ → Event
  name_typed terms_changed price_typed : Text → Event
  submitted add_clicked cancel_clicked : Event
  created_as : Text → Event
  create_refused : Failure → Event
  monitor_answered : Option Failure → Event
  status_read : Bool → Event

module _ (lower : Text → Text) where
  unfoldable pub submit : RuleStep → RuleStep
  unfolding send_priced
  submit s =
      if is_empty (trim s.name)
      then record s { error = some name_missing }
      else if is_nothing (parse_term_list lower s.terms)
      then record s { error = some terms_missing }
      else send_priced (parse_optional_price_input s.price) s

  unfoldable pub step : Event → RuleStep → RuleStep
  unfolding choose submit rule_created rule_refused applied shows_picker
  step (template_chosen id) s = if shows_picker s then choose (find_template id templates) s else s
  step (name_typed text) s = record s { name = text }
  step (terms_changed text) s = record s { terms = text }
  step (price_typed text) s = record s { price = text }
  step submitted s =
      if not (shows_picker s && is_chosen s.template_id) || s.busy then s else submit s
  step add_clicked s = if s.has_rule && not s.adding then record s { adding = true } else s
  step cancel_clicked s =
      if s.adding && is_chosen s.template_id
      then record s { adding = false; template_id = none }
      else s
  step (created_as name) s = rule_created s.stage name s
  step (create_refused refusal) s = rule_refused s.stage refusal s
  step (monitor_answered answer) s = applied s.stage answer s
  step (status_read has_rule) s = record s { has_rule = has_rule }

  unfoldable pub run : List Event → RuleStep → RuleStep
  run [] s = s
  run (e ∷ es) s = run es (step e s)

-- ===== src/Purchases/Page.antt =====
-- apps/web/src/pages/EconomiaPage.tsx: the list of the purchases, the form that is open, the deletion and
-- the dialog of the goal, with the calls that they make. The answers are those of `apiRequest`.
use teleyes.Common.{
  ℕ, suc, Bool, true, false, Option, none, some, List, [], ◌∷◌, ◌==◌, if◌then◌else◌, without_at,
}
use teleyes.Text.{Text}
use teleyes.Session.Http.{Outcome, returned}
use teleyes.Writes.Failures.{Shown, report_failure}
use teleyes.Purchases.Form.{PurchaseInput}

-- The fields of a purchase that the page reads to open it.
pub record Purchase : Type 0 where
  pub id : ℕ
  pub product_key : Option Text
  pub rule_id : Option ℕ

pub record Rule : Type 0 where
  pub id : ℕ
  pub name : Text

-- `PurchaseDraft`
pub record PurchaseDraft : Type 0 where
  pub name : Text
  pub price_cents : Option ℕ
  pub product_key : Option Text
  pub rule_id : Option ℕ
  pub link_label : Option Text

unfoldable pub empty_draft : PurchaseDraft
empty_draft = record {
  name = [];
  price_cents = none;
  product_key = none;
  rule_id = none;
  link_label = none;
}

pub data FormTarget : Type 0 where
  create : PurchaseDraft → FormTarget
  edit : Purchase → Option Text → FormTarget

pub record SavingsGoalInput : Type 0 where
  pub amount_cents : ℕ
  pub deadline : Text

pub data Call : Type 0 where
  create_purchase : PurchaseInput → Call
  update_purchase : ℕ → PurchaseInput → Call
  delete_purchase : ℕ → Call
  save_goal : SavingsGoalInput → Call
  delete_goal : Call

-- What an error line shows: the missing token, the list that failed to load, the text for a deletion of
-- a purchase or of the goal that failed, or what a save failed with.
pub data PageError : Type 0 where
  csrf_missing list_failed purchase_not_deleted goal_not_removed : PageError
  call_failed : Shown → PageError

-- The state of the page; `saving`, `removing` and `goal_calls` list the calls that are not answered,
-- `loads` the readings of the list that are out, `sent` the calls, the latest first.
pub record Page : Type 0 where
  pub csrf : Option ℕ
  pub purchases : List Purchase
  pub rules : List Rule
  pub loading : Bool
  pub loads : ℕ
  pub list_error : Option PageError
  pub form_target : Option FormTarget
  pub form_error : Option PageError
  pub submitting : Bool
  pub saving : List Call
  pub pending_delete : Option Purchase
  pub deleting : Bool
  pub removing : List Call
  pub goal_dialog : Bool
  pub goal_saving : Bool
  pub goal_error : Option PageError
  pub goal_calls : List Call
  pub sent : List Call

-- The first render, and its effects.
unfoldable pub mount : Option ℕ → Page
mount csrf = record {
  csrf = csrf;
  purchases = [];
  rules = [];
  loading = true;
  loads = 1;
  list_error = none;
  form_target = none;
  form_error = none;
  submitting = false;
  saving = [];
  pending_delete = none;
  deleting = false;
  removing = [];
  goal_dialog = false;
  goal_saving = false;
  goal_error = none;
  goal_calls = [];
  sent = [];
}

unfoldable pub reload : Page → Page
reload s = record s { loads = suc s.loads }

abbrev pub failed_with : Shown → Option PageError → Option PageError
failed_with [] old = old
failed_with (shown ∷ rest) old = some (call_failed (shown ∷ rest))

-- `reportFailure(error, message, set)`: the refusal of the demo sets nothing.
unfoldable pub report : Outcome → Option PageError → Option PageError
report outcome old = failed_with (report_failure outcome) old

abbrev pub text_for : PageError → Shown → Option PageError → Option PageError
text_for error [] old = old
text_for error (shown ∷ rest) old = some error

-- `reportFailure(error, text, set)` where the text is always the same.
unfoldable pub report_text : PageError → Outcome → Option PageError → Option PageError
report_text error outcome old = text_for error (report_failure outcome) old

unfoldable pub close_form : Page → Page
close_form s = record s { form_target = none; form_error = none }

abbrev pub find_rule : Option ℕ → List Rule → Option Rule
find_rule none rules = none
find_rule (some id) [] = none
find_rule (some id) (rule ∷ rules) = if rule.id == id then some rule else find_rule (some id) rules

abbrev pub name_of : Option Rule → Option Text
name_of none = none
name_of (some rule) = some rule.name

-- The label of the form that `openEdit` opens at once: the title of a product comes later.
abbrev pub first_label : Option Text → Option ℕ → List Rule → Option Text
first_label (some key) rule_id rules = none
first_label none rule_id rules = name_of (find_rule rule_id rules)

unfoldable pub open_edit : Purchase → Page → Page
open_edit purchase s = record s {
  form_target = some (edit purchase (first_label purchase.product_key purchase.rule_id s.rules));
  form_error = none;
}

-- The title of the product of the purchase `id` was read.
unfoldable pub take_label : ℕ → Text → Option FormTarget → Option FormTarget
take_label id title none = none
take_label id title (some (create draft)) = some (create draft)
take_label id title (some (edit purchase label)) =
    some (edit purchase (if purchase.id == id then some title else label))

abbrev pub save_call : FormTarget → PurchaseInput → Call
save_call (create draft) input = create_purchase input
save_call (edit purchase label) input = update_purchase purchase.id input

unfoldable pub submit_form : Option FormTarget → Option ℕ → PurchaseInput → Page → Page
submit_form none csrf input s = s
submit_form (some target) none input s = record s { form_error = some csrf_missing }
submit_form (some target) (some token) input s = record s {
  submitting = true;
  form_error = none;
  saving = save_call target input ∷ s.saving;
  sent = save_call target input ∷ s.sent;
}

-- The answer to a call that is out, by its place in the list.
unfoldable pub answer_save : Option Call → ℕ → Outcome → Page → Page
unfolding reload close_form
answer_save none n outcome s = s
answer_save (some call) n (returned body) s = record (reload (close_form s)) {
  submitting = false;
  saving = without_at n s.saving;
}
answer_save (some call) n outcome s = record s {
  form_error = report outcome s.form_error;
  submitting = false;
  saving = without_at n s.saving;
}

unfoldable pub confirm_delete : Option Purchase → Option ℕ → Page → Page
confirm_delete none csrf s = s
confirm_delete (some purchase) none s = record s {
  list_error = some csrf_missing;
  pending_delete = none;
}
confirm_delete (some purchase) (some token) s = record s {
  deleting = true;
  removing = delete_purchase purchase.id ∷ s.removing;
  sent = delete_purchase purchase.id ∷ s.sent;
}

unfoldable pub answer_delete : Option Call → ℕ → Outcome → Page → Page
unfolding reload
answer_delete none n outcome s = s
answer_delete (some call) n (returned body) s = record (reload s) {
  pending_delete = none;
  deleting = false;
  removing = without_at n s.removing;
}
answer_delete (some call) n outcome s = record s {
  pending_delete = none;
  list_error = report_text purchase_not_deleted outcome s.list_error;
  deleting = false;
  removing = without_at n s.removing;
}

-- ===== src/Purchases/Steps.antt =====
-- The dialog of the goal of apps/web/src/pages/EconomiaPage.tsx, and the events of the page.
use teleyes.Common.{
  ℕ, true, false, not, Option, none, some, List, [], ◌∷◌, ◌-◌, ◌||◌, ◌==◌, if◌then◌else◌, call_at,
  without_at,
}
use teleyes.Text.{Text}
use teleyes.Session.Http.{Outcome, returned}
use teleyes.Purchases.Form.{PurchaseInput}
use teleyes.Purchases.Page.{
  Purchase, Rule, PurchaseDraft, empty_draft, create, SavingsGoalInput, Call, save_goal,
  delete_goal, csrf_missing, list_failed, Page, reload, report, report_text, goal_not_removed,
  PageError, close_form, open_edit, take_label, submit_form, answer_save, confirm_delete,
  answer_delete,
}

unfoldable pub close_goal : Page → Page
close_goal s = record s { goal_dialog = false; goal_error = none }

unfoldable pub submit_goal : Option ℕ → SavingsGoalInput → Page → Page
submit_goal none input s = record s { goal_error = some csrf_missing }
submit_goal (some token) input s = record s {
  goal_saving = true;
  goal_error = none;
  goal_calls = save_goal input ∷ s.goal_calls;
  sent = save_goal input ∷ s.sent;
}

unfoldable pub remove_goal : Option ℕ → Page → Page
remove_goal none s = record s { goal_error = some csrf_missing }
remove_goal (some token) s = record s {
  goal_saving = true;
  goal_calls = delete_goal ∷ s.goal_calls;
  sent = delete_goal ∷ s.sent;
}

-- What the failure of a call of the dialog leaves in its error line.
unfoldable pub goal_failure : Call → Outcome → Option PageError → Option PageError
goal_failure delete_goal outcome old = report_text goal_not_removed outcome old
goal_failure call outcome old = report outcome old

unfoldable pub answer_goal : Option Call → ℕ → Outcome → Page → Page
unfolding reload close_goal goal_failure
answer_goal none n outcome s = s
answer_goal (some call) n (returned body) s = record (reload (close_goal s)) {
  goal_saving = false;
  goal_calls = without_at n s.goal_calls;
}
answer_goal (some call) n outcome s = record s {
  goal_error = goal_failure call outcome s.goal_error;
  goal_saving = false;
  goal_calls = without_at n s.goal_calls;
}

-- The answer to a reading of the list and the report; none is a failure.
unfoldable pub answer_load : Option (List Purchase) → Page → Page
answer_load none s = record s {
  loads = s.loads - 1;
  list_error = some list_failed;
  loading = false;
}
answer_load (some purchases) s = record s {
  loads = s.loads - 1;
  purchases = purchases;
  list_error = none;
  loading = false;
}

pub data Event : Type 0 where
  loaded : Option (List Purchase) → Event
  rules_loaded : Option (List Rule) → Event
  -- The link "Marcar como comprado".
  prefilled : PurchaseDraft → Event
  create_clicked form_cancelled : Event
  edit_clicked : Purchase → Event
  label_read : ℕ → Text → Event
  form_submitted : PurchaseInput → Event
  save_answered : ℕ → Outcome → Event
  delete_clicked : Purchase → Event
  delete_cancelled delete_confirmed : Event
  delete_answered : ℕ → Outcome → Event
  goal_clicked goal_cancelled : Event
  goal_submitted : SavingsGoalInput → Event
  goal_removed : Event
  goal_answered : ℕ → Outcome → Event
  csrf_changed : Option ℕ → Event

abbrev pub or_no_rules : Option (List Rule) → List Rule
or_no_rules none = []
or_no_rules (some rules) = rules

-- The buttons of a form or a dialog whose call is out are disabled.
unfoldable pub step : Event → Page → Page
unfolding close_form open_edit take_label submit_form answer_save confirm_delete answer_delete
    close_goal submit_goal remove_goal answer_goal answer_load
step (loaded answer) s = if s.loads == 0 then s else answer_load answer s
step (rules_loaded answer) s = record s { rules = or_no_rules answer }
step (prefilled draft) s = record s { form_target = some (create draft); form_error = none }
step create_clicked s = record s { form_target = some (create empty_draft); form_error = none }
step form_cancelled s = if s.submitting then s else close_form s
step (edit_clicked purchase) s = open_edit purchase s
step (label_read id title) s = record s { form_target = take_label id title s.form_target }
step (form_submitted input) s = if s.submitting then s else submit_form s.form_target s.csrf input s
step (save_answered n outcome) s = answer_save (call_at n s.saving) n outcome s
step (delete_clicked purchase) s = record s { pending_delete = some purchase }
step delete_cancelled s = if s.deleting then s else record s { pending_delete = none }
step delete_confirmed s = if s.deleting then s else confirm_delete s.pending_delete s.csrf s
step (delete_answered n outcome) s = answer_delete (call_at n s.removing) n outcome s
step goal_clicked s = record s { goal_dialog = true }
step goal_cancelled s = if s.goal_saving then s else close_goal s
step (goal_submitted input) s =
    if not s.goal_dialog || s.goal_saving then s else submit_goal s.csrf input s
step goal_removed s = if not s.goal_dialog || s.goal_saving then s else remove_goal s.csrf s
step (goal_answered n outcome) s = answer_goal (call_at n s.goal_calls) n outcome s
step (csrf_changed csrf) s = record s { csrf = csrf }

unfoldable pub run : List Event → Page → Page
run [] s = s
run (e ∷ es) s = run es (step e s)

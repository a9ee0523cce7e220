-- ===== src/Listener/View.antt =====
-- apps/web/src/components/listenerState.ts: the readings of the listener's status that Regras and
-- Saúde share. A detail names its sentence and keeps the raw instants: their wording as text of the
-- clock is not modelled.
use teleyes.Common.{
  ℕ, ◌≡◌, ◌≢◌, ◌↔◌, ◌⊎◌, Bool, true, false, Option, none, some, ◌∷◌, ◌++◌, ltb, ◌==◌, if◌then◌else◌,
  arith,
}
use teleyes.Text.{Text, codes}
use teleyes.Listener.Poll.{idle, pending, applying, failed, ListenerStatus, in_flight}

-- The four pairs of a text colour and a dot.
pub data StateColor : Type 0 where
  neutral good warn danger : StateColor

-- `label`, with `shortLabel` of the same state.
pub data Label : Type 0 where
  is_applying waiting failed_to_apply changes_pending no_signal rules_applied : Label

-- `detail`: which sentence, with the moments and counts in it.
pub data Detail : Type 0 where
  rereading : Detail
  requested : Option ℕ → Bool → Detail
  failure : Option ℕ → Detail
  old_configuration : Option ℕ → Detail
  silent : Detail
  in_use : Detail
  applied : ℕ → Text → Detail

pub record ListenerView : Type 0 where
  pub label : Label
  pub color : StateColor
  pub busy : Bool
  pub needs_apply : Bool
  pub failed : Bool
  pub detail : Detail

-- `to_string` is `String` of a number in a template.
module _ (to_string : ℕ → Text) where
  unfoldable pub plural : ℕ → Text → Text → Text
  plural count one many = if count == 1 then codes "1 " ++ one else to_string count ++ b' ' ∷ many

  abbrev pub loaded : Option ℕ → Option ℕ → Option ℕ → Option Text
  loaded (some sources) (some rules) (some recipients) = some (
      plural sources (codes "fonte") (codes "fontes")
      ++ (codes " · "
          ++ (plural rules (codes "regra") (codes "regras")
              ++ (codes " · "
                  ++ plural recipients (codes "destinatário") (codes "destinatários")))))
  loaded _ _ _ = none

  unfoldable pub describe_loaded : ListenerStatus → Option Text
  describe_loaded status = loaded status.sources_loaded status.rules_loaded status.recipients_loaded

  abbrev pub or_text : Option Text → Text → Text
  or_text none text = text
  or_text (some text) other = text

  abbrev pub history_text : Option ℕ → Option Text → Text
  history_text none described = or_text described (codes "configuração carregada")
  history_text (some found) described =
      if found == 0
      then codes "nenhum match novo no histórico"
      else plural found (codes "match novo") (codes "matches novos") ++ codes " no histórico"

  abbrev pub or_zero : Option ℕ → ℕ
  or_zero none = 0
  or_zero (some n) = n

  unfoldable pub describe_history : ListenerStatus → Text
  unfolding describe_loaded
  describe_history status =
      let text = history_text status.new_matches (describe_loaded status) in
      let failures = or_zero status.scan_failures in
      if ltb 0 failures
      then text
        ++ (codes " · histórico incompleto em " ++ plural failures (codes "fonte") (codes "fontes"))
      else text

  abbrev pub applied_detail : Option ℕ → Text → Detail
  applied_detail none history = in_use
  applied_detail (some moment) history = applied moment history

  -- The readings behind `applying`, `pending` and `failed`.
  abbrev pub view_at_rest : ListenerStatus → ListenerView
  view_at_rest status =
      if status.has_unapplied_changes
      then record {
        label = changes_pending;
        color = warn;
        busy = false;
        needs_apply = true;
        failed = false;
        detail = old_configuration status.reload_applied_at;
      }
      else if status.listener_online
      then record {
        label = rules_applied;
        color = good;
        busy = false;
        needs_apply = false;
        failed = false;
        detail = applied_detail status.reload_applied_at (describe_history status);
      }
      else record {
        label = no_signal;
        color = neutral;
        busy = false;
        needs_apply = false;
        failed = false;
        detail = silent;
      }

  unfoldable pub describe_listener : ListenerStatus → ListenerView
  describe_listener status = elim status.state [
    | applying ↦ record {
      label = is_applying;
      color = warn;
      busy = true;
      needs_apply = true;
      failed = false;
      detail = rereading;
    }
    | pending ↦ record {
      label = waiting;
      color = warn;
      busy = true;
      needs_apply = true;
      failed = false;
      detail = requested status.reload_requested_at status.listener_online;
    }
    | failed ↦ record {
      label = failed_to_apply;
      color = danger;
      busy = false;
      needs_apply = true;
      failed = true;
      detail = failure status.error;
    }
    | idle ↦ view_at_rest status
  ]

pub data ButtonLabel : Type 0 where
  applying_label retry_label apply_label : ButtonLabel

unfoldable pub apply_button_label : ListenerView → ButtonLabel
apply_button_label view =
    if view.busy then applying_label else if view.failed then retry_label else apply_label

pub data SettledToast : Type 0 where
  -- The tone `error`, with the cause.
  failed_toast : Option ℕ → SettledToast
  -- The tone `success`, with the history.
  success_toast : Text → SettledToast

unfoldable pub settled_toast : (ℕ → Text) → ListenerStatus → SettledToast
settled_toast to_string status = elim status.state [
  | failed ↦ failed_toast status.error
  | _ ↦ success_toast (describe_history to_string status)
]

-- When the button is offered as the main action, and when it is disabled, in terms of the status.
pub describe_listener_actions :
    (to_string : ℕ → Text) (status : ListenerStatus)
    → let view = describe_listener to_string status in
      ((view.busy ≡ true) ↔ (in_flight (some status.state) ≡ true))
      × ((view.needs_apply ≡ true)
          ↔ ((status.state ≢ idle) ⊎ (status.has_unapplied_changes ≡ true)))
      × ((view.failed ≡ true) ↔ (status.state ≡ failed))
      × ((view.label ≡ rules_applied) ↔ (
          (status.state ≡ idle)
          × (status.has_unapplied_changes ≡ false)
          × (status.listener_online ≡ true)))
unfolding describe_listener
describe_listener_actions to_string status = ground arith

-- The button reads "Tentar de novo" exactly after a failure, when the toast reports one.
pub apply_button_label-settled :
    (to_string : ℕ → Text) (status : ListenerStatus)
    → ((apply_button_label (describe_listener to_string status) ≡ retry_label)
        ↔ (status.state ≡ failed))
      × ((settled_toast to_string status ≡ failed_toast status.error) ↔ (status.state ≡ failed))
unfolding describe_listener apply_button_label settled_toast
apply_button_label-settled to_string status = ground arith

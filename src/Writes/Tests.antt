-- ===== src/Writes/Tests.antt =====
-- Runs of the writes: a deletion, the handlers of the feed and the correction of a match.
use teleyes.Common.{
  ◌≡◌, ◌+◌, ◌⊎◌, refl, true, false, none, some, List, [], ◌∷◌, ◌++◌, length, All, if◌then◌else◌,
}
use teleyes.Text.{codes}
use teleyes.Session.Http.{Outcome, plain_detail, thrown}
use teleyes.Feed.Toast.{ToastTone}
use teleyes.Writes.Failures.{snooze_removed, report_failure}
use teleyes.Writes.Deletion
use teleyes.Writes.Deletion.{Deletion, Target}
use teleyes.Writes.DeletionLaws.{IsOrderly, is_gone, run-IsOrderly, answer_told}
use teleyes.Writes.Actions
use teleyes.Writes.Actions.{
  Effect, Loaded, Snooze, find_snooze, perform, handle_set_target, handle_card_snooze, attempt,
  report_error,
}
use teleyes.Writes.ActionsLaws.{IsTold, perform-IsTold}
use teleyes.Writes.SnoozeLaws.{IsListed, IsFor, card_snooze_lifts}
use teleyes.Writes.Editor
use teleyes.Writes.Editor.{Editor, EditableMatch}
use teleyes.Writes.EditorLaws.{IsValid, run-IsValid}

-- A deletion is confirmed twice, and another match is asked for before the answer.
abbrev deletion_events : List Deletion.Event
deletion_events =
    Deletion.Event.asked (Target.match_target 4)
    ∷ Deletion.Event.confirmed
    ∷ Deletion.Event.confirmed
    ∷ Deletion.Event.asked (Target.match_target 5)
    ∷ []

abbrev deletion : Deletion
deletion = Deletion.run deletion_events (Deletion.opened (some 1))

deletion_runs :
    (deletion.out ≡ Target.match_target 4 ∷ []) × (deletion.sent ≡ Target.match_target 4 ∷ [])
unfolding Deletion.run Deletion.step Deletion.opened
deletion_runs = (refl, refl)

run-IsOrderly_example : IsOrderly deletion
run-IsOrderly_example = run-IsOrderly deletion_events (some 1)

abbrev not_found : Outcome
not_found = thrown (plain_detail (codes "Not Found")) 404

answer_told_example :
    let t = Deletion.step (Deletion.Event.answered 0 not_found) deletion in
    (t.busy ≡ false)
    × (t.out ≡ [])
    × (((is_gone not_found ≡ true)
          × (t.target ≡ none)
          × (t.deleted ≡ Target.match_target 4 ∷ deletion.deleted)
          × (length t.toasts ≡ length deletion.toasts + 1))
        ⊎ ((is_gone not_found ≡ false)
            × (t.target ≡ deletion.target)
            × (t.deleted ≡ deletion.deleted)
            × (t.toasts ≡ report_failure not_found ++ deletion.toasts)))
unfolding Deletion.run Deletion.step Deletion.opened
answer_told_example = answer_told deletion (Target.match_target 4) 0 not_found refl

abbrev rule_snooze : Snooze
rule_snooze = record { id = 9; scope = Actions.SnoozeScope.rule_scope; product_key = none }

abbrev page : Loaded
page = record { csrf = some 1; snoozes = rule_snooze ∷ []; group_duplicates = none; digest = none }

target_runs :
    perform (Actions.Action.set_target 3 9000) page not_found
    ≡ Effect.called (Actions.Call.update_target 3 9000) ∷ report_error not_found
unfolding perform handle_set_target attempt
target_runs = refl

perform-IsTold_example :
    IsTold (some 1) not_found (perform (Actions.Action.set_target 3 9000) page not_found)
perform-IsTold_example = perform-IsTold (Actions.Action.set_target 3 9000) page not_found

abbrev told : List Effect
told = Effect.shown snooze_removed ToastTone.success ∷ Effect.snoozes_loaded ∷ Effect.refreshed ∷ []

snooze_runs : perform (Actions.Action.card_snooze true (some (codes "mouse"))) page not_found ≡ told
unfolding perform handle_card_snooze find_snooze
snooze_runs = refl

card_snooze_lifts_example :
    let done = perform (Actions.Action.card_snooze true (some (codes "mouse"))) page not_found in
    ((s : Snooze) × IsListed s page.snoozes
      × IsFor (codes "mouse") s
      × (done
          ≡ Effect.called (Actions.Call.reactivate_snooze s.id)
            ∷ (if Actions.is_ok not_found then told else report_error not_found)))
    ⊎ (All (λ s. ¬ IsFor (codes "mouse") s) page.snoozes × (done ≡ told))
card_snooze_lifts_example = card_snooze_lifts page 1 (codes "mouse") not_found refl

abbrev mouse : EditableMatch
mouse = record {
  id = 4;
  price_cents = some 9990;
  display_name = none;
  price_is_manual = false;
  has_model_variant = false;
}

-- A name that is too short, then one with a blank behind it, submitted twice.
abbrev editor_events : List Editor.Event
editor_events =
    Editor.Event.name_typed (codes "ab ")
    ∷ Editor.Event.submitted
    ∷ Editor.Event.name_typed (codes "Mouse 2 ")
    ∷ Editor.Event.submitted
    ∷ Editor.Event.submitted
    ∷ []

run-IsValid_example :
    IsValid (Editor.run mouse editor_events (Editor.opened (some 1) mouse (codes "Mouse")))
run-IsValid_example = run-IsValid (some 1) mouse (codes "Mouse") editor_events

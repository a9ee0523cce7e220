-- ===== src/Writes/ActionsLaws.antt =====
-- What the handlers of the feed send, and how they tell of it.
use teleyes.Common.{
  ℕ, ◌≡◌, refl, inl, inr, Bool, true, false, not, Option, none, some, List, [], ◌∷◌, map,
  Bool-cases,
}
use teleyes.Text.{Text}
use teleyes.Session.Http.{Outcome}
use teleyes.Feed.Toast.{ToastTone}
use teleyes.Writes.Failures.{
  Shown, csrf_missing, snooze_removed, product_snoozed, reactivated, target_saved, report_failure,
}
use teleyes.Writes.Actions.{
  Snooze, Digest, DigestPatch, Call, reactivate_snooze, snooze_product, update_target, update_feed,
  update_digest, Effect, called, shown, rules_loaded, refreshed, feed_settings_set, digest_set,
  is_ok, report_error, require_csrf, attempt, find_snooze, snooze_done, lift_snooze,
  handle_card_snooze, handle_toggle_group_duplicates, patched, save_digest, Action, Loaded, perform,
  card_snooze,
}

-- A list of effects that begins with a call which failed goes on with its report and nothing else.
abbrev IsReported : Outcome → List Effect → Type 0
IsReported outcome [] = Unit
IsReported outcome (called call ∷ rest) = is_ok outcome ≡ false → rest ≡ report_error outcome
IsReported outcome (e ∷ rest) = Unit

-- No effect of the list is a call.
abbrev IsQuiet : List Effect → Type 0
IsQuiet [] = Unit
IsQuiet (called call ∷ rest) = ⊥
IsQuiet (e ∷ rest) = IsQuiet rest

-- At most the first effect is a call.
abbrev IsSingle : List Effect → Type 0
IsSingle [] = Unit
IsSingle (e ∷ rest) = IsQuiet rest

shown-IsQuiet : (toasts : Shown) → IsQuiet (map (λ toast. shown toast.0 toast.1) toasts)
shown-IsQuiet [] = tt
shown-IsQuiet (t ∷ toasts) = shown-IsQuiet toasts

report_error-IsQuiet : (outcome : Outcome) → IsQuiet (report_error outcome)
unfolding report_error
report_error-IsQuiet outcome = shown-IsQuiet (report_failure outcome)

-- One call at most, its failure told as `reportFailure` tells it, and nothing without a token.
pub record IsTold (csrf : Option ℕ) (outcome : Outcome) (effects : List Effect) : Type 0 where
  pub single : IsSingle effects
  pub reported : IsReported outcome effects
  pub guarded : csrf ≡ none → effects ≡ shown csrf_missing ToastTone.error ∷ []

require_csrf-IsTold :
    (csrf : Option ℕ) (outcome : Outcome) (rest : List Effect)
    → IsSingle rest
    → IsReported outcome rest
    → IsTold csrf outcome (require_csrf csrf rest)
unfolding require_csrf
require_csrf-IsTold none outcome rest s r = record {
  single = tt;
  reported = tt;
  guarded = λ e. refl;
}
require_csrf-IsTold (some token) outcome rest s r = record {
  single = s;
  reported = r;
  guarded = λ e. absurd (cc);
}

attempt-IsSingle :
    (call : Call) (outcome : Outcome) (rest : List Effect)
    → IsQuiet rest
    → IsSingle (attempt call outcome rest)
unfolding attempt
attempt-IsSingle call outcome rest q = elim (Bool-cases (is_ok outcome)) [
  | inl e ↦ rw e q
  | inr e ↦ rw e (report_error-IsQuiet outcome)
]

attempt-IsReported :
    (call : Call) (outcome : Outcome) (rest : List Effect)
    → IsReported outcome (attempt call outcome rest)
unfolding attempt
attempt-IsReported call outcome rest e = rw e refl

attempt-IsTold :
    (csrf : Option ℕ) (call : Call) (outcome : Outcome) (rest : List Effect)
    → IsQuiet rest
    → IsTold csrf outcome (require_csrf csrf (attempt call outcome rest))
attempt-IsTold csrf call outcome rest q =
    require_csrf-IsTold csrf outcome (attempt call outcome rest)
      (attempt-IsSingle call outcome rest q) (attempt-IsReported call outcome rest)

lift_snooze-IsTold :
    (csrf : Option ℕ) (existing : Option Snooze) (outcome : Outcome)
    → IsTold csrf outcome (require_csrf csrf (lift_snooze existing outcome))
lift_snooze-IsTold csrf none outcome =
    require_csrf-IsTold csrf outcome (snooze_done snooze_removed) tt tt
lift_snooze-IsTold csrf (some existing) outcome =
    attempt-IsTold csrf (reactivate_snooze existing.id) outcome (snooze_done snooze_removed) tt

card_snooze-IsTold :
    (csrf : Option ℕ) (snoozes : List Snooze) (snoozed : Bool) (key : Option Text)
    (outcome : Outcome)
    → IsTold csrf outcome (handle_card_snooze csrf snoozes snoozed key outcome)
unfolding handle_card_snooze
card_snooze-IsTold csrf snoozes snoozed none outcome = require_csrf-IsTold csrf outcome [] tt tt
card_snooze-IsTold csrf snoozes true (some key) outcome =
    lift_snooze-IsTold csrf (find_snooze key snoozes) outcome
card_snooze-IsTold csrf snoozes false (some key) outcome =
    attempt-IsTold csrf (snooze_product key 7) outcome (snooze_done product_snoozed) tt

grouping-IsTold :
    (csrf : Option ℕ) (grouped : Option Bool) (outcome : Outcome)
    → IsTold csrf outcome (handle_toggle_group_duplicates csrf grouped outcome)
unfolding handle_toggle_group_duplicates
grouping-IsTold csrf none outcome = require_csrf-IsTold csrf outcome [] tt tt
grouping-IsTold csrf (some grouped) outcome =
    attempt-IsTold csrf (update_feed (not grouped)) outcome (feed_settings_set ∷ refreshed ∷ []) tt

save_digest-IsTold :
    (csrf : Option ℕ) (digest : Option Digest) (patch : DigestPatch) (outcome : Outcome)
    → IsTold csrf outcome (save_digest csrf digest patch outcome)
unfolding save_digest
save_digest-IsTold csrf none patch outcome = require_csrf-IsTold csrf outcome [] tt tt
save_digest-IsTold csrf (some digest) patch outcome =
    attempt-IsTold csrf (update_digest (patched patch digest)) outcome (digest_set ∷ []) tt

-- Whatever write the feed asks for: at most one call is made, before everything else that the handler
-- does; where it fails, only the toasts of `reportFailure` follow, so nothing is loaded again and no
-- success is told; and without a token there is one error toast and nothing else.
pub perform-IsTold :
    (action : Action) (page : Loaded) (outcome : Outcome)
    → IsTold page.csrf outcome (perform action page outcome)
unfolding perform
perform-IsTold (card_snooze snoozed key) page outcome =
    card_snooze-IsTold page.csrf page.snoozes snoozed key outcome
perform-IsTold (Action.reactivate id) page outcome =
    attempt-IsTold page.csrf (reactivate_snooze id) outcome (snooze_done reactivated) tt
perform-IsTold (Action.set_target rule_id cents) page outcome =
    attempt-IsTold page.csrf (update_target rule_id cents) outcome
      (shown target_saved ToastTone.success ∷ rules_loaded ∷ refreshed ∷ []) tt
perform-IsTold Action.toggle_grouping page outcome =
    grouping-IsTold page.csrf page.group_duplicates outcome
perform-IsTold (Action.save patch) page outcome =
    save_digest-IsTold page.csrf page.digest patch outcome

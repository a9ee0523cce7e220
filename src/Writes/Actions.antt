-- ===== src/Writes/Actions.antt =====
-- The handlers of apps/web/src/pages/FeedPage.tsx that write: snooze, reactivate, target, grouping and
-- digest. A handler is the list of what it does, given the answer to the one call that it may make.
use teleyes.Common.{
  ℕ, Bool, true, false, not, ◌&&◌, Option, none, some, List, [], ◌∷◌, map, if◌then◌else◌,
}
use teleyes.Text.{Text, text_eq}
use teleyes.Session.Http.{Outcome, returned}
use teleyes.Feed.Toast.{ToastTone}
use teleyes.Writes.Failures.{
  Notice, csrf_missing, snooze_removed, product_snoozed, reactivated, target_saved, report_failure,
}

pub data SnoozeScope : Type 0 where
  product_scope rule_scope : SnoozeScope

pub record Snooze : Type 0 where
  pub id : ℕ
  pub scope : SnoozeScope
  pub product_key : Option Text

-- `DigestSettings`, the part that is written; the time is the text HH:MM.
pub record Digest : Type 0 where
  pub enabled : Bool
  pub send_at_local : Text
  pub top_n : ℕ
  pub mute_individual : Bool

pub record DigestPatch : Type 0 where
  pub enabled : Option Bool
  pub send_at_local : Option Text
  pub top_n : Option ℕ
  pub mute_individual : Option Bool

pub data Call : Type 0 where
  reactivate_snooze : ℕ → Call
  snooze_product : Text → ℕ → Call
  update_target : ℕ → ℕ → Call
  update_feed : Bool → Call
  update_digest : Digest → Call

pub data Effect : Type 0 where
  called : Call → Effect
  shown : Notice → ToastTone → Effect
  snoozes_loaded rules_loaded refreshed feed_settings_set digest_set : Effect

abbrev pub is_ok : Outcome → Bool
is_ok (returned body) = true
is_ok _ = false

-- `reportError`
unfoldable pub report_error : Outcome → List Effect
report_error outcome = map (λ toast. shown toast.0 toast.1) (report_failure outcome)

-- `requireCsrf`, with what follows where there is a token.
unfoldable pub require_csrf : Option ℕ → List Effect → List Effect
require_csrf none rest = shown csrf_missing ToastTone.error ∷ []
require_csrf (some token) rest = rest

-- `try { await call; rest } catch { reportError }`
unfoldable pub attempt : Call → Outcome → List Effect → List Effect
unfolding report_error
attempt call outcome rest = called call ∷ (if is_ok outcome then rest else report_error outcome)

abbrev pub key_is : Text → Option Text → Bool
key_is key none = false
key_is key (some other) = text_eq other key

abbrev pub is_product : SnoozeScope → Bool
is_product product_scope = true
is_product rule_scope = false

-- `snoozes.find(…)`
unfoldable pub find_snooze : Text → List Snooze → Option Snooze
find_snooze key [] = none
find_snooze key (s ∷ snoozes) =
    if is_product s.scope && key_is key s.product_key then some s else find_snooze key snoozes

-- What follows a successful change of a snooze.
abbrev pub snooze_done : Notice → List Effect
snooze_done notice = shown notice ToastTone.success ∷ snoozes_loaded ∷ refreshed ∷ []

abbrev pub lift_snooze : Option Snooze → Outcome → List Effect
lift_snooze none outcome = snooze_done snooze_removed
lift_snooze (some existing) outcome =
    attempt (reactivate_snooze existing.id) outcome (snooze_done snooze_removed)

-- `handleCardSnooze` of a card with its `snoozed` and its key.
unfoldable pub handle_card_snooze :
    Option ℕ → List Snooze → Bool → Option Text → Outcome → List Effect
unfolding require_csrf attempt find_snooze
handle_card_snooze csrf snoozes snoozed none outcome = require_csrf csrf []
handle_card_snooze csrf snoozes snoozed (some key) outcome = require_csrf csrf (
    if snoozed
    then lift_snooze (find_snooze key snoozes) outcome
    else attempt (snooze_product key 7) outcome (snooze_done product_snoozed))

unfoldable pub handle_reactivate_snooze : Option ℕ → ℕ → Outcome → List Effect
unfolding require_csrf attempt
handle_reactivate_snooze csrf id outcome =
    require_csrf csrf (attempt (reactivate_snooze id) outcome (snooze_done reactivated))

unfoldable pub handle_set_target : Option ℕ → ℕ → ℕ → Outcome → List Effect
unfolding require_csrf attempt
handle_set_target csrf rule_id target_cents outcome = require_csrf csrf (
    attempt (update_target rule_id target_cents) outcome
      (shown target_saved ToastTone.success ∷ rules_loaded ∷ refreshed ∷ []))

-- `handleToggleGroupDuplicates`, with the `group_duplicates` of the settings, if they are loaded.
unfoldable pub handle_toggle_group_duplicates : Option ℕ → Option Bool → Outcome → List Effect
unfolding require_csrf attempt
handle_toggle_group_duplicates csrf none outcome = require_csrf csrf []
handle_toggle_group_duplicates csrf (some grouped) outcome =
    require_csrf csrf
      (attempt (update_feed (not grouped)) outcome (feed_settings_set ∷ refreshed ∷ []))

abbrev pub or_else {ℓ} : {A : Type ℓ} → Option A → A → A
or_else none old = old
or_else (some new) old = new

unfoldable pub patched : DigestPatch → Digest → Digest
patched patch digest = record {
  enabled = or_else patch.enabled digest.enabled;
  send_at_local = or_else patch.send_at_local digest.send_at_local;
  top_n = or_else patch.top_n digest.top_n;
  mute_individual = or_else patch.mute_individual digest.mute_individual;
}

unfoldable pub save_digest : Option ℕ → Option Digest → DigestPatch → Outcome → List Effect
unfolding require_csrf attempt patched
save_digest csrf none patch outcome = require_csrf csrf []
save_digest csrf (some digest) patch outcome =
    require_csrf csrf (attempt (update_digest (patched patch digest)) outcome (digest_set ∷ []))

-- The handlers as one.
pub data Action : Type 0 where
  card_snooze : Bool → Option Text → Action
  reactivate : ℕ → Action
  set_target : ℕ → ℕ → Action
  toggle_grouping : Action
  save : DigestPatch → Action

-- What the page has loaded.
pub record Loaded : Type 0 where
  pub csrf : Option ℕ
  pub snoozes : List Snooze
  pub group_duplicates : Option Bool
  pub digest : Option Digest

unfoldable pub perform : Action → Loaded → Outcome → List Effect
unfolding handle_card_snooze handle_reactivate_snooze handle_set_target
    handle_toggle_group_duplicates save_digest
perform (card_snooze snoozed key) page outcome =
    handle_card_snooze page.csrf page.snoozes snoozed key outcome
perform (reactivate id) page outcome = handle_reactivate_snooze page.csrf id outcome
perform (set_target rule_id cents) page outcome = handle_set_target page.csrf rule_id cents outcome
perform toggle_grouping page outcome =
    handle_toggle_group_duplicates page.csrf page.group_duplicates outcome
perform (save patch) page outcome = save_digest page.csrf page.digest patch outcome

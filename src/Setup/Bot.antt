-- ===== src/Setup/Bot.antt =====
-- apps/web/src/setup/BotStep.tsx: the token of the alert bot, the link that pairs a recipient, and the
-- loop that waits for the /start. A run of the loop is named by the effect that started it.
use teleyes.Common.{
  ℕ, suc, ◌+◌, ◌-◌, Bool, true, false, not, ◌||◌, Option, none, some, List, [], ◌∷◌, ltb, ◌==◌,
  if◌then◌else◌,
}
use teleyes.Text.{Text, trim}
use teleyes.Setup.Validation.{Problem, validate_bot_token}
use teleyes.Setup.Timers.{Failure, lock_from, locked, error_message}

-- MIN_POLL_GAP_MS
abbrev pub min_poll_gap_ms : ℕ
min_poll_gap_ms = 1500

pub data BotError : Type 0 where
  field_problem : Problem → BotError
  csrf_missing : BotError
  failed_with : Option ℕ → BotError

pub data PairingNotice : Type 0 where
  -- The name of the recipient, if the answer has one.
  registered : Option ℕ → PairingNotice
  link_expired : PairingNotice

-- The link that is shown: its code and the seconds that it is good for.
pub record Pairing : Type 0 where
  pub code : ℕ
  pub expires_in_seconds : ℕ

-- What the loop waits for: the answer to a poll, the status that it reads last, or the pause.
pub data Wait : Type 0 where
  polling reading_status : Wait
  sleeping : ℕ → Wait

-- `csrf`, `configured` and `pairing_active` come from the page; `loop` is the run of the last effect;
-- `saved_tokens` lists the tokens that were sent, the latest first.
pub record BotStep : Type 0 where
  pub csrf : Option ℕ
  pub pairing_active : Bool
  pub token : Text
  pub error : Option BotError
  pub saving : Bool
  pub changing : Bool
  pub pairing : Option Pairing
  pub pairing_busy : Bool
  pub pairing_error : Option BotError
  pub pairing_notice : Option PairingNotice
  pub ignored : ℕ
  pub until : Option ℕ
  pub effect : ℕ
  pub loop : Option Wait
  pub saved_tokens : List Text

-- The body of the effect.
abbrev pub wait_for : Bool → Option ℕ → Option Wait
wait_for true (some token) = some polling
wait_for active csrf = none

-- The effect runs again; its cleanup cancels the old run.
unfoldable pub rerun : BotStep → BotStep
rerun s = record s { effect = suc s.effect; loop = wait_for s.pairing_active s.csrf }

abbrev pub bool_eq : Bool → Bool → Bool
bool_eq true b = b
bool_eq false b = not b

-- `onStatus` and the page's own readings: the effect depends on the flag alone.
unfoldable pub adopt : Bool → BotStep → BotStep
unfolding rerun
adopt active s =
    if bool_eq active s.pairing_active then s else rerun (record s { pairing_active = active })

unfoldable pub opened : Option ℕ → Bool → BotStep
opened csrf active = record {
  csrf = csrf;
  pairing_active = active;
  token = [];
  error = none;
  saving = false;
  changing = false;
  pairing = none;
  pairing_busy = false;
  pairing_error = none;
  pairing_notice = none;
  ignored = 0;
  until = none;
  effect = 0;
  loop = wait_for active csrf;
  saved_tokens = [];
}

pub data PollAnswer : Type 0 where
  waiting : ℕ → PollAnswer
  paired : Option ℕ → PollAnswer
  expired : PollAnswer
  poll_failed : Failure → PollAnswer

-- The answer to `pollPairing`, `elapsed` milliseconds after it was sent.
unfoldable pub on_poll : PollAnswer → ℕ → BotStep → BotStep
on_poll (waiting ignored_starts) elapsed s = record s {
  ignored = if ltb 0 ignored_starts then s.ignored + ignored_starts else s.ignored;
  loop = some (sleeping (min_poll_gap_ms - elapsed));
}
on_poll (paired name) elapsed s = record s {
  pairing = none;
  ignored = 0;
  pairing_notice = some (registered name);
  loop = some reading_status;
}
on_poll expired elapsed s = record s {
  pairing = none;
  pairing_notice = some link_expired;
  loop = some reading_status;
}
on_poll (poll_failed failure) elapsed s = record s {
  pairing = none;
  pairing_error = some (failed_with (error_message failure));
  loop = none;
}

-- The answer to `fetchSetupStatus`: the flag of the status, or what the call failed with.
pub data StatusAnswer : Type 0 where
  window : Bool → StatusAnswer
  status_failed : Failure → StatusAnswer

-- The loop's last reading of the status; where it fails the same `catch` takes it.
unfoldable pub on_last_status : StatusAnswer → BotStep → BotStep
unfolding adopt
on_last_status (window active) s = adopt active (record s { loop = none })
on_last_status (status_failed failure) s = record s {
  pairing = none;
  pairing_error = some (failed_with (error_message failure));
  loop = none;
}

unfoldable pub on_loop : Wait → Wait → (BotStep → BotStep) → BotStep → BotStep
on_loop polling polling f s = f s
on_loop reading_status reading_status f s = f s
on_loop (sleeping ms) (sleeping _) f s = f s
on_loop at expected f s = s

-- An answer for the run `effect`, which counts while that run is the last and waits for it. What a
-- cancelled run still hands to `onStatus` is a `status_read`.
abbrev pub for_run : ℕ → Wait → (BotStep → BotStep) → BotStep → BotStep
for_run effect expected f s =
    if effect == s.effect then elim s.loop [ none ↦ s | some at ↦ on_loop at expected f s ] else s

unfoldable pub submit_token : BotStep → BotStep
submit_token s = elim (validate_bot_token s.token) [
  | some problem ↦ record s { error = some (field_problem problem) }
  | none ↦ elim s.csrf [
    | none ↦ record s { error = some csrf_missing }
    | some token ↦ record s {
      saving = true;
      error = none;
      saved_tokens = trim s.token ∷ s.saved_tokens;
    }
  ]
]

unfoldable pub open_pairing : BotStep → BotStep
open_pairing s = elim s.csrf [
  | none ↦ record s { pairing_error = some csrf_missing }
  | some token ↦ record s {
    pairing_busy = true;
    pairing_error = none;
    pairing_notice = none;
    ignored = 0;
  }
]

pub data Event : Type 0 where
  token_typed : Text → Event
  -- The token is submitted at the moment given.
  token_submitted : ℕ → Event
  -- The answer to `saveBotToken`, with the flag of its status.
  token_saved : Bool → Event
  token_refused : Failure → ℕ → Event
  changing_set : Bool → Event
  polled : ℕ → PollAnswer → ℕ → Event
  last_status_read : ℕ → StatusAnswer → Event
  slept : ℕ → Event
  pairing_opened : Event
  -- The answer to `startPairing`, then that of the status it reads.
  pairing_started : Pairing → Event
  pairing_status_read : StatusAnswer → Event
  pairing_refused : Failure → Event
  status_read : Bool → Event
  csrf_changed : Option ℕ → Event

unfoldable pub step : Event → BotStep → BotStep
unfolding rerun adopt on_poll on_last_status on_loop submit_token open_pairing
step (token_typed text) s = record s { token = text }
step (token_submitted now) s = if s.saving || locked s.until now then s else submit_token s
step (token_saved active) s =
    adopt active (record s { token = []; changing = false; saving = false })
step (token_refused failure now) s = record s {
  until = lock_from failure now s.until;
  error = some (failed_with (error_message failure));
  saving = false;
}
step (changing_set changing) s = record s { changing = changing }
step (polled effect answer elapsed) s = for_run effect polling (on_poll answer elapsed) s
step (last_status_read effect answer) s = for_run effect reading_status (on_last_status answer) s
step (slept effect) s = for_run effect (sleeping 0) (λ t. record t { loop = some polling }) s
step pairing_opened s = if s.pairing_busy then s else open_pairing s
step (pairing_started pairing) s = record s { pairing = some pairing }
step (pairing_status_read (window active)) s = adopt active (record s { pairing_busy = false })
step (pairing_status_read (status_failed failure)) s = record s {
  pairing_error = some (failed_with (error_message failure));
  pairing_busy = false;
}
step (pairing_refused failure) s = record s {
  pairing_error = some (failed_with (error_message failure));
  pairing_busy = false;
}
step (status_read active) s = adopt active s
step (csrf_changed csrf) s = rerun (record s { csrf = csrf })

unfoldable pub run : List Event → BotStep → BotStep
run [] s = s
run (e ∷ es) s = run es (step e s)

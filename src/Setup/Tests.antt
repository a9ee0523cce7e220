-- ===== src/Setup/Tests.antt =====
-- Runs of the setup wizard.
use teleyes.Common.{
  ◌≡◌, ◌↔◌, ◌<◌, ◌+◌, ◌-◌, ◌*◌, ◌⊎◌, refl, true, false, none, some, List, [], ◌∷◌, arith,
}
use teleyes.Text.{Text, codes, trim, is_space}
use teleyes.Setup.Validation.{validate_phone, validate_login_code}
use teleyes.Setup.Timers.{
  Failure, api_error, error_message, locked, remaining, lock_from, lock_from-IsTimed,
}
use teleyes.Setup.Credentials
use teleyes.Setup.Credentials.{CredentialsStatus}
use teleyes.Setup.CredentialsLaws.{IsAcceptable, run-IsAcceptable}
use teleyes.Common.{All}
use teleyes.Setup.Groups
use teleyes.Setup.Groups.{GroupsStep}
use teleyes.Setup.GroupsLaws.{IsChosen, run-IsChosen}
use teleyes.Setup.Login
use teleyes.Setup.Login.{LoginStep, Request}
use teleyes.Setup.LoginLaws.{IsGuarded, run-IsGuarded, answer_clears}
use teleyes.Setup.Bot
use teleyes.Setup.Bot.{BotStep, Pairing}
use teleyes.Setup.BotLaws.{IsTold, step-IsTold, new_link_unwatched}
use teleyes.Setup.Status
use teleyes.Setup.Status.{SetupStatus, SetupStepId}

-- A wrong phone, the right one, a code that the server refuses for 30 seconds.
abbrev login_events : List Login.Event
login_events =
    Login.Event.phone_typed (codes "999")
    ∷ Login.Event.submitted (some 1) 0
    ∷ Login.Event.phone_typed (codes "+55 11 91234-5678")
    ∷ Login.Event.submitted (some 1) 0
    ∷ Login.Event.succeeded 0 Login.LoginState.awaiting_code
    ∷ Login.Event.code_typed (codes "12 345")
    ∷ Login.Event.submitted (some 1) 0
    ∷ []

abbrev login_step : LoginStep
login_step = Login.run login_events (Login.opened Login.LoginState.signed_out)

login_runs :
    (login_step.sent
      ≡ Request.submit_login_code (codes "12345")
        ∷ Request.start_login (codes "+5511912345678")
        ∷ [])
    × (login_step.busy ≡ true)
unfolding Login.run Login.step Login.opened Login.succeed locked validate_phone validate_login_code
    is_space
login_runs = (refl, refl)

run-IsGuarded_example : IsGuarded login_step
run-IsGuarded_example = run-IsGuarded login_events Login.LoginState.signed_out

answer_clears_example :
    let done = Login.step (Login.Event.succeeded 0 Login.LoginState.authorized) login_step in
    let refused = Login.step (Login.Event.failed 0 (api_error 429 1 (some 30)) 1000) login_step in
    (done.code ≡ [])
    × (done.password ≡ [])
    × (done.busy ≡ false)
    × (done.state ≡ Login.LoginState.authorized)
    × (done.phone ≡ login_step.phone)
    × (refused.password ≡ [])
    × (refused.code ≡ login_step.code)
    × (refused.phone ≡ login_step.phone)
    × (refused.state ≡ login_step.state)
    × (refused.busy ≡ false)
    × (refused.error ≡ some (Login.Notice.failed_with (some 1)))
    × ((locked (lock_from (api_error 429 1 (some 30)) 1000 none) 30_999 ≡ false)
        ⊎ (Login.step (Login.Event.submitted (some 1) 30_999) refused ≡ refused))
unfolding Login.run Login.step Login.opened Login.succeed locked validate_phone validate_login_code
    is_space error_message
answer_clears_example =
    answer_clears login_step 0 (Request.submit_login_code (codes "12345"))
      Login.LoginState.authorized (api_error 429 1 (some 30)) 1000 30_999 (some 1) refl

-- The window is open; a poll of the loop fails.
abbrev bot_step : BotStep
bot_step = Bot.opened (some 7) true

abbrev bot_failed : BotStep
bot_failed =
    Bot.step (Bot.Event.polled 0 (Bot.PollAnswer.poll_failed Failure.other_error) 10) bot_step

bot_step-IsTold : IsTold bot_step
unfolding Bot.opened
bot_step-IsTold = ground arith

step-IsTold_example : IsTold bot_failed
step-IsTold_example =
    step-IsTold (Bot.Event.polled 0 (Bot.PollAnswer.poll_failed Failure.other_error) 10) bot_step
      refl bot_step-IsTold

abbrev new_link : Pairing
new_link = record { code = 5; expires_in_seconds = 600 }

new_link_unwatched_example :
    let t = Bot.step (Bot.Event.pairing_status_read (Bot.StatusAnswer.window true)) (
      Bot.step
        (Bot.Event.pairing_started new_link)
        (Bot.step Bot.Event.pairing_opened bot_failed)) in
    (t.loop ≡ none)
    × (t.pairing ≡ some new_link)
    × (t.pairing_active ≡ true)
    × (t.pairing_error ≡ none)
    × (t.pairing_notice ≡ none)
unfolding Bot.step Bot.opened
new_link_unwatched_example = new_link_unwatched bot_failed new_link 7 refl refl refl refl

-- The first reading fails, the second one answers after the page was left.
abbrev status_events : List Status.Event
status_events =
    Status.Event.answered (Status.Answer.refused Failure.other_error)
    ∷ Status.Event.interval_fired
    ∷ Status.Event.unmounted
    ∷ Status.Event.answered (Status.Answer.refused (api_error 404 2 none))
    ∷ []

lock_from-IsTimed_example :
    ((locked (lock_from (api_error 429 1 (some 30)) 1000 none) 20_000 ≡ true)
      ↔ (20_000 < 1000 + 30 * 1000))
    × (remaining (lock_from (api_error 429 1 (some 30)) 1000 none) (1000 + 4 * 1000) ≡ 30 - 4)
    × (lock_from (api_error 429 1 none) 1000 none ≡ none)
    × (lock_from Failure.other_error 1000 none ≡ none)
lock_from-IsTimed_example = lock_from-IsTimed 429 1 30 1000 20_000 4 none (omega arith)

abbrev no_credentials : CredentialsStatus
no_credentials = record { from_env = false; configured = false; session_exists = false }

-- The hash is too short at first.
abbrev credentials_events : List Credentials.Event
credentials_events =
    Credentials.Event.api_id_typed (codes " 1234567 ")
    ∷ Credentials.Event.api_hash_typed (codes "abc")
    ∷ Credentials.Event.submitted (some 1)
    ∷ Credentials.Event.api_hash_typed (codes "0123456789abcdef0123456789ABCDEF")
    ∷ Credentials.Event.submitted (some 1)
    ∷ []

run-IsAcceptable_example :
    All IsAcceptable (Credentials.run credentials_events (Credentials.opened no_credentials)).sent
run-IsAcceptable_example = run-IsAcceptable no_credentials credentials_events

abbrev same : Text → Text
same text = text

abbrev account : Groups.Groups
account = record {
  state = Groups.GroupsState.listed;
  dialogs =
      record { chat_id = 4; title = codes "Promos"; monitored = false }
      ∷ record { chat_id = 5; title = codes "Ofertas"; monitored = false }
      ∷ [];
}

-- The list is read, a group chosen and sent.
abbrev groups_events : List Groups.Event
groups_events =
    Groups.Event.loaded (record account { state = Groups.GroupsState.running })
    ∷ Groups.Event.timer_fired
    ∷ Groups.Event.loaded account
    ∷ Groups.Event.toggled 4
    ∷ Groups.Event.save_clicked
    ∷ []

abbrev groups_step : GroupsStep
groups_step = Groups.run same groups_events (Groups.opened (some 1) true)

groups_runs : (groups_step.sent ≡ (4 ∷ []) ∷ []) × (groups_step.timer ≡ false)
unfolding Groups.run Groups.step Groups.opened trim is_space
groups_runs = (refl, refl)

run-IsChosen_example : IsChosen groups_step
run-IsChosen_example = run-IsChosen same (some 1) true groups_events

-- ===== src/Setup/Status.antt =====
-- apps/web/src/hooks/useSetupStatus.ts, and apps/web/src/pages/ConfiguracaoPage.tsx, which shows the
-- steps of the status that the hook holds.
use teleyes.Common.{
  ℕ, suc, ◌-◌, Bool, true, false, ◌&&◌, Option, none, some, List, [], ◌∷◌, ltb, ◌==◌, if◌then◌else◌,
}
use teleyes.Setup.Timers.{Failure, api_error, other_error}

pub data SetupStepId : Type 0 where
  credentials_id login_id bot_id recipient_id groups_id rule_id done_id : SetupStepId

-- The fields of `SetupStatus` that the page reads for the states of its steps.
pub record SetupStatus : Type 0 where
  pub credentials_step : Bool
  pub login_step : Bool
  pub bot_step : Bool
  pub recipient_step : Bool
  pub groups_step : Bool
  pub rule_step : Bool
  pub next_step : SetupStepId
  pub complete : Bool

pub data SetupUnavailable : Type 0 where
  demo missing : SetupUnavailable

-- The state of the hook; `reading` is the number of the requests that are not answered, `interval`
-- says whether the timer of the polling runs.
pub record SetupHook : Type 0 where
  pub status : Option SetupStatus
  pub loading : Bool
  pub error : Bool
  pub unavailable : Option SetupUnavailable
  pub alive : Bool
  pub reading : ℕ
  pub interval : Bool

unfoldable pub load : SetupHook → SetupHook
load h = record h { reading = suc h.reading }

-- The first render, and the effect of `[load, pollMs]`.
unfoldable pub mount : ℕ → SetupHook
mount poll_ms = record {
  status = none;
  loading = true;
  error = false;
  unavailable = none;
  alive = true;
  reading = 1;
  interval = ltb 0 poll_ms;
}

-- The handlers of a request: `then` or `catch`, and `finally`.
unfoldable pub take_status : SetupStatus → SetupHook → SetupHook
take_status next h = record h { status = some next; error = false; unavailable = none }

unfoldable pub take_failure : Failure → SetupHook → SetupHook
take_failure (api_error status message retry) h =
    if status == 403
    then record h { unavailable = some demo }
    else if status == 404
    then record h { unavailable = some missing }
    else record h { error = true }
take_failure other_error h = record h { error = true }

pub data Answer : Type 0 where
  read : SetupStatus → Answer
  refused : Failure → Answer

unfoldable pub settle : Answer → SetupHook → SetupHook
unfolding take_status take_failure
settle (read next) h = record (take_status next h) { loading = false }
settle (refused failure) h = record (take_failure failure h) { loading = false }

-- An answer to one of the requests that are out.
unfoldable pub answer : Answer → SetupHook → SetupHook
unfolding settle
answer a h =
    let left = record h { reading = h.reading - 1 } in
    if h.reading == 0 then h else if h.alive then settle a left else left

pub data Event : Type 0 where
  answered : Answer → Event
  interval_fired : Event
  refreshed : Event
  applied : SetupStatus → Event
  -- `pollMs` changes: the cleanup of the old effect and the new effect.
  repaced : ℕ → Event
  unmounted : Event

unfoldable pub step : Event → SetupHook → SetupHook
unfolding answer load take_status
step (answered a) h = answer a h
step interval_fired h = if h.interval then load h else h
step refreshed h = load h
step (applied next) h = take_status next h
step (repaced poll_ms) h = record (load h) { alive = true; interval = ltb 0 poll_ms }
step unmounted h = record h { alive = false; interval = false }

unfoldable pub run : List Event → SetupHook → SetupHook
run [] h = h
run (e ∷ es) h = run es (step e h)

-- The page.
pub data StepKey : Type 0 where
  credentials login bot groups rule done : StepKey

pub StepKey-discrete : Discrete StepKey
StepKey-discrete = hlevel

unfoldable pub current_step : SetupStepId → StepKey
current_step credentials_id = credentials
current_step login_id = login
current_step bot_id = bot
current_step recipient_id = bot
current_step groups_id = groups
current_step rule_id = rule
current_step done_id = done

pub data StepState : Type 0 where
  finished current todo : StepState

-- The record `done` of `stepStates`.
unfoldable pub is_done : SetupStatus → StepKey → Bool
is_done status credentials = status.credentials_step
is_done status login = status.login_step
is_done status bot = status.bot_step && status.recipient_step
is_done status groups = status.groups_step
is_done status rule = status.rule_step
is_done status done = status.complete

abbrev pub key_eq : StepKey → StepKey → Bool
key_eq credentials credentials = true
key_eq login login = true
key_eq bot bot = true
key_eq groups groups = true
key_eq rule rule = true
key_eq done done = true
key_eq _ _ = false

unfoldable pub step_states : SetupStatus → StepKey → StepState
unfolding is_done current_step
step_states status key =
    if is_done status key
    then finished
    else if key_eq key (current_step status.next_step)
    then current
    else todo

-- `chosen`: the server's step, none, or the user's own choice.
pub data Chosen : Type 0 where
  follow closed : Chosen
  picked : StepKey → Chosen

unfoldable pub is_open : Chosen → SetupStatus → StepKey → Bool
unfolding current_step
is_open follow status key = key_eq (current_step status.next_step) key
is_open closed status key = false
is_open (picked chosen) status key = key_eq chosen key

-- `onToggle` of a step.
unfoldable pub toggle : Chosen → SetupStatus → StepKey → Chosen
unfolding is_open
toggle chosen status key = if is_open chosen status key then closed else picked key

-- `handleStatus` of a step: the status is applied, and the page moves on unless the step stays.
unfoldable pub handle_status :
    SetupStatus → StepKey → Bool → SetupHook × Chosen → SetupHook × Chosen
unfolding take_status
handle_status next key stay (h, choice) = (take_status next h, if stay then picked key else follow)

-- The steps are shown where there is a status and nothing says that the wizard is unavailable.
abbrev pub shows_steps : SetupHook → Bool
shows_steps h = elim h.status [
  | none ↦ false
  | some status ↦ elim h.unavailable [ none ↦ true | some why ↦ false ]
]

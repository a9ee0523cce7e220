-- ===== src/Setup/Login.antt =====
-- apps/web/src/setup/LoginStep.tsx: the fields, the buttons and the requests of the step that signs
-- the Telegram account in. A disabled button and the Enter key in its form do nothing.
use teleyes.Common.{
  ℕ, Bool, true, false, not, ◌&&◌, ◌||◌, Option, none, some, List, [], ◌∷◌, if◌then◌else◌, call_at,
  without_at,
}
use teleyes.Text.{Text}
use teleyes.Setup.Validation.{
  Problem, is_empty, normalize_phone, validate_phone, strip_spaces, validate_login_code,
}
use teleyes.Setup.Timers.{Failure, lock_from, locked, error_message}

-- `login.state` of the status.
pub data LoginState : Type 0 where
  signed_out awaiting_code awaiting_password authorized : LoginState

pub data Request : Type 0 where
  start_login : Text → Request
  submit_login_code : Text → Request
  submit_login_password : Text → Request
  cancel_login disconnect_telegram : Request

-- What the error line shows: a problem of a field, the missing token, an empty password, or what a
-- request failed with.
pub data Notice : Type 0 where
  field_problem : Problem → Notice
  csrf_missing password_missing : Notice
  failed_with : Option ℕ → Notice

-- The state of the step; `out` lists the calls that are not answered yet, `sent` all calls, the latest
-- first.
pub record LoginStep : Type 0 where
  pub state : LoginState
  pub phone : Text
  pub code : Text
  pub password : Text
  pub error : Option Notice
  pub busy : Bool
  pub confirm_disconnect : Bool
  pub until : Option ℕ
  pub out : List Request
  pub sent : List Request

unfoldable pub opened : LoginState → LoginStep
opened state = record {
  state = state;
  phone = [];
  code = [];
  password = [];
  error = none;
  busy = false;
  confirm_disconnect = false;
  until = none;
  out = [];
  sent = [];
}

-- `run` up to the call; the first argument is the token of the session.
unfoldable pub run_action : Option ℕ → Request → LoginStep → LoginStep
run_action none request s = record s { error = some csrf_missing }
run_action (some token) request s = record s {
  busy = true;
  error = none;
  out = request ∷ s.out;
  sent = request ∷ s.sent;
}

unfoldable pub submit_phone : Option ℕ → LoginStep → LoginStep
unfolding run_action
submit_phone csrf s = elim (validate_phone s.phone) [
  | some problem ↦ record s { error = some (field_problem problem) }
  | none ↦ run_action csrf (start_login (normalize_phone s.phone)) s
]

unfoldable pub submit_code : Option ℕ → LoginStep → LoginStep
unfolding run_action
submit_code csrf s = elim (validate_login_code s.code) [
  | some problem ↦ record s { error = some (field_problem problem) }
  | none ↦ run_action csrf (submit_login_code (strip_spaces s.code)) s
]

unfoldable pub submit_password : Option ℕ → LoginStep → LoginStep
unfolding run_action
submit_password csrf s =
    if is_empty s.password
    then record s { error = some password_missing }
    else run_action csrf (submit_login_password s.password) s

-- `after` of the call that is answered.
unfoldable pub after : Request → LoginStep → LoginStep
after (start_login phone) s = record s { phone = [] }
after disconnect_telegram s = record s { confirm_disconnect = false }
after _ s = s

-- The answer: the new state of the login, which the page adopts, or a failure.
unfoldable pub succeed : LoginState → Request → LoginStep → LoginStep
unfolding after
succeed next request s = record (after request (record s { code = []; password = [] })) {
  state = next;
  busy = false;
}

unfoldable pub fail : Failure → ℕ → LoginStep → LoginStep
fail failure now s = record s {
  password = [];
  until = lock_from failure now s.until;
  error = some (failed_with (error_message failure));
  busy = false;
}

pub data Event : Type 0 where
  phone_typed code_typed password_typed : Text → Event
  -- The form that is shown is submitted, with the token and at the moment given.
  submitted : Option ℕ → ℕ → Event
  cancelled : Option ℕ → Event
  disconnect_asked disconnect_dismissed : Event
  disconnect_confirmed : Option ℕ → Event
  -- The page read a new status.
  status_read : LoginState → Event
  -- The answer to a call that is out, by its place in `out`.
  succeeded : ℕ → LoginState → Event
  failed : ℕ → Failure → ℕ → Event

abbrev pub awaits : LoginState → Bool
awaits awaiting_code = true
awaits awaiting_password = true
awaits _ = false

abbrev pub is_authorized : LoginState → Bool
is_authorized authorized = true
is_authorized _ = false

unfoldable pub submit : LoginState → Option ℕ → LoginStep → LoginStep
unfolding submit_phone submit_code submit_password
submit signed_out csrf s = submit_phone csrf s
submit awaiting_code csrf s = submit_code csrf s
submit awaiting_password csrf s = submit_password csrf s
submit authorized csrf s = s

unfoldable pub step : Event → LoginStep → LoginStep
unfolding submit run_action succeed fail
step (phone_typed text) s = record s { phone = text }
step (code_typed text) s = record s { code = text }
step (password_typed text) s = record s { password = text }
step (submitted csrf now) s = if s.busy || locked s.until now then s else submit s.state csrf s
step (cancelled csrf) s =
    if s.busy || not (awaits s.state) then s else run_action csrf cancel_login s
step disconnect_asked s =
    if is_authorized s.state then record s { confirm_disconnect = true } else s
step disconnect_dismissed s = if s.busy then s else record s { confirm_disconnect = false }
step (disconnect_confirmed csrf) s =
    if is_authorized s.state && s.confirm_disconnect && not s.busy
    then run_action csrf disconnect_telegram s
    else s
step (status_read next) s = record s { state = next }
step (succeeded n next) s = elim (call_at n s.out) [
  | none ↦ s
  | some request ↦ succeed next request (record s { out = without_at n s.out })
]
step (failed n failure now) s = elim (call_at n s.out) [
  | none ↦ s
  | some request ↦ fail failure now (record s { out = without_at n s.out })
]

unfoldable pub run : List Event → LoginStep → LoginStep
run [] s = s
run (e ∷ es) s = run es (step e s)

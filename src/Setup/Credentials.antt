-- ===== src/Setup/Credentials.antt =====
-- apps/web/src/setup/CredentialsStep.tsx: the form of the api_id and the api_hash. An api_id that is
-- valid has digits only, so `Number` of it is the value of its digits.
use teleyes.Common.{
  ℕ, Bool, true, false, not, ◌&&◌, ◌||◌, Option, none, some, List, [], ◌∷◌, if◌then◌else◌,
}
use teleyes.Text.{Text, trim}
use teleyes.Price.Digits.{value}
use teleyes.Setup.Validation.{Problem, validate_api_id, validate_api_hash}
use teleyes.Setup.Timers.{Failure, error_message}

pub data CredentialsError : Type 0 where
  field_problem : Problem → CredentialsError
  csrf_missing : CredentialsError
  failed_with : Option ℕ → CredentialsError

-- What the status says of the credentials and of the session.
pub record CredentialsStatus : Type 0 where
  pub from_env : Bool
  pub configured : Bool
  pub session_exists : Bool

-- The state of the step; `sent` lists the calls of `saveCredentials`, the latest first.
pub record CredentialsStep : Type 0 where
  pub status : CredentialsStatus
  pub api_id : Text
  pub api_hash : Text
  pub error : Option CredentialsError
  pub saving : Bool
  pub editing : Bool
  pub sent : List (ℕ × Text)

unfoldable pub opened : CredentialsStatus → CredentialsStep
opened status = record {
  status = status;
  api_id = [];
  api_hash = [];
  error = none;
  saving = false;
  editing = false;
  sent = [];
}

-- The form is shown where the credentials are not those of the `.env`, and none are stored or they are
-- being changed.
unfoldable pub shows_form : CredentialsStep → Bool
shows_form s = not s.status.from_env && (not s.status.configured || s.editing)

abbrev pub or_problem : Option Problem → Option Problem → Option Problem
or_problem none other = other
or_problem (some problem) other = some problem

-- `submit` for the problem of the fields and the token of the session.
unfoldable pub submit_checked : Option Problem → Option ℕ → CredentialsStep → CredentialsStep
submit_checked (some problem) csrf s = record s { error = some (field_problem problem) }
submit_checked none none s = record s { error = some csrf_missing }
submit_checked none (some token) s = record s {
  saving = true;
  error = none;
  sent = (value 0 (trim s.api_id), trim s.api_hash) ∷ s.sent;
}

unfoldable pub submit : Option ℕ → CredentialsStep → CredentialsStep
unfolding submit_checked
submit csrf s =
    submit_checked (or_problem (validate_api_id s.api_id) (validate_api_hash s.api_hash)) csrf s

pub data Event : Type 0 where
  api_id_typed api_hash_typed : Text → Event
  change_clicked cancel_clicked : Event
  submitted : Option ℕ → Event
  succeeded : CredentialsStatus → Event
  refused : Failure → Event
  status_read : CredentialsStatus → Event

unfoldable pub step : Event → CredentialsStep → CredentialsStep
unfolding shows_form submit
step (api_id_typed text) s = record s { api_id = text }
step (api_hash_typed text) s = record s { api_hash = text }
step change_clicked s =
    if s.status.configured && not s.status.session_exists then record s { editing = true } else s
step cancel_clicked s = if shows_form s && s.editing then record s { editing = false } else s
step (submitted csrf) s = if not (shows_form s) || s.saving then s else submit csrf s
step (succeeded status) s =
    if s.saving
    then record s { status = status; api_id = []; api_hash = []; editing = false; saving = false }
    else s
step (refused failure) s =
    if s.saving
    then record s { error = some (failed_with (error_message failure)); saving = false }
    else s
step (status_read status) s = record s { status = status }

unfoldable pub run : List Event → CredentialsStep → CredentialsStep
run [] s = s
run (e ∷ es) s = run es (step e s)

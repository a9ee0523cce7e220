-- ===== src/Session/Auth.antt =====
-- apps/web/src/auth/AuthContext.tsx and apps/web/src/auth/sessionRecovery.ts: the session's state and
-- the one reauthentication that all failing writes share. A promise is a number; a token is a number
-- that stands for the text. Each event is one run of a callback to its next `await`.
use teleyes.Common.{
  ℕ, zero, suc, Bool, true, false, ◌||◌, Option, none, some, List, [], ◌∷◌, ◌==◌, if◌then◌else◌,
}

pub data AuthStatus : Type 0 where
  checking authenticated anonymous : AuthStatus

-- How a promise ended.
pub data Settled : Type 0 where
  resolved : ℕ → Settled
  rejected : Settled

pub record Me : Type 0 where
  pub admin_id : ℕ
  pub csrf_token : ℕ

-- `handler` and `pending` are the variables of sessionRecovery.ts, the others those of AuthProvider.
-- `stored` is the token in `sessionStorage`, which is read-only while `blocked`. `settled` lists the
-- promises that ended, `callbacks` counts their `finally` callbacks that have not run yet.
pub record Session : Type 0 where
  pub status : AuthStatus
  pub admin_id : Option ℕ
  pub csrf_token : Option ℕ
  pub session_expired : Bool
  pub waiter : Option ℕ
  pub handler : Bool
  pub pending : Option ℕ
  pub stored : Option ℕ
  pub blocked : Bool
  pub broadcasts : List ℕ
  pub settled : List (ℕ × Settled)
  pub callbacks : ℕ
  pub next_promise : ℕ

-- `storeCsrfToken` and `readStoredCsrfToken`, where a blocked storage throws and is ignored.
abbrev pub store_csrf_token : Option ℕ → Session → Session
store_csrf_token token s = record s { stored = if s.blocked then s.stored else token }

abbrev pub read_stored_csrf_token : Bool → Option ℕ → Option ℕ
read_stored_csrf_token blocked stored = if blocked then none else stored

-- The state at mount; the effect has registered the handler.
unfoldable pub init : Bool → Option ℕ → Session
init blocked stored = record {
  status = checking;
  admin_id = none;
  csrf_token = read_stored_csrf_token blocked stored;
  session_expired = false;
  waiter = none;
  handler = true;
  pending = none;
  stored = stored;
  blocked = blocked;
  broadcasts = [];
  settled = [];
  callbacks = 0;
  next_promise = 0;
}

-- `reauthWaiterRef.current?.resolve(token)` or `.reject(…)`, then `reauthWaiterRef.current = null`.
abbrev pub settle : Settled → Session → Session
settle outcome s = elim s.waiter [
  | none ↦ s
  | some p ↦ record s {
    waiter = none;
    settled = (p, outcome) ∷ s.settled;
    callbacks = suc s.callbacks;
  }
]

pub data Reauth : Type 0 where
  refused : Reauth
  waits : ℕ → Reauth

-- `handler()`: a new promise whose waiter shows the modal.
abbrev pub call_handler : Session → Session × Reauth
call_handler s = (
  record s {
    waiter = some s.next_promise;
    session_expired = true;
    pending = some s.next_promise;
    next_promise = suc s.next_promise;
  },
  waits s.next_promise,
)

unfoldable pub request_reauth : Session → Session × Reauth
request_reauth s =
    if s.handler
    then elim s.pending [ none ↦ call_handler s | some p ↦ (s, waits p) ]
    else (s, refused)

-- The `finally` callback of a promise that ended.
unfoldable pub run_finally : Session → Session
run_finally s = elim s.callbacks [
  | zero ↦ s
  | suc left ↦ record s { pending = none; callbacks = left }
]

-- The answer of the first `fetchCurrentAdmin`; `none` where the call threw.
unfoldable pub on_me : Option (Option Me) → Session → Session
on_me none s = record s { status = anonymous }
on_me (some none) s = record s { status = anonymous; admin_id = none }
on_me (some (some me)) s = record (store_csrf_token (some me.csrf_token) s) {
  csrf_token = some me.csrf_token;
  status = authenticated;
  admin_id = some me.admin_id;
}

-- `login` up to its second `await`: the server has accepted the password.
unfoldable pub login_accepted : ℕ → Session → Session
login_accepted token s = record (store_csrf_token (some token) s) { csrf_token = some token }

abbrev pub id_of : Option Me → Option ℕ
id_of none = none
id_of (some me) = some me.admin_id

-- The rest of `login`.
unfoldable pub login_finished : ℕ → Option Me → Session → Session
login_finished token me s = settle (resolved token) (record s {
  admin_id = id_of me;
  status = authenticated;
  session_expired = false;
  broadcasts = token ∷ s.broadcasts;
})

pub data LogoutAnswer : Type 0 where
  accepted : LogoutAnswer
  refused_with : ℕ → LogoutAnswer
  unreachable : LogoutAnswer

-- A 401 or 403 says that the session is gone already.
abbrev pub ends_session : LogoutAnswer → Bool
ends_session accepted = true
ends_session (refused_with status) = status == 401 || status == 403
ends_session unreachable = false

abbrev pub clear_session : Session → Session
clear_session s = record (store_csrf_token none s) {
  csrf_token = none;
  admin_id = none;
  status = anonymous;
}

-- `logout`; without a token the server is not asked.
unfoldable pub logout : LogoutAnswer → Session → Session
logout answer s = elim s.csrf_token [
  | none ↦ clear_session s
  | some token ↦ if ends_session answer then clear_session s else s
]

unfoldable pub cancel_reauth : Session → Session
cancel_reauth s = settle rejected (record s { session_expired = false })

-- `onStorage`: whether the key is CSRF_BROADCAST_KEY, and the token of the value if it can be read.
unfoldable pub on_storage : Bool → Option ℕ → Session → Session
on_storage our_key none s = s
on_storage our_key (some token) s =
    if our_key
    then settle (resolved token) (record (store_csrf_token (some token) s) {
      csrf_token = some token;
      session_expired = false;
    })
    else s

pub data Event : Type 0 where
  request : Event
  finally_ran : Event
  me_answered : Option (Option Me) → Event
  password_accepted : ℕ → Event
  login_ends : ℕ → Option Me → Event
  logout_answered : LogoutAnswer → Event
  cancelled : Event
  storage : Bool → Option ℕ → Event
  -- The provider goes away: its cleanups take back the handler and the listener of `storage`, and
  -- cancel the first reading.
  unmounted : Event

unfoldable pub step : Event → Session → Session
unfolding request_reauth run_finally on_me login_accepted login_finished logout cancel_reauth
    on_storage
step request s = (request_reauth s).0
step finally_ran s = run_finally s
step (me_answered me) s = if s.handler then on_me me s else s
step (password_accepted token) s = login_accepted token s
step (login_ends token me) s = login_finished token me s
step (logout_answered answer) s = logout answer s
step cancelled s = cancel_reauth s
step (storage our_key token) s = if s.handler then on_storage our_key token s else s
step unmounted s = record s { handler = false }

unfoldable pub run : List Event → Session → Session
run [] s = s
run (e ∷ es) s = run es (step e s)

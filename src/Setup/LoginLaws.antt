-- ===== src/Setup/LoginLaws.antt =====
-- What the login step sends, and what it keeps of the secrets.
use teleyes.Common.{
  ℕ, ◌≡◌, ◌⊎◌, inl, inr, true, false, Option, none, some, List, [], ◌∷◌, All, arith, Bool, call_at,
  without_at, IsOnly, call_cases, add_call, Bool-cases, if◌then◌else◌,
}
use teleyes.Setup.Validation.{is_e164, is_code, is_empty}
use teleyes.Setup.ValidationLaws.{validate_phone-e164, validate_login_code-code}
use teleyes.Setup.Timers.{Failure, lock_from, locked, error_message}
use teleyes.Setup.Login.{
  LoginState, Request, start_login, submit_login_code, submit_login_password, LoginStep, opened,
  Event, submit, submitted, succeeded, failed, step, run, run_action, cancel_login,
  disconnect_telegram, succeed, fail, failed_with,
}

-- A phone that is sent is an E.164 number, a code has four to eight digits, a password is not empty.
abbrev pub IsChecked : Request → Type 0
IsChecked (start_login phone) = is_e164 phone ≡ true
IsChecked (submit_login_code code) = is_code code ≡ true
IsChecked (submit_login_password password) = is_empty password ≡ false
IsChecked _ = Unit

-- One request at most is out, the step is busy exactly while it is, and all that it sent was checked.
pub record IsGuarded (s : LoginStep) : Type 0 where
  pub single : IsOnly s.busy s.out
  pub checked : All IsChecked s.sent

run_action-IsGuarded :
    (csrf : Option ℕ) (request : Request) (s : LoginStep)
    → IsChecked request
    → s.busy ≡ false
    → IsGuarded s
    → IsGuarded (run_action csrf request s)
unfolding run_action
run_action-IsGuarded none request s c b v = ground arith
run_action-IsGuarded (some token) request s c b v = record {
  single = add_call request s.busy s.out v.single b;
  checked = (c, v.checked);
}

submit-IsGuarded :
    (state : LoginState) (csrf : Option ℕ) (s : LoginStep)
    → s.busy ≡ false
    → IsGuarded s
    → IsGuarded (submit state csrf s)
unfolding submit run_action
submit-IsGuarded state none s b v = ground arith
submit-IsGuarded state (some token) s b v =
    let more = λ (r : Request). add_call r s.busy s.out v.single b in
    ground (arith, more, validate_phone-e164 s.phone, validate_login_code-code s.code)

answered-IsGuarded :
    (n : ℕ) (s : LoginStep) (f : Request → LoginStep → LoginStep)
    → ((request : Request) (t : LoginStep)
        → t.out ≡ []
        → All IsChecked t.sent
        → IsGuarded (f request t))
    → IsGuarded s
    → IsGuarded (elim (call_at n s.out) [
      | none ↦ s
      | some request ↦ f request (record s { out = without_at n s.out })
    ])
answered-IsGuarded n s f keeps v = elim (call_cases n s.busy s.out v.single) [
  | inl e ↦ rw e v
  | inr (request, e, only, rest, b) ↦ rw e (keeps request _ rest v.checked)
]

succeed-IsGuarded :
    (next : LoginState) (request : Request) (t : LoginStep)
    → t.out ≡ []
    → All IsChecked t.sent
    → IsGuarded (succeed next request t)
unfolding succeed
succeed-IsGuarded next request t free c = ground arith

fail-IsGuarded :
    (failure : Failure) (now : ℕ) (t : LoginStep)
    → t.out ≡ []
    → All IsChecked t.sent
    → IsGuarded (fail failure now t)
unfolding fail
fail-IsGuarded failure now t free c = ground arith

step-IsGuarded : (e : Event) (s : LoginStep) → IsGuarded s → IsGuarded (step e s)
unfolding step
step-IsGuarded (Event.submitted csrf now) s v =
    ground (arith, λ (b : s.busy ≡ false). submit-IsGuarded s.state csrf s b v)
step-IsGuarded (Event.cancelled csrf) s v =
    ground (arith, λ (b : s.busy ≡ false). run_action-IsGuarded csrf cancel_login s tt b v)
step-IsGuarded (Event.disconnect_confirmed csrf) s v =
    ground (arith, λ (b : s.busy ≡ false). run_action-IsGuarded csrf disconnect_telegram s tt b v)
step-IsGuarded (succeeded n next) s v =
    answered-IsGuarded n s (succeed next) (succeed-IsGuarded next) v
step-IsGuarded (failed n failure now) s v =
    answered-IsGuarded n s (λ request. fail failure now) (λ request. fail-IsGuarded failure now) v
step-IsGuarded e s v = ground arith

run_from : (es : List Event) (s : LoginStep) → IsGuarded s → IsGuarded (run es s)
unfolding run
run_from [] s v = v
run_from (e ∷ es) s v = run_from es (step e s) (step-IsGuarded e s v)

opened-IsGuarded : (state : LoginState) → IsGuarded (opened state)
unfolding opened
opened-IsGuarded state = ground arith

-- After every sequence of events one request at most is not answered, the step is busy exactly while
-- one is, and every phone that it sent is an E.164 number, every code has four to eight digits, and no password is empty.
pub run-IsGuarded : (es : List Event) (state : LoginState) → IsGuarded (run es (opened state))
run-IsGuarded es state = run_from es (opened state) (opened-IsGuarded state)

abbrev pub is_start_login : Request → Bool
is_start_login (start_login phone) = true
is_start_login _ = false

-- Once a request that is out is answered the step is free. Where it succeeded it keeps neither code nor
-- password, takes the new state, and the phone is cleared exactly where the request was the one that
-- sends it. Where it failed, whatever the failure, it keeps no password but the phone and the code,
-- shows the failure, and while the lock that it leaves lasts, submitting a form does nothing.
pub answer_clears :
    (s : LoginStep) (n : ℕ) (request : Request) (next : LoginState) (failure : Failure)
    (now later : ℕ) (csrf : Option ℕ)
    → call_at n s.out ≡ some request
    → let done = step (succeeded n next) s in
      let refused = step (failed n failure now) s in
      (done.code ≡ [])
      × (done.password ≡ [])
      × (done.busy ≡ false)
      × (done.state ≡ next)
      × (done.phone ≡ (if is_start_login request then [] else s.phone))
      × (refused.password ≡ [])
      × (refused.code ≡ s.code)
      × (refused.phone ≡ s.phone)
      × (refused.state ≡ s.state)
      × (refused.busy ≡ false)
      × (refused.error ≡ some (failed_with (error_message failure)))
      × ((locked (lock_from failure now s.until) later ≡ false)
          ⊎ (step (submitted csrf later) refused ≡ refused))
unfolding step
answer_clears s n request next failure now later csrf h =
    elim (Bool-cases (locked (lock_from failure now s.until) later)) [
      | inl e ↦ ground (arith, h, e)
      | inr e ↦ ground (arith, h, e)
    ]

-- ===== src/Session/Invariant.antt =====
-- What holds of the session after every sequence of events.
use teleyes.Common.{
  ℕ, ◌≡◌, ◌≢◌, ◌↔◌, ◌⊎◌, ◌<◌, Bool, true, false, Option, none, some, List, [], ◌∷◌, ◌==◌, ◌||◌,
  arith,
}
use teleyes.Session.Auth.{Session, Settled, Event, step, run, init, request_reauth, refused, waits}

abbrev pub is_settled : ℕ → List (ℕ × Settled) → Bool
is_settled p [] = false
is_settled p ((q, outcome) ∷ rest) = p == q || is_settled p rest

-- The modal is open exactly while a promise waits; that promise is the one that new requests share;
-- between its end and its `finally` callback the ended promise is shared.
pub record IsSound (s : Session) : Type 0 where
  pub modal : (s.session_expired ≡ true) ↔ (s.waiter ≢ none)
  pub shared : (s.callbacks ≡ 0) → s.pending ≡ s.waiter
  -- A request while a promise waits is handed that promise and changes nothing; with none left it opens
  -- the modal for a new one.
  pub joins : (p : ℕ) → s.handler ≡ true → s.waiter ≡ some p → request_reauth s ≡ (s, waits p)
  pub shares : (p : ℕ) → s.handler ≡ true → s.pending ≡ some p → request_reauth s ≡ (s, waits p)
  pub opens :
      s.handler ≡ true
      → s.pending ≡ none
      → ((request_reauth s).1 ≡ waits s.next_promise)
        × ((request_reauth s).0.waiter ≡ some s.next_promise)
        × ((request_reauth s).0.session_expired ≡ true)
  pub turned_away : s.handler ≡ false → request_reauth s ≡ (s, refused)
  pub ending : (0 < s.callbacks) → (s.waiter ≡ none) × (s.callbacks ≡ 1) × (s.pending ≢ none)

init-IsSound : (blocked : Bool) (stored : Option ℕ) → IsSound (init blocked stored)
unfolding init request_reauth
init-IsSound blocked stored = ground arith

step-IsSound : (e : Event) (s : Session) → IsSound s → IsSound (step e s)
unfolding step request_reauth
step-IsSound Event.request s v = ground arith
step-IsSound e s v = ground arith

-- Each promise that was handed out has ended or is the one that waits, and not both.
abbrev pub IsAnswered : Session → ℕ → Type 0
IsAnswered s p =
    ((p < s.next_promise) ↔ ((is_settled p s.settled ≡ true) ⊎ (s.waiter ≡ some p)))
    × ((is_settled p s.settled ≡ false) ⊎ (s.waiter ≢ some p))

step-IsAnswered :
    (e : Event) (s : Session) (p : ℕ) → IsSound s → IsAnswered s p → IsAnswered (step e s) p
unfolding step
step-IsAnswered Event.request s p v a = ground arith
step-IsAnswered e s p v a = ground arith

run-both :
    (es : List Event) (s : Session)
    → IsSound s
    → ((p : ℕ) → IsAnswered s p)
    → IsSound (run es s) × ((p : ℕ) → IsAnswered (run es s) p)
unfolding run
run-both [] s v a = (v, a)
run-both (e ∷ es) s v a =
    run-both es (step e s) (step-IsSound e s v) (λ p. step-IsAnswered e s p v (a p))

init-IsAnswered : (blocked : Bool) (stored : Option ℕ) (p : ℕ) → IsAnswered (init blocked stored) p
unfolding init
init-IsAnswered blocked stored p = ground arith

-- After every sequence of events the modal is open exactly while a write waits for the password. While the
-- provider is mounted, a write that asks then is handed the promise of the one that waits, and one that
-- asks before the `finally` of an ended promise is handed that one, with no change to the session; one
-- that asks when no promise is kept opens the modal for a new promise. Once the provider is unmounted
-- each is refused.
pub run-IsSound :
    (blocked : Bool) (stored : Option ℕ) (es : List Event) → IsSound (run es (init blocked stored))
run-IsSound blocked stored es =
    (run-both es _ (init-IsSound blocked stored) (init-IsAnswered blocked stored)).0

-- After every sequence of events each promise that was handed out to a write has ended or is the
-- one that the open modal will end, and never both.
pub run-IsAnswered :
    (blocked : Bool) (stored : Option ℕ) (es : List Event) (p : ℕ)
    → IsAnswered (run es (init blocked stored)) p
run-IsAnswered blocked stored es =
    (run-both es _ (init-IsSound blocked stored) (init-IsAnswered blocked stored)).1

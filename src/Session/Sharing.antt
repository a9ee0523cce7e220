-- ===== src/Session/Sharing.antt =====
-- What a login and a cancellation do to the writes that wait.
use teleyes.Common.{ℕ, ◌≡◌, ◌⊎◌, false, Option, none, some, ◌∷◌, arith}
use teleyes.Session.Auth.{Session, Me, Settled, resolved, rejected, Event, step}
use teleyes.Session.Invariant.{IsSound}

-- In a sound session a login ends the promise that waits with the new token, and a cancellation
-- with a rejection; both close the modal, and the `finally` callback frees the next request from
-- that promise.
pub settled_once :
    (s : Session) (p token : ℕ) (me : Option Me) (e : Event) (outcome : Settled)
    → IsSound s
    → s.waiter ≡ some p
    → ((e ≡ Event.login_ends token me) × (outcome ≡ resolved token))
      ⊎ ((e ≡ Event.cancelled) × (outcome ≡ rejected))
    → ((step e s).settled ≡ (p, outcome) ∷ s.settled)
      × ((step e s).waiter ≡ none)
      × ((step e s).session_expired ≡ false)
      × ((step Event.finally_ran (step e s)).pending ≡ none)
unfolding step
settled_once s p token me e outcome v w h = ground arith

-- ===== src/Setup/Timers.antt =====
-- apps/web/src/setup/timers.ts: the lock of a button after a refusal, and the countdown. An instant
-- is a number of milliseconds.
use teleyes.Common.{
  ℕ, ◌+◌, ◌-◌, ◌*◌, ◌/◌, ◌<◌, ◌≡◌, ◌↔◌, Bool, true, Option, none, some, ltb, if◌then◌else◌, arith,
}

-- What a rejected request shows of an ApiError: its status, its message and `retryAfterSeconds`.
pub data Failure : Type 0 where
  api_error : ℕ → ℕ → Option ℕ → Failure
  other_error : Failure

-- `Math.max(0, Math.ceil((until - now) / 1000))`
unfoldable pub seconds_until : ℕ → ℕ → ℕ
seconds_until until now = (until - now + 999) / 1000

-- The deadline that `useCountdown` keeps from the moment `start` on, and what it shows at `now`.
unfoldable pub countdown : Option ℕ → ℕ → ℕ → Option ℕ
unfolding seconds_until
countdown none start now = none
countdown (some seconds) start now = some (seconds_until (start + seconds * 1000) now)

-- The state `until` of `useRetryLock` after `lockFrom(error)`.
unfoldable pub lock_from : Failure → ℕ → Option ℕ → Option ℕ
lock_from (api_error status message (some seconds)) now until =
    if ltb 0 seconds then some (now + seconds * 1000) else until
lock_from (api_error status message none) now until = until
lock_from other_error now until = until

unfoldable pub remaining : Option ℕ → ℕ → ℕ
unfolding seconds_until
remaining none now = 0
remaining (some until) now = seconds_until until now

unfoldable pub locked : Option ℕ → ℕ → Bool
unfolding remaining
locked until now = ltb 0 (remaining until now)

-- `errorMessage`: none is the fallback of the caller.
unfoldable pub error_message : Failure → Option ℕ
error_message (api_error status message retry) = some message
error_message other_error = none

-- Where the server asks at `now` to wait some seconds, whatever the lock was before, the button is
-- locked exactly before the end of these seconds, shows the full wait at first and `k` seconds less
-- after `k` seconds, and is open from then on; a refusal that asks for no wait leaves the lock as it
-- was.
pub lock_from-IsTimed :
    (status message seconds now later k : ℕ) (until : Option ℕ)
    → 0 < seconds
    → ((locked (lock_from (api_error status message (some seconds)) now until) later ≡ true)
        ↔ (later < now + seconds * 1000))
      × (remaining (lock_from (api_error status message (some seconds)) now until) (now + k * 1000)
          ≡ seconds - k)
      × (lock_from (api_error status message none) now until ≡ until)
      × (lock_from other_error now until ≡ until)
unfolding lock_from locked
lock_from-IsTimed status message seconds now later k until h = ground arith

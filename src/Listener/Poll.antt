-- ===== src/Listener/Poll.antt =====
-- apps/web/src/hooks/useListenerStatus.ts: the polling of the listener's status and the request to
-- apply the rules. An effect is named by the tick that started it.
use teleyes.Common.{
  ℕ, suc, Bool, true, false, not, ◌&&◌, Option, none, some, List, [], ◌∷◌, ◌==◌, if◌then◌else◌,
  keep, call_at, without_at,
}

pub data ListenerState : Type 0 where
  idle pending applying failed : ListenerState

-- `ListenerStatus` of apps/web/src/api/listener.ts; an instant and an error text are numbers here.
pub record ListenerStatus : Type 0 where
  pub state : ListenerState
  pub reload_requested_at : Option ℕ
  pub reload_applied_at : Option ℕ
  pub error : Option ℕ
  pub listener_online : Bool
  pub has_unapplied_changes : Bool
  pub sources_loaded : Option ℕ
  pub rules_loaded : Option ℕ
  pub recipients_loaded : Option ℕ
  pub new_matches : Option ℕ
  pub scan_failures : Option ℕ

pub data PollError : Type 0 where
  read_failed csrf_missing request_failed : PollError
  -- The message of an ApiError.
  api_error : ℕ → PollError

-- The state of the hook. `fetches` lists the effects whose fetch is not answered yet, `timers` the timers
-- that run, each with the effect that set it and its delay, `settled` the calls of `onSettled`, the latest
-- first. The effect that runs is `tick`; every older one is cancelled.
pub record Poll : Type 0 where
  pub status : Option ListenerStatus
  pub error : Option PollError
  pub requesting : Bool
  pub tick : ℕ
  pub previous_state : Option ListenerState
  pub fetches : List ℕ
  pub timers : List (ℕ × ℕ)
  pub settled : List ListenerStatus

abbrev pub idle_poll_ms : ℕ
idle_poll_ms = 5000

abbrev pub busy_poll_ms : ℕ
busy_poll_ms = 1500

abbrev pub in_flight : Option ListenerState → Bool
in_flight (some pending) = true
in_flight (some applying) = true
in_flight _ = false

-- `next.state === 'idle' || next.state === 'failed'`
abbrev pub at_rest : ListenerState → Bool
at_rest idle = true
at_rest failed = true
at_rest _ = false

-- The mount: the first effect fetches.
unfoldable pub init : Poll
init = record {
  status = none;
  error = none;
  requesting = false;
  tick = 0;
  previous_state = none;
  fetches = 0 ∷ [];
  timers = [];
  settled = [];
}

unfoldable pub accept : ListenerStatus → Poll → Poll
accept next p = record p {
  status = some next;
  error = none;
  previous_state = some next.state;
  settled =
      if in_flight p.previous_state && at_rest next.state then next ∷ p.settled else p.settled;
}

-- `clearTimeout(timer)` in the cleanup of an effect.
unfoldable pub clear_timeout : ℕ → List (ℕ × ℕ) → List (ℕ × ℕ)
clear_timeout effect timers = keep (λ timer. not (timer.0 == effect)) timers

-- `setTick(value + 1)`: the cleanup of the old effect cancels it and clears its timer, and the new
-- effect fetches.
unfoldable pub restart : Poll → Poll
unfolding clear_timeout
restart p = record p {
  tick = suc p.tick;
  fetches = suc p.tick ∷ p.fetches;
  timers = clear_timeout p.tick p.timers;
}

-- The `finally` of an effect that is not cancelled.
unfoldable pub schedule : ℕ → Poll → Poll
schedule effect p = record p {
  timers = (effect, if in_flight p.previous_state then busy_poll_ms else idle_poll_ms) ∷ p.timers;
}

abbrev pub take : Option ListenerStatus → Poll → Poll
take none p = record p { error = some read_failed }
take (some next) p = accept next p

-- The answer to the fetch of an effect; `none` where it was rejected.
unfoldable pub answer_effect : ℕ → Option ListenerStatus → Poll → Poll
unfolding accept schedule
answer_effect effect result p = if effect == p.tick then schedule effect (take result p) else p

-- The answer to a fetch that is out, by its place in `fetches`.
unfoldable pub answer : Option ℕ → ℕ → Option ListenerStatus → Poll → Poll
unfolding answer_effect
answer none n result p = p
answer (some effect) n result p =
    answer_effect effect result (record p { fetches = without_at n p.fetches })

-- A timer that was not cleared fires, by its place in `timers`.
unfoldable pub timer_fires : Option (ℕ × ℕ) → ℕ → Poll → Poll
unfolding restart
timer_fires none n p = p
timer_fires (some timer) n p = restart (record p { timers = without_at n p.timers })

-- `apply()` up to the request; `none` is a missing token.
unfoldable pub apply : Option ℕ → Poll → Poll
apply none p = record p { error = some csrf_missing }
apply (some token) p = record p { requesting = true; error = none }

pub data Reload : Type 0 where
  reloaded : ListenerStatus → Reload
  refused : ℕ → Reload
  unreachable : Reload

-- The answer to `requestListenerReload`.
unfoldable pub reload_answer : Reload → Poll → Poll
unfolding accept restart
reload_answer (reloaded next) p = record (restart (accept next p)) { requesting = false }
reload_answer (refused message) p = record p {
  error = some (api_error message);
  requesting = false;
}
reload_answer unreachable p = record p { error = some request_failed; requesting = false }

pub data Event : Type 0 where
  answered : ℕ → Option ListenerStatus → Event
  timer_fired : ℕ → Event
  refreshed : Event
  applied : Option ℕ → Event
  reload_answered : Reload → Event

unfoldable pub step : Event → Poll → Poll
unfolding answer timer_fires apply reload_answer restart
step (answered n result) p = answer (call_at n p.fetches) n result p
step (timer_fired n) p = timer_fires (call_at n p.timers) n p
step refreshed p = restart p
step (applied token) p = apply token p
step (reload_answered result) p = reload_answer result p

unfoldable pub run : List Event → Poll → Poll
run [] p = p
run (e ∷ es) p = run es (step e p)

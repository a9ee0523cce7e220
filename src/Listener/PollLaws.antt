-- ===== src/Listener/PollLaws.antt =====
-- The polling neither stops nor doubles, and each request that ends is reported once.
use teleyes.Common.{
  ℕ, suc, ◌+◌, ◌≤◌, ◌≡◌, ◌≢◌, refl, inl, inr, true, Option, none, some, List, [], ◌∷◌, arith,
  if◌then◌else◌, ◌==◌, length, All, Bool-cases, call_at, without_at, calls_of, calls_of-without_at,
  All-without_at, option_cases, subst,
}
use teleyes.Listener.Poll.{
  ListenerStatus, Poll, idle_poll_ms, busy_poll_ms, in_flight, at_rest, init, accept, clear_timeout,
  restart, take, answer_effect, schedule, reloaded, refused, unreachable, Event, step, run,
}

-- Either the fetch of the running effect is out, once, or one timer is set, by that effect and with the
-- pace of the last state. A fetch that is out was made by an effect that has started.
pub record IsPolling (p : Poll) : Type 0 where
  pub single : calls_of (λ effect. effect) p.tick p.fetches + length p.timers ≡ 1
  pub started : All (λ effect. effect ≤ p.tick) p.fetches
  pub paced :
      All
        (λ timer.
          (timer.0 ≡ p.tick)
          × (timer.1 ≡ (if in_flight p.previous_state then busy_poll_ms else idle_poll_ms)))
        p.timers

unstarted :
    (tick : ℕ) (fetches : List ℕ)
    → All (λ effect. effect ≤ tick) fetches
    → calls_of (λ effect. effect) (suc tick) fetches ≡ 0
unstarted tick [] h = refl
unstarted tick (effect ∷ fetches) h = ground (arith, h.0, unstarted tick fetches h.1)

started-later :
    (tick : ℕ) (fetches : List ℕ)
    → All (λ effect. effect ≤ tick) fetches
    → All (λ effect. effect ≤ suc tick) fetches
started-later tick [] h = tt
started-later tick (effect ∷ fetches) h = (omega (arith, h.0), started-later tick fetches h.1)

clear_timeout-own :
    (tick pace : ℕ) (timers : List (ℕ × ℕ))
    → All (λ timer. (timer.0 ≡ tick) × (timer.1 ≡ pace)) timers
    → clear_timeout tick timers ≡ []
unfolding clear_timeout
clear_timeout-own tick pace [] h = refl
clear_timeout-own tick pace (timer ∷ timers) h =
    ground (arith, h.0.0, clear_timeout-own tick pace timers h.1)

pace_of : Poll → ℕ
pace_of p = if in_flight p.previous_state then busy_poll_ms else idle_poll_ms

restart-IsPolling :
    (p : Poll) (pace : ℕ)
    → All (λ effect. effect ≤ p.tick) p.fetches
    → All (λ timer. (timer.0 ≡ p.tick) × (timer.1 ≡ pace)) p.timers
    → IsPolling (restart p)
unfolding restart
restart-IsPolling p pace started paced =
    let cleared = clear_timeout-own p.tick pace p.timers paced in
    record {
      single = rw cleared (ground (arith, unstarted p.tick p.fetches started));
      started = (omega arith, started-later p.tick p.fetches started);
      paced = rw cleared tt;
    }

none_set : {A : Type 0} (count : ℕ) (xs : List A) → count + 1 + length xs ≡ 1 → xs ≡ []
none_set count [] h = refl
none_set count (x ∷ xs) h = absurd (omega (arith, h))

schedule-IsPolling :
    (p : Poll)
    → calls_of (λ e. e) p.tick p.fetches + 1 + length p.timers ≡ 1
    → All (λ e. e ≤ p.tick) p.fetches
    → IsPolling (schedule p.tick p)
unfolding schedule
schedule-IsPolling p single started =
    let free = none_set (calls_of (λ e. e) p.tick p.fetches) p.timers single in
    record {
      single = rw free (let h = single in omega (arith, h));
      started = started;
      paced = rw free ((refl, refl), tt);
    }

own-IsPolling :
    (result : Option ListenerStatus) (p : Poll)
    → calls_of (λ e. e) p.tick p.fetches + 1 + length p.timers ≡ 1
    → All (λ e. e ≤ p.tick) p.fetches
    → IsPolling (schedule p.tick (take result p))
unfolding accept
own-IsPolling none p single started = schedule-IsPolling (take none p) single started
own-IsPolling (some next) p single started = schedule-IsPolling (accept next p) single started

answer_effect-IsPolling :
    (effect : ℕ) (result : Option ListenerStatus) (p : Poll)
    → calls_of (λ e. e) p.tick p.fetches + (if effect == p.tick then 1 else 0) + length p.timers ≡ 1
    → All (λ e. e ≤ p.tick) p.fetches
    → All (λ timer. (timer.0 ≡ p.tick) × (timer.1 ≡ pace_of p)) p.timers
    → IsPolling (answer_effect effect result p)
unfolding answer_effect pace_of
answer_effect-IsPolling effect result p single started paced =
    elim (Bool-cases (effect == p.tick)) [
      | inl e ↦
          let same : p.tick ≡ effect = ground (arith, e) in
          let one : calls_of (λ x. x) p.tick p.fetches + 1 + length p.timers ≡ 1 =
            ground (arith, e, single) in
          rw e (
            subst (λ run. IsPolling (schedule run (take result p))) same
              (own-IsPolling result p one started))
      | inr e ↦
          rw e (record { single = ground (arith, e, single); started = started; paced = paced })
    ]

step-IsPolling : (e : Event) (p : Poll) → IsPolling p → IsPolling (step e p)
unfolding step pace_of
step-IsPolling (Event.answered n result) p v = elim (option_cases (call_at n p.fetches)) [
  | inl e ↦ rw e v
  | inr (effect, e) ↦
      let fewer = calls_of-without_at (λ x. x) p.tick n p.fetches effect e in
      rw e (
        answer_effect-IsPolling effect result (record p { fetches = without_at n p.fetches })
          (let h = v.single in omega (arith, fewer))
          (All-without_at (λ x. x ≤ p.tick) n p.fetches v.started) v.paced)
]
step-IsPolling (Event.timer_fired n) p v = elim (option_cases (call_at n p.timers)) [
  | inl e ↦ rw e v
  | inr (timer, e) ↦ rw e (
      restart-IsPolling (record p { timers = without_at n p.timers }) (pace_of p) v.started
        (All-without_at _ n p.timers v.paced))
]
step-IsPolling Event.refreshed p v = restart-IsPolling p (pace_of p) v.started v.paced
step-IsPolling (Event.reload_answered (reloaded next)) p v =
    let w = restart-IsPolling (accept next p) (pace_of p) v.started v.paced in
    record { single = w.single; started = w.started; paced = w.paced }
step-IsPolling (Event.reload_answered (refused message)) p v = record {
  single = v.single;
  started = v.started;
  paced = v.paced;
}
step-IsPolling (Event.reload_answered unreachable) p v = record {
  single = v.single;
  started = v.started;
  paced = v.paced;
}
step-IsPolling (Event.applied none) p v = record {
  single = v.single;
  started = v.started;
  paced = v.paced;
}
step-IsPolling (Event.applied (some token)) p v = record {
  single = v.single;
  started = v.started;
  paced = v.paced;
}

run_from : (es : List Event) (p : Poll) → IsPolling p → IsPolling (run es p)
unfolding run
run_from [] p v = v
run_from (e ∷ es) p v = run_from es (step e p) (step-IsPolling e p v)

init-IsPolling : IsPolling init
unfolding init
init-IsPolling = ground arith

-- After every sequence of events exactly one thing is there to go on with: the fetch of the running
-- effect, which is out once whatever older fetches are, or one timer, which that effect set and whose
-- pace is the fast one exactly while the last status that was taken has a request in flight.
pub run-IsPolling : (es : List Event) → IsPolling (run es init)
run-IsPolling es = run_from es init init-IsPolling

-- An answer to an effect that a newer one replaced changes nothing.
pub answer_stale :
    (effect : ℕ) (result : Option ListenerStatus) (p : Poll)
    → effect ≢ p.tick
    → answer_effect effect result p ≡ p
unfolding answer_effect
answer_stale effect result p h = ground arith

-- When a request in flight ends, the status that ends it is reported, and a later one at rest is
-- not reported again.
pub accept_once :
    (next later : ListenerStatus) (p : Poll)
    → in_flight p.previous_state ≡ true
    → at_rest next.state ≡ true
    → at_rest later.state ≡ true
    → (accept later (accept next p)).settled ≡ next ∷ p.settled
unfolding accept
accept_once next later p h k l = ground arith

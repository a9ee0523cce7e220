-- ===== src/Setup/StatusLaws.antt =====
-- What the hook holds, and which step of the wizard is open.
use teleyes.Common.{ℕ, ◌≡◌, ◌≢◌, ◌↔◌, ◌⊎◌, true, false, not, none, some, List, [], ◌∷◌, arith}
use teleyes.Setup.Status.{
  SetupStatus, SetupHook, mount, Event, step, run, StepKey, Chosen, is_open, toggle, handle_status,
  current_step, step_states, current, is_done,
}

-- While the hook lives and has had an answer it holds a status, an error or the reason why the wizard
-- is missing; and a hook that was left polls no more.
pub record IsInformed (h : SetupHook) : Type 0 where
  pub told : h.loading ≡ false → (h.status ≢ none) ⊎ (h.error ≡ true) ⊎ (h.unavailable ≢ none)
  pub stopped : h.alive ≡ false → h.interval ≡ false

step-IsInformed : (e : Event) (h : SetupHook) → IsInformed h → IsInformed (step e h)
unfolding step
step-IsInformed (Event.answered a) h v = ground arith
step-IsInformed e h v = ground arith

run_from : (es : List Event) (h : SetupHook) → IsInformed h → IsInformed (run es h)
unfolding run
run_from [] h v = v
run_from (e ∷ es) h v = run_from es (step e h) (step-IsInformed e h v)

mount-IsInformed : (poll_ms : ℕ) → IsInformed (mount poll_ms)
unfolding mount
mount-IsInformed poll_ms = ground arith

-- After every sequence of events a hook that is not loading any more holds a status, an error or the
-- reason why the wizard is unavailable, and a hook that was left has no polling timer.
pub run-IsInformed : (es : List Event) (poll_ms : ℕ) → IsInformed (run es (mount poll_ms))
run-IsInformed es poll_ms = run_from es (mount poll_ms) (mount-IsInformed poll_ms)

-- At most one step is open; the toggle of a step opens it where it was closed and closes all where it
-- was open; and after a step has handed over a status, that step is open where it asked to stay and
-- the server's next step where it did not.
pub toggle_one :
    (status next : SetupStatus) (choice : Chosen) (h : SetupHook) (key other : StepKey)
    → ((is_open choice status key ≡ false) ⊎ (is_open choice status other ≡ false) ⊎ (key ≡ other))
      × (is_open (toggle choice status key) status key ≡ not (is_open choice status key))
      × ((is_open choice status key ≡ false)
          ⊎ (is_open (toggle choice status key) status other ≡ false))
      × (is_open (handle_status next key true (h, choice)).1 next key ≡ true)
      × (is_open (handle_status next key false (h, choice)).1 next (current_step next.next_step)
          ≡ true)
      × ((handle_status next key false (h, choice)).0.status ≡ some next)
unfolding is_open toggle handle_status current_step
toggle_one status next choice h key other = ground arith

-- A step is the current one exactly where the server names it next and it is not done.
pub step_states_current :
    (status : SetupStatus) (key : StepKey)
    → (step_states status key ≡ current)
      ↔ ((is_done status key ≡ false) × (key ≡ current_step status.next_step))
unfolding step_states
step_states_current status key = ground arith

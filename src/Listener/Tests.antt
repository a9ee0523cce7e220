-- ===== src/Listener/Tests.antt =====
-- Runs of the polling and of the readings of apps/web/src/hooks/useListenerStatus.ts and
-- apps/web/src/components/listenerState.ts.
use teleyes.Common.{ℕ, ◌≡◌, refl, true, false, none, some, List, [], ◌∷◌}
use teleyes.Text.{Text, codes}
use teleyes.Listener.Poll.{
  ListenerState, idle, pending, applying, ListenerStatus, Poll, busy_poll_ms, init, Reload, Event,
  step, run,
}
use teleyes.Listener.PollLaws.{IsPolling, run-IsPolling}

abbrev status_of : ListenerState → ListenerStatus
status_of state = record {
  state = state;
  reload_requested_at = none;
  reload_applied_at = none;
  error = none;
  listener_online = true;
  has_unapplied_changes = false;
  sources_loaded = some 2;
  rules_loaded = some 1;
  recipients_loaded = some 1;
  new_matches = none;
  scan_failures = none;
}

-- The rules are applied: the reload is accepted, read as pending, and ends.
abbrev application : List Event
application =
    Event.answered 0 (some (status_of idle))
    ∷ Event.applied (some 7)
    ∷ Event.reload_answered (Reload.reloaded (status_of pending))
    ∷ Event.answered 0 (some (status_of applying))
    ∷ []

abbrev applied_poll : Poll
applied_poll = run application init

application_runs : applied_poll.timers ≡ (1, busy_poll_ms) ∷ []
unfolding run step init
application_runs = refl

run-IsPolling_example : IsPolling applied_poll
run-IsPolling_example = run-IsPolling application

to_digit : ℕ → Text
to_digit n = codes "2"

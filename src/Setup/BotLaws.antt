-- ===== src/Setup/BotLaws.antt =====
-- What the wait for the /start keeps.
use teleyes.Common.{
  ℕ, ◌≡◌, ◌≢◌, ◌⊎◌, ◌≤◌, true, false, Bool, Option, none, some, List, [], ◌∷◌, arith,
}
use teleyes.Setup.Bot.{
  min_poll_gap_ms, Wait, sleeping, reading_status, BotStep, Pairing, opened, window, Event,
  pairing_opened, pairing_started, pairing_status_read, step, run,
}

abbrev IsPaced : Option Wait → Type 0
IsPaced (some (sleeping ms)) = ms ≤ min_poll_gap_ms
IsPaced _ = Unit

-- The loop waits only for an open window with a token of the session.
pub record IsWaiting (s : BotStep) : Type 0 where
  pub active : s.loop ≢ none → s.pairing_active ≡ true
  pub allowed : s.loop ≢ none → s.csrf ≢ none
  pub paced : IsPaced s.loop

step-IsWaiting : (e : Event) (s : BotStep) → IsWaiting s → IsWaiting (step e s)
unfolding step
step-IsWaiting (Event.polled effect answer elapsed) s v = ground arith
step-IsWaiting (Event.last_status_read effect answer) s v = ground arith
step-IsWaiting e s v = ground arith

opened-IsWaiting : (csrf : Option ℕ) (active : Bool) → IsWaiting (opened csrf active)
unfolding opened
opened-IsWaiting csrf active = ground arith

run_from : (es : List Event) (s : BotStep) → IsWaiting s → IsWaiting (run es s)
unfolding run
run_from [] s v = v
run_from (e ∷ es) s v = run_from es (step e s) (step-IsWaiting e s v)

-- After every sequence of events the loop polls, reads or pauses only while the pairing window is open
-- and the session has a token, and it never pauses for longer than the gap between two polls.
pub run-IsWaiting :
    (es : List Event) (csrf : Option ℕ) (active : Bool) → IsWaiting (run es (opened csrf active))
run-IsWaiting es csrf active = run_from es (opened csrf active) (opened-IsWaiting csrf active)

-- An open window for which nothing waits, in a session with a token, comes with a notice or an error, and
-- the reading of the status is the last thing that a run does, after its notice.
pub record IsTold (s : BotStep) : Type 0 where
  pub told :
      s.pairing_active ≡ true
      → s.csrf ≢ none
      → s.loop ≡ none
      → (s.pairing_notice ≢ none) ⊎ (s.pairing_error ≢ none)
  pub ending : s.loop ≡ some reading_status → s.pairing_notice ≢ none

abbrev pub opens : Event → Bool
opens pairing_opened = true
opens _ = false

-- Every event but the click that generates a link keeps it that in a session with a token an open window
-- for which nothing waits comes with a notice or an error, and that the last reading of a run comes with
-- its notice.
pub step-IsTold : (e : Event) (s : BotStep) → opens e ≡ false → IsTold s → IsTold (step e s)
unfolding step
step-IsTold (Event.polled effect answer elapsed) s o v = ground arith
step-IsTold (Event.last_status_read effect answer) s o v = ground arith
step-IsTold e s o v = ground arith

-- After a poll has failed, a new link has nobody who waits for its /start: the window is open before
-- and after, so the effect does not run again, and the error that told of it is gone.
pub new_link_unwatched :
    (s : BotStep) (pairing : Pairing) (token : ℕ)
    → s.pairing_active ≡ true
    → s.csrf ≡ some token
    → s.loop ≡ none
    → s.pairing_busy ≡ false
    → let t =
        step
          (pairing_status_read (window true))
          (step (pairing_started pairing) (step pairing_opened s)) in
      (t.loop ≡ none)
      × (t.pairing ≡ some pairing)
      × (t.pairing_active ≡ true)
      × (t.pairing_error ≡ none)
      × (t.pairing_notice ≡ none)
unfolding step
new_link_unwatched s pairing token a c l b = ground arith

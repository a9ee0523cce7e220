-- ===== src/Feed/Live.antt =====
-- apps/web/src/hooks/useLiveMatches.ts: the list of the feed, reloaded as a whole at every event of
-- the stream. The matches are of any type.
use teleyes.Common.{
  ◌≡◌, refl, Bool, true, false, List, [], ◌∷◌, Option, none, some, if◌then◌else◌, arith,
}

pub data FeedConnectionState : Type 0 where
  connecting connected broken : FeedConnectionState

-- `failed` says that `error` holds its one message.
pub record Live (Match : Type 0) : Type 0 where
  pub matches : List Match
  pub loading : Bool
  pub failed : Bool
  pub connection_state : FeedConnectionState
  pub cancelled : Bool

-- The answer to a reload (`none` where it was rejected), the two signals of the EventSource, and the
-- cleanup. A reload starts at the mount, at each `match`, `match_deleted` and `resync`, and on demand;
-- it changes nothing before its answer.
pub data Event (Match : Type 0) : Type 0 where
  answered : Option (List Match) → Event Match
  opened stream_failed unmounted : Event Match

module _ {Match : Type 0} where
  unfoldable pub init : Live Match
  init = record {
    matches = [];
    loading = true;
    failed = false;
    connection_state = connecting;
    cancelled = false;
  }

  unfoldable pub answer : Option (List Match) → Live Match → Live Match
  answer none s = record s { failed = true; loading = false }
  answer (some found) s = record s { matches = found; failed = false; loading = false }

  unfoldable pub step : Event Match → Live Match → Live Match
  unfolding answer
  step (answered result) s = if s.cancelled then s else answer result s
  step opened s = if s.cancelled then s else record s { connection_state = connected }
  step stream_failed s = if s.cancelled then s else record s { connection_state = broken }
  step unmounted s = record s { cancelled = true }

  unfoldable pub run : List (Event Match) → Live Match → Live Match
  run [] s = s
  run (e ∷ es) s = run es (step e s)

  -- The list of the last answer that arrived before the cleanup, `shown` where none did.
  abbrev pub last_answer : List Match → List (Event Match) → List Match
  last_answer shown [] = shown
  last_answer shown (answered (some found) ∷ es) = last_answer found es
  last_answer shown (answered none ∷ es) = last_answer shown es
  last_answer shown (opened ∷ es) = last_answer shown es
  last_answer shown (stream_failed ∷ es) = last_answer shown es
  last_answer shown (unmounted ∷ es) = shown

  run_cancelled :
      (es : List (Event Match)) (s : Live Match)
      → s.cancelled ≡ true
      → (run es s).matches ≡ s.matches
  unfolding run step
  run_cancelled [] s h = refl
  run_cancelled (answered r ∷ es) s h = simp h (run_cancelled es s h)
  run_cancelled (opened ∷ es) s h = simp h (run_cancelled es s h)
  run_cancelled (stream_failed ∷ es) s h = simp h (run_cancelled es s h)
  run_cancelled (unmounted ∷ es) s h = run_cancelled es _ refl

  -- The feed shows the list of the last answer that arrived before the cleanup: a failed reload keeps
  -- the list, and an answer is shown whichever request it answers.
  pub run-last_answer :
      (es : List (Event Match)) (s : Live Match)
      → s.cancelled ≡ false
      → (run es s).matches ≡ last_answer s.matches es
  unfolding run step
  run-last_answer [] s h = refl
  run-last_answer (answered none ∷ es) s h = ground (arith, run-last_answer es (answer none s) h)
  run-last_answer (answered (some found) ∷ es) s h =
      ground (arith, run-last_answer es (answer (some found) s) h)
  run-last_answer (opened ∷ es) s h =
      ground (arith, run-last_answer es (record s { connection_state = connected }) h)
  run-last_answer (stream_failed ∷ es) s h =
      ground (arith, run-last_answer es (record s { connection_state = broken }) h)
  run-last_answer (unmounted ∷ es) s h = run_cancelled es (record s { cancelled = true }) refl

  -- A reload that was asked for first and is answered last puts its older list over the newer one.
  pub answer_overtaken :
      (older newer : List Match) (s : Live Match)
      → s.cancelled ≡ false
      → (run (answered (some newer) ∷ answered (some older) ∷ []) s).matches ≡ older
  answer_overtaken older newer s h =
      run-last_answer (answered (some newer) ∷ answered (some older) ∷ []) s h

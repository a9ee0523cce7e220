-- ===== src/Chrome/Scroll.antt =====
-- apps/web/src/chrome/scrollChrome.ts: the mode of the compact chrome and the hook that drives it. The
-- animations that a change starts are not modelled; `notified` counts the calls of the listeners.
-- `scroll_y` is the scroll position in whole pixels; a position above the top, as a bounce gives it,
-- acts as 0 does.
use teleyes.Common.{
  ℕ, suc, Bool, true, false, not, Option, none, some, List, [], ◌∷◌, ltb, ◌==◌, if◌then◌else◌, keep,
}

pub data ChromeMode : Type 0 where
  off rest compact : ChromeMode

abbrev pub enter_compact_at : ℕ
enter_compact_at = 140

abbrev pub leave_compact_at : ℕ
leave_compact_at = 24

unfoldable pub next_chrome_mode : ChromeMode → ℕ → ChromeMode
next_chrome_mode compact scroll_y = if ltb scroll_y leave_compact_at then rest else compact
next_chrome_mode _ scroll_y = if ltb enter_compact_at scroll_y then compact else rest

abbrev pub same_mode : ChromeMode → ChromeMode → Bool
same_mode off off = true
same_mode rest rest = true
same_mode compact compact = true
same_mode _ _ = false

-- `dataset` is `html[data-chrome]`, which is missing while the mode is off. `mounted` says that an
-- effect runs and `effect` numbers the effects. `frame` is the variable of the last effect, `none` for
-- 0; `requested` lists the animation frames that are still to run, each with the effect whose `update`
-- it calls.
pub record Chrome : Type 0 where
  pub mode : ChromeMode
  pub dataset : Option ChromeMode
  pub notified : ℕ
  pub mounted : Bool
  pub effect : ℕ
  pub frame : Option ℕ
  pub requested : List (ℕ × ℕ)
  pub next_frame : ℕ

unfoldable pub init : Chrome
init = record {
  mode = off;
  dataset = none;
  notified = 0;
  mounted = false;
  effect = 0;
  frame = none;
  requested = [];
  next_frame = 1;
}

abbrev pub dataset_of : ChromeMode → Option ChromeMode
dataset_of off = none
dataset_of rest = some rest
dataset_of compact = some compact

unfoldable pub set_mode : ChromeMode → Chrome → Chrome
set_mode next c =
    if same_mode next c.mode
    then c
    else record c { mode = next; dataset = dataset_of next; notified = suc c.notified }

abbrev pub rest_of_off : ChromeMode → ChromeMode
rest_of_off off = rest
rest_of_off mode = mode

-- `update` of the effect `effect`: `wide` is `media.matches`.
unfoldable pub update : ℕ → Bool → ℕ → Chrome → Chrome
unfolding set_mode next_chrome_mode
update effect wide scroll_y c =
    set_mode (if wide then next_chrome_mode (rest_of_off c.mode) scroll_y else off)
      (record c { frame = if effect == c.effect then none else c.frame })

-- An effect starts.
unfoldable pub mount : Bool → ℕ → Chrome → Chrome
unfolding update
mount wide scroll_y c =
    if c.mounted
    then c
    else update (suc c.effect) wide scroll_y
        (record c { mounted = true; effect = suc c.effect; frame = none })

abbrev pub cancel_frame : Option ℕ → List (ℕ × ℕ) → List (ℕ × ℕ)
cancel_frame none requested = requested
cancel_frame (some frame) requested = keep (λ request. not (request.0 == frame)) requested

-- The cleanup of the effect.
unfoldable pub unmount : Chrome → Chrome
unfolding set_mode
unmount c =
    if c.mounted
    then set_mode off (record c { requested = cancel_frame c.frame c.requested; mounted = false })
    else c

-- `schedule`, at a scroll.
unfoldable pub schedule : Chrome → Chrome
schedule c = elim c.frame [
  | none ↦
      if c.mounted
      then record c {
        frame = some c.next_frame;
        requested = (c.next_frame, c.effect) ∷ c.requested;
        next_frame = suc c.next_frame;
      }
      else c
  | some frame ↦ c
]

abbrev pub effect_of : ℕ → List (ℕ × ℕ) → Option ℕ
effect_of frame [] = none
effect_of frame ((number, effect) ∷ requested) =
    if number == frame then some effect else effect_of frame requested

-- A frame that was asked for and not cancelled.
unfoldable pub frame_runs : ℕ → Bool → ℕ → Chrome → Chrome
unfolding update
frame_runs frame wide scroll_y c = elim (effect_of frame c.requested) [
  | none ↦ c
  | some effect ↦
      update effect wide scroll_y (record c { requested = cancel_frame (some frame) c.requested })
]

-- `media` changes.
unfoldable pub media_changes : Bool → ℕ → Chrome → Chrome
unfolding update
media_changes wide scroll_y c = if c.mounted then update c.effect wide scroll_y c else c

pub data Event : Type 0 where
  mounts media_changed : Bool → ℕ → Event
  frame_ran : ℕ → Bool → ℕ → Event
  unmounts scrolled : Event

unfoldable pub step : Event → Chrome → Chrome
unfolding mount unmount schedule frame_runs media_changes
step (mounts wide scroll_y) c = mount wide scroll_y c
step (frame_ran frame wide scroll_y) c = frame_runs frame wide scroll_y c
step (media_changed wide scroll_y) c = media_changes wide scroll_y c
step unmounts c = unmount c
step scrolled c = schedule c

unfoldable pub run : List Event → Chrome → Chrome
run [] c = c
run (e ∷ es) c = run es (step e c)

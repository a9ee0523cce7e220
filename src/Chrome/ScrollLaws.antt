-- ===== src/Chrome/ScrollLaws.antt =====
-- The hysteresis of the compact chrome, and what its state means.
use teleyes.Common.{
  ℕ, suc, ◌≡◌, ◌≢◌, ◌⊎◌, ◌≤◌, refl, true, Option, none, some, List, [], ◌∷◌, arith, All,
}
use teleyes.Chrome.Scroll.{
  ChromeMode, off, rest, compact, next_chrome_mode, Chrome, init, dataset_of, Event, step, run,
}

-- A run of scroll positions, each read with the mode that the last one left.
abbrev pub modes : ChromeMode → List ℕ → List ChromeMode
modes mode [] = []
modes mode (y ∷ ys) = next_chrome_mode mode y ∷ modes (next_chrome_mode mode y) ys

-- Once the mode is on, no sequence of positions between 24 and 140 pixels changes it, so it cannot
-- flicker there.
pub modes_steady :
    (mode : ChromeMode) (ys : List ℕ)
    → mode ≢ off
    → All (λ y. (24 ≤ y) × (y ≤ 140)) ys
    → All (λ m. m ≡ mode) (modes mode ys)
unfolding next_chrome_mode
modes_steady mode [] h k = tt
modes_steady off (y ∷ ys) h k = absurd (h refl)
modes_steady rest (y ∷ ys) h (bounds, k) = ground (arith, modes_steady rest ys h k)
modes_steady compact (y ∷ ys) h (bounds, k) = ground (arith, modes_steady compact ys h k)

-- The one request that the variable `frame` of an effect names.
abbrev pub named : Option ℕ → ℕ → List (ℕ × ℕ)
named none effect = []
named (some frame) effect = (frame, effect) ∷ []

-- The attribute shows the mode. A mounted hook has asked for no frame but the one it names; an
-- unmounted one has left the chrome off with no frame to run.
pub record IsShown (c : Chrome) : Type 0 where
  pub attribute : c.dataset ≡ dataset_of c.mode
  pub asked : (c.requested ≡ []) ⊎ (c.requested ≡ named c.frame c.effect)
  pub ended : (c.mounted ≡ true) ⊎ ((c.mode ≡ off) × (c.requested ≡ []))

-- A change of the media query comes while no frame is asked for.
abbrev pub IsOrderly : List Event → Chrome → Type 0
IsOrderly [] c = Unit
IsOrderly (Event.media_changed wide y ∷ es) c =
    (c.requested ≡ []) × IsOrderly es (step (Event.media_changed wide y) c)
IsOrderly (e ∷ es) c = IsOrderly es (step e c)

step-IsShown :
    (e : Event) (es : List Event) (c : Chrome)
    → IsOrderly (e ∷ es) c
    → IsShown c
    → IsShown (step e c)
unfolding step
step-IsShown (Event.mounts wide y) es c o v = ground arith
step-IsShown (Event.frame_ran f wide y) es c o v = ground arith
step-IsShown (Event.media_changed wide y) es c o v = ground arith
step-IsShown Event.unmounts es c o v = ground arith
step-IsShown Event.scrolled es c o v = ground arith

rest-IsOrderly :
    (e : Event) (es : List Event) (c : Chrome) → IsOrderly (e ∷ es) c → IsOrderly es (step e c)
rest-IsOrderly (Event.media_changed wide y) es c o = o.1
rest-IsOrderly (Event.mounts wide y) es c o = o
rest-IsOrderly (Event.frame_ran f wide y) es c o = o
rest-IsOrderly Event.unmounts es c o = o
rest-IsOrderly Event.scrolled es c o = o

run_from : (es : List Event) (c : Chrome) → IsOrderly es c → IsShown c → IsShown (run es c)
unfolding run
run_from [] c o v = v
run_from (e ∷ es) c o v = run_from es (step e c) (rest-IsOrderly e es c o) (step-IsShown e es c o v)

init-IsShown : IsShown init
unfolding init
init-IsShown = ground arith

-- After every sequence of events in which the media query changes only while no frame is asked for,
-- the attribute on the page shows the mode, and an unmounted hook has left the chrome off with no frame
-- that could turn it on again.
pub run-IsShown : (es : List Event) → IsOrderly es init → IsShown (run es init)
run-IsShown es o = run_from es init o init-IsShown

-- The listeners are called exactly when an event changes the mode.
pub step-notified :
    (e : Event) (c : Chrome)
    → ((step e c).notified ≡ suc c.notified × ((step e c).mode ≢ c.mode))
      ⊎ (((step e c).notified ≡ c.notified) × ((step e c).mode ≡ c.mode))
unfolding step
step-notified (Event.mounts wide y) c = ground arith
step-notified (Event.frame_ran f wide y) c = ground arith
step-notified e c = ground arith

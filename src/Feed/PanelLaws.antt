-- ===== src/Feed/PanelLaws.antt =====
-- The panel's phases, its timer and the URL.
use teleyes.Common.{ℕ, ◌≡◌, ◌≢◌, ◌↔◌, true, false, Option, none, some, List, [], ◌∷◌, arith}
use teleyes.Feed.Panel.{Panel, closed, opened, closing, Event, step, run, init}

-- The exit timer runs exactly while the panel closes; an open panel has a product, a closed one none.
pub record IsConsistent (p : Panel) : Type 0 where
  pub animated : (p.timer ≡ true) ↔ (p.phase ≡ closing)
  pub filled : (p.phase ≡ opened) → p.product_key ≢ none
  pub emptied : (p.phase ≡ closed) → p.product_key ≡ none

step-IsConsistent : (e : Event) (p : Panel) → IsConsistent p → IsConsistent (step e p)
unfolding step
step-IsConsistent (Event.opens key trigger) p v = ground arith
step-IsConsistent e p v = ground arith

run_from : (es : List Event) (p : Panel) → IsConsistent p → IsConsistent (run es p)
unfolding run
run_from [] p v = v
run_from (e ∷ es) p v = run_from es (step e p) (step-IsConsistent e p v)

init-IsConsistent : (key : Option ℕ) → IsConsistent (init key)
unfolding init
init-IsConsistent none = ground arith
init-IsConsistent (some key) = ground arith

-- After every sequence of events the exit timer runs exactly while the panel closes, an open panel
-- shows a product, and a closed one shows none.
pub run-IsConsistent : (key : Option ℕ) (es : List Event) → IsConsistent (run es (init key))
run-IsConsistent key es = run_from es (init key) (init-IsConsistent key)

-- The panel agrees with the URL: it is open exactly while there is a key, and on that product; no
-- own change of the URL is still to be seen.
pub record IsSynced (p : Panel) : Type 0 where
  pub settled : p.self_initiated ≡ false
  pub open_iff : (p.phase ≡ opened) ↔ (p.url_key ≢ none)
  pub same : (p.phase ≡ opened) → p.product_key ≡ p.url_key

-- What the buttons should not be asked for: to open the product that the URL names, or to close
-- while it names none.
abbrev pub IsFresh : Event → Panel → Type 0
IsFresh (Event.opens key trigger) p = p.url_key ≢ some key
IsFresh Event.closes p = p.url_key ≢ none
IsFresh _ p = Unit

-- In a consistent panel that agrees with the URL, opening a product that the URL does not name,
-- closing while it names one, the end of the exit animation and every navigation keep the
-- agreement.
pub step-IsSynced :
    (e : Event) (p : Panel) → IsConsistent p → IsFresh e p → IsSynced p → IsSynced (step e p)
unfolding step
step-IsSynced (Event.opens key trigger) p v f s = ground arith
step-IsSynced Event.closes p v f s = ground arith
step-IsSynced Event.exit_ended p v f s = ground arith
step-IsSynced (Event.navigated none) p v f s = ground arith
step-IsSynced (Event.navigated (some key)) p v f s = ground arith

-- Opening the product that the URL names already leaves the mark of an own change behind: the next
-- navigation to a URL without a product is taken for it and ignored, so the panel stays open.
pub own_change_misses_navigation :
    (key : ℕ) (trigger : Option ℕ) (p : Panel)
    → p.url_key ≡ some key
    → let q = step (Event.navigated none) (step (Event.opens key trigger) p) in
      (q.url_key ≡ none) × (q.phase ≡ opened) × (q.product_key ≡ some key)
unfolding step
own_change_misses_navigation key trigger p h = ground arith

-- Closing while the URL names no product leaves the mark of an own change behind: the next navigation
-- to a product opens nothing, and after the exit animation the panel is closed over its URL.
pub second_close_misses_navigation :
    (key : ℕ) (p : Panel)
    → p.url_key ≡ none
    → let q = step Event.exit_ended (step (Event.navigated (some key)) (step Event.closes p)) in
      (q.url_key ≡ some key) × (q.phase ≡ closed) × (q.product_key ≡ none)
unfolding step
second_close_misses_navigation key p h = ground arith

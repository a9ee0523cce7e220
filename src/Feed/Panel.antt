-- ===== src/Feed/Panel.antt =====
-- apps/web/src/hooks/useProductPanel.ts: opening and closing the product panel, whose key stands in
-- the URL. A product key and an element are numbers; `focused` lists the elements that got the focus
-- back, the latest first.
use teleyes.Common.{ℕ, Bool, true, false, Option, none, some, List, [], ◌∷◌, ◌==◌, if◌then◌else◌}

pub data ProductPanelPhase : Type 0 where
  closed opened closing : ProductPanelPhase

-- `timer` says that the timer of the exit animation runs.
pub record Panel : Type 0 where
  pub url_key : Option ℕ
  pub product_key : Option ℕ
  pub phase : ProductPanelPhase
  pub trigger : Option ℕ
  pub timer : Bool
  pub self_initiated : Bool
  pub focused : List ℕ

abbrev pub same_key : Option ℕ → Option ℕ → Bool
same_key none none = true
same_key (some a) (some b) = a == b
same_key _ _ = false

-- `scheduleClosedAfterExit`: a timer that runs is cleared first.
abbrev pub schedule_closed_after_exit : Panel → Panel
schedule_closed_after_exit p = record p { timer = true }

abbrev pub close_from_outside : ProductPanelPhase → Panel → Panel
close_from_outside closed p = p
close_from_outside _ p = schedule_closed_after_exit (record p { phase = closing })

abbrev pub show_url_key : Option ℕ → Panel → Panel
show_url_key none p = close_from_outside p.phase p
show_url_key (some key) p = record p { timer = false; product_key = some key; phase = opened }

-- The effect on `urlKey`.
unfoldable pub on_url : Panel → Panel
on_url p =
    if p.self_initiated then record p { self_initiated = false } else show_url_key p.url_key p

-- A new URL; the effect runs only if its key is another one.
unfoldable pub navigate : Option ℕ → Panel → Panel
unfolding on_url
navigate key p = if same_key key p.url_key then p else on_url (record p { url_key = key })

-- The mount, with the key of the first URL.
unfoldable pub init : Option ℕ → Panel
unfolding on_url
init key = on_url (record {
  url_key = key;
  product_key = none;
  phase = closed;
  trigger = none;
  timer = false;
  self_initiated = false;
  focused = [];
})

unfoldable pub open_panel : ℕ → Option ℕ → Panel → Panel
unfolding navigate
open_panel key trigger p = navigate (some key) (record p {
  trigger = trigger;
  timer = false;
  self_initiated = true;
  product_key = some key;
  phase = opened;
})

unfoldable pub close_panel : Panel → Panel
unfolding navigate
close_panel p =
    navigate none (schedule_closed_after_exit (record p { self_initiated = true; phase = closing }))

abbrev pub focus : Option ℕ → List ℕ → List ℕ
focus none focused = focused
focus (some element) focused = element ∷ focused

-- The timer of the exit animation, if it was not cleared.
unfoldable pub exit_ends : Panel → Panel
exit_ends p =
    if p.timer
    then record p {
      timer = false;
      phase = closed;
      product_key = none;
      trigger = none;
      focused = focus p.trigger p.focused;
    }
    else p

-- `navigated` is the browser's back or forward button, or a link.
pub data Event : Type 0 where
  opens : ℕ → Option ℕ → Event
  closes exit_ended : Event
  navigated : Option ℕ → Event

unfoldable pub step : Event → Panel → Panel
unfolding open_panel close_panel exit_ends navigate
step (opens key trigger) p = open_panel key trigger p
step closes p = close_panel p
step exit_ended p = exit_ends p
step (navigated key) p = navigate key p

unfoldable pub run : List Event → Panel → Panel
run [] p = p
run (e ∷ es) p = run es (step e p)

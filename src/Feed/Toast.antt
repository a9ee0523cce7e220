-- ===== src/Feed/Toast.antt =====
-- apps/web/src/hooks/useToast.ts: the one toast of a page. Timers are numbers; `live` lists those that
-- were set and neither cleared nor fired. A message is a number.
use teleyes.Common.{
  ℕ, suc, ◌≡◌, ◌↔◌, ◌⊎◌, Bool, true, false, not, Option, none, some, List, [], ◌∷◌, ◌==◌,
  if◌then◌else◌, keep, arith,
}

pub data ToastTone : Type 0 where
  success error : ToastTone

pub record ToastState : Type 0 where
  pub id : ℕ
  pub message : ℕ
  pub tone : ToastTone

-- `timeout` is `timeoutRef`, which keeps the number of a timer that fired.
pub record Toasts : Type 0 where
  pub toast : Option ToastState
  pub timeout : Option ℕ
  pub next_id : ℕ
  pub live : List ℕ
  pub next_timer : ℕ

unfoldable pub init : Toasts
init = record { toast = none; timeout = none; next_id = 0; live = []; next_timer = 0 }

abbrev pub clear : Option ℕ → List ℕ → List ℕ
clear none live = live
clear (some timer) live = keep (λ t. not (t == timer)) live

unfoldable pub dismiss : Toasts → Toasts
dismiss s = record s { toast = none; live = clear s.timeout s.live }

unfoldable pub show_toast : ℕ → ToastTone → Toasts → Toasts
show_toast message tone s = record s {
  toast = some (record { id = suc s.next_id; message = message; tone = tone });
  timeout = some s.next_timer;
  next_id = suc s.next_id;
  live = s.next_timer ∷ clear s.timeout s.live;
  next_timer = suc s.next_timer;
}

abbrev pub mem : ℕ → List ℕ → Bool
mem a [] = false
mem a (b ∷ bs) = if b == a then true else mem a bs

-- A timer fires if it is live, and sets the toast to `null`.
unfoldable pub timer_fires : ℕ → Toasts → Toasts
timer_fires timer s =
    if mem timer s.live
    then record s { toast = none; live = keep (λ t. not (t == timer)) s.live }
    else s

pub data Event : Type 0 where
  shown : ℕ → ToastTone → Event
  dismissed : Event
  timer_fired : ℕ → Event

unfoldable pub step : Event → Toasts → Toasts
unfolding dismiss show_toast timer_fires
step (shown message tone) s = show_toast message tone s
step dismissed s = dismiss s
step (timer_fired timer) s = timer_fires timer s

unfoldable pub run : List Event → Toasts → Toasts
run [] s = s
run (e ∷ es) s = run es (step e s)

-- While a toast is shown, the timer of `timeoutRef` is the only live one; without a toast none is live.
pub record IsTimed (s : Toasts) : Type 0 where
  pub alone : (s.live ≡ []) ⊎ ((timer : ℕ) × (s.timeout ≡ some timer) × (s.live ≡ timer ∷ []))
  pub timed : (s.toast ≡ none) ↔ (s.live ≡ [])

step-IsTimed : (e : Event) (s : Toasts) → IsTimed s → IsTimed (step e s)
unfolding step
step-IsTimed (shown message tone) s v = ground arith
step-IsTimed dismissed s v = ground arith
step-IsTimed (timer_fired timer) s v = ground arith

run_from : (es : List Event) (s : Toasts) → IsTimed s → IsTimed (run es s)
unfolding run
run_from [] s v = v
run_from (e ∷ es) s v = run_from es (step e s) (step-IsTimed e s v)

init-IsTimed : IsTimed init
unfolding init
init-IsTimed = ground arith

-- After every sequence of events a shown toast has exactly one live timer, the last that was set, so
-- each toast ends and no earlier timer cuts it short; without a toast no timer is live.
pub run-IsTimed : (es : List Event) → IsTimed (run es init)
run-IsTimed es = run_from es init init-IsTimed

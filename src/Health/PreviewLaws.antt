-- ===== src/Health/PreviewLaws.antt =====
-- What apps/web/src/hooks/useRecipientPreview.ts shows while answers come in any order.
use teleyes.Common.{
  ℕ, suc, ◌+◌, ◌<◌, ◌≡◌, ◌⊎◌, refl, inl, inr, Bool, true, false, ◌&&◌, List, [], ◌∷◌, ◌==◌,
  if◌then◌else◌, arith, All, Bool-cases, call_at, without_at, calls_of, calls_of-without_at,
  All-without_at, All-call_at, option_cases, if_cases,
}
use teleyes.Health.RecipientPreview.{
  Answer, accepted, refused, Shown, nothing, preview, failed, Hook, init, same_flag, render,
  timer_fires, show, answer_request, Event, rendered, timer_fired, answered, step, run,
}

-- A request was made by an older effect, or by the running one for its key.
abbrev IsMade : ℕ → ℕ → ℕ × ℕ → Type 0
IsMade effect key request = (request.0 < effect) ⊎ ((request.0 ≡ effect) × (request.1 ≡ key))

-- The state comes from a request for the key.
abbrev pub IsShown : ℕ → Shown → Type 0
IsShown key nothing = ⊥
IsShown key (preview asked content) = asked ≡ key
IsShown key (failed asked message) = asked ≡ key

-- How many requests of the running effect are out.
abbrev pub own_out : Hook → ℕ
own_out h = calls_of (λ request. request.0) h.effect h.out

-- With the timer and the request of the running effect done, an enabled hook shows the answer to the
-- current key; a disabled one has neither.
pub record IsCurrent (h : Hook) : Type 0 where
  pub made : All (IsMade h.effect h.key) h.out
  pub quiet : (h.enabled ≡ true) ⊎ ((h.timer ≡ false) × (own_out h ≡ 0))
  pub single : own_out h + (if h.timer then 1 else 0) < 2
  pub shown : (h.enabled ≡ false) ⊎ ((h.timer ≡ true) ⊎ ((own_out h ≡ 1) ⊎ IsShown h.key h.state))

IsMade-older :
    (effect key next : ℕ) (out : List (ℕ × ℕ))
    → All (IsMade effect key) out
    → All (IsMade (suc effect) next) out
IsMade-older effect key next [] h = tt
IsMade-older effect key next (request ∷ out) h =
    (inl (let k = h.0 in ground (arith, k)), IsMade-older effect key next out h.1)

none_own :
    (effect key : ℕ) (out : List (ℕ × ℕ))
    → All (IsMade effect key) out
    → calls_of (λ request. request.0) (suc effect) out ≡ 0
none_own effect key [] h = refl
none_own effect key (request ∷ out) h =
    let k = h.0 in ground (arith, k, none_own effect key out h.1)

rerun-IsCurrent :
    (key : ℕ) (enabled : Bool) (h : Hook)
    → All (IsMade h.effect h.key) h.out
    → IsCurrent (record h { key = key; enabled = enabled; effect = suc h.effect; timer = enabled })
rerun-IsCurrent key true h made =
    let free = none_own h.effect h.key h.out made in
    record {
      made = IsMade-older h.effect h.key key h.out made;
      quiet = inl refl;
      single = rw free (omega arith);
      shown = inr (inl refl);
    }
rerun-IsCurrent key false h made =
    let free = none_own h.effect h.key h.out made in
    record {
      made = IsMade-older h.effect h.key key h.out made;
      quiet = inr (refl, free);
      single = rw free (omega arith);
      shown = inl refl;
    }

render-IsCurrent :
    (key : ℕ) (enabled : Bool) (h : Hook) → IsCurrent h → IsCurrent (render key enabled h)
unfolding render
render-IsCurrent key enabled h v = elim (Bool-cases (key == h.key && same_flag enabled h.enabled)) [
  | inl e ↦ rw e v
  | inr e ↦ rw e (rerun-IsCurrent key enabled h v.made)
]

fired-IsCurrent :
    (h : Hook)
    → h.timer ≡ true
    → IsCurrent h
    → IsCurrent
        (record h { timer = false; out = (h.effect, h.key) ∷ h.out; requests = h.key ∷ h.requests })
fired-IsCurrent h e v =
    let quiet = v.quiet in
    let single = v.single in
    let one : calls_of (λ r. r.0) h.effect ((h.effect, h.key) ∷ h.out) ≡ 1 =
      ground (arith, e, single) in
    record {
      made = (inr (refl, refl), v.made);
      quiet = ground (arith, e, quiet);
      single = rw one (omega arith);
      shown = inr (inr (inl one));
    }

timer_fires-IsCurrent : (h : Hook) → IsCurrent h → IsCurrent (timer_fires h)
unfolding timer_fires
timer_fires-IsCurrent h v = if_cases IsCurrent h.timer (λ e. fired-IsCurrent h e v) (λ e. v)

IsShown-show : (key asked : ℕ) (response : Answer) → asked ≡ key → IsShown key (show asked response)
IsShown-show key asked (accepted content) e = e
IsShown-show key asked (refused message) e = e

answered-IsCurrent :
    (n : ℕ) (response : Answer) (h : Hook) → IsCurrent h → IsCurrent (step (answered n response) h)
unfolding step answer_request
answered-IsCurrent n response h v = elim (option_cases (call_at n h.out)) [
  | inl e ↦ rw e v
  | inr (request, e) ↦
      let fewer = calls_of-without_at (λ r. r.0) h.effect n h.out request e in
      let rest = All-without_at (IsMade h.effect h.key) n h.out v.made in
      let mine = All-call_at (IsMade h.effect h.key) n h.out request v.made e in
      let quiet = v.quiet in
      let single = v.single in
      let shown = v.shown in
      elim (Bool-cases (request.0 == h.effect)) [
        | inl own ↦
            let same : request.1 ≡ h.key = ground (arith, own, mine) in
            rw (e, own)
              (record {
                made = rest;
                quiet = ground (arith, own, fewer, quiet);
                single = ground (arith, own, fewer, single);
                shown = inr (inr (inr (IsShown-show h.key request.1 response same)));
              })
        | inr stale ↦
            let equal : calls_of (λ r. r.0) h.effect (without_at n h.out) ≡ own_out h =
              ground (arith, stale, fewer) in
            rw (e, stale)
              (record {
                made = rest;
                quiet = rw equal quiet;
                single = rw equal single;
                shown = rw equal shown;
              })
      ]
]

step-IsCurrent : (e : Event) (h : Hook) → IsCurrent h → IsCurrent (step e h)
unfolding step
step-IsCurrent (rendered key enabled) h v = render-IsCurrent key enabled h v
step-IsCurrent timer_fired h v = timer_fires-IsCurrent h v
step-IsCurrent (answered n response) h v = answered-IsCurrent n response h v

run_from : (es : List Event) (h : Hook) → IsCurrent h → IsCurrent (run es h)
unfolding run
run_from [] h v = v
run_from (e ∷ es) h v = run_from es (step e h) (step-IsCurrent e h v)

init-IsCurrent : (key : ℕ) (enabled : Bool) → IsCurrent (init key enabled)
unfolding init
init-IsCurrent key true = ground arith
init-IsCurrent key false = ground arith

-- After every sequence of renders, timers and answers, in whatever order the answers come, an enabled
-- hook whose timer and request are done shows the preview or the failure that a request for the
-- current key was answered with, never the answer to an earlier key. The running effect has at most one
-- of its timer and its request, and none while the hook is disabled.
pub run-IsCurrent :
    (key : ℕ) (enabled : Bool) (es : List Event) → IsCurrent (run es (init key enabled))
run-IsCurrent key enabled es = run_from es (init key enabled) (init-IsCurrent key enabled)

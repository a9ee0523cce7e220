-- ===== src/Health/RecipientPreview.antt =====
-- apps/web/src/hooks/useRecipientPreview.ts: the debounced preview of a recipient. A key, a preview and a
-- message are numbers; an effect is named by its number.
use teleyes.Common.{
  ℕ, suc, Bool, true, false, ◌&&◌, Option, none, some, List, [], ◌∷◌, ◌==◌, if◌then◌else◌, call_at,
  without_at,
}

-- What the server answers to a request: a preview, or a failure with its message, which is none where
-- the hook has to use its own.
pub data Answer : Type 0 where
  accepted : ℕ → Answer
  refused : Option ℕ → Answer

-- The state that the hook shows, with the key of the request that it comes from.
pub data Shown : Type 0 where
  nothing : Shown
  preview : ℕ → ℕ → Shown
  failed : ℕ → Option ℕ → Shown

-- `effect` is the running effect, those before it are stale; `timer` says that its timer runs. `out`
-- lists the requests that are not answered, each with the effect that made it and the key that it asks
-- for, `requests` the keys of all requests, the latest first.
pub record Hook : Type 0 where
  pub key : ℕ
  pub enabled : Bool
  pub effect : ℕ
  pub timer : Bool
  pub out : List (ℕ × ℕ)
  pub state : Shown
  pub requests : List ℕ

unfoldable pub init : ℕ → Bool → Hook
init key enabled = record {
  key = key;
  enabled = enabled;
  effect = 0;
  timer = enabled;
  out = [];
  state = nothing;
  requests = [];
}

abbrev pub same_flag : Bool → Bool → Bool
same_flag true true = true
same_flag false false = true
same_flag _ _ = false

-- A render; the effect runs anew if the key or `enabled` is another, after the cleanup of the old one,
-- which leaves the requests of the old one out.
unfoldable pub render : ℕ → Bool → Hook → Hook
render key enabled h =
    if key == h.key && same_flag enabled h.enabled
    then h
    else record h { key = key; enabled = enabled; effect = suc h.effect; timer = enabled }

unfoldable pub timer_fires : Hook → Hook
timer_fires h =
    if h.timer
    then record h { timer = false; out = (h.effect, h.key) ∷ h.out; requests = h.key ∷ h.requests }
    else h

-- What the hook returns.
unfoldable pub result : Hook → Shown
result h = if h.enabled then h.state else nothing

abbrev pub show : ℕ → Answer → Shown
show key (accepted content) = preview key content
show key (refused message) = failed key message

-- The `then` and the `catch` of the request of an effect.
unfoldable pub answer_request : ℕ → ℕ → Answer → Hook → Hook
answer_request effect key answer h =
    if effect == h.effect then record h { state = show key answer } else h

-- The answer to a request that is out, by its place in `out`.
unfoldable pub answer : Option (ℕ × ℕ) → ℕ → Answer → Hook → Hook
unfolding answer_request
answer none n response h = h
answer (some request) n response h =
    answer_request request.0 request.1 response (record h { out = without_at n h.out })

pub data Event : Type 0 where
  rendered : ℕ → Bool → Event
  timer_fired : Event
  answered : ℕ → Answer → Event

unfoldable pub step : Event → Hook → Hook
unfolding render timer_fires answer
step (rendered key enabled) h = render key enabled h
step timer_fired h = timer_fires h
step (answered n response) h = answer (call_at n h.out) n response h

unfoldable pub run : List Event → Hook → Hook
run [] h = h
run (e ∷ es) h = run es (step e h)

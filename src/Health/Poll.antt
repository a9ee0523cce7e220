-- ===== src/Health/Poll.antt =====
-- apps/web/src/hooks/useHealth.ts: the poll of GET /health and the live connection beside it. An effect is
-- named by the number of the run that started it; its cleanup cancels what it left behind.
use teleyes.Common.{
  ℕ, suc, ◌≡◌, ◌≢◌, ◌⊎◌, Bool, true, false, ◌&&◌, Option, none, some, List, [], ◌∷◌, ◌==◌,
  if◌then◌else◌, arith,
}

pub data SseState : Type 0 where
  connecting open_now broken : SseState

-- `HealthResponse`: the state of Telegram, and the rest of the answer.
pub record HealthResponse : Type 0 where
  pub telegram_state : ℕ
  pub rest : ℕ

-- The state of the hook; `connected` is the EventSource of the running effect and `interval` its timer.
pub record Health : Type 0 where
  pub enabled : Bool
  pub health : Option HealthResponse
  pub loading : Bool
  pub error : Bool
  pub sse_state : SseState
  pub effect : ℕ
  pub interval : Bool
  pub connected : Bool

-- The effect of `[pollIntervalMs, enabled]`: a poll, a timer and a connection where it is enabled.
unfoldable pub start : Bool → Health → Health
start enabled h = record h {
  enabled = enabled;
  effect = suc h.effect;
  interval = enabled;
  connected = enabled;
}

unfoldable pub mount : Bool → Health
unfolding start
mount enabled = start enabled (record {
  enabled = enabled;
  health = none;
  loading = true;
  error = false;
  sse_state = connecting;
  effect = 0;
  interval = false;
  connected = false;
})

-- The answer to a poll of the effect `effect`; `none` where it failed.
unfoldable pub answer : Option HealthResponse → Health → Health
answer none h = record h { error = true; loading = false }
answer (some next) h = record h { health = some next; error = false; loading = false }

-- An event `adapter_state`.
unfoldable pub adapt : ℕ → Health → Health
adapt state h = elim h.health [
  | none ↦ h
  | some current ↦ record h { health = some (record current { telegram_state = state }) }
]

pub data Event : Type 0 where
  answered : ℕ → Option HealthResponse → Event
  connection : ℕ → SseState → Event
  adapter_state : ℕ → ℕ → Event
  -- A new `enabled` or another interval.
  restarted : Bool → Event

-- `cancelled` of an effect that a newer one replaced, or that is not enabled.
abbrev pub live : ℕ → Health → Bool
live effect h = effect == h.effect && h.enabled

unfoldable pub step : Event → Health → Health
unfolding answer adapt start
step (answered effect result) h = if live effect h then answer result h else h
step (connection effect state) h = if live effect h then record h { sse_state = state } else h
step (adapter_state effect state) h = if live effect h then adapt state h else h
step (restarted enabled) h = start enabled h

unfoldable pub run : List Event → Health → Health
run [] h = h
run (e ∷ es) h = run es (step e h)

-- What the hook says of the system was said by the system.
pub record IsHonest (h : Health) : Type 0 where
  pub polled : (h.interval ≡ h.enabled) × (h.connected ≡ h.enabled)
  pub waits : h.loading ≡ true → (h.health ≡ none) × (h.error ≡ false)
  pub told : h.loading ≡ false → (h.health ≢ none) ⊎ (h.error ≡ true)

step-IsHonest : (e : Event) (h : Health) → IsHonest h → IsHonest (step e h)
unfolding step
step-IsHonest (answered effect none) h v = ground arith
step-IsHonest (answered effect (some next)) h v = ground arith
step-IsHonest e h v = ground arith

run_from : (es : List Event) (h : Health) → IsHonest h → IsHonest (run es h)
unfolding run
run_from [] h v = v
run_from (e ∷ es) h v = run_from es (step e h) (step-IsHonest e h v)

mount-IsHonest : (enabled : Bool) → IsHonest (mount enabled)
unfolding mount
mount-IsHonest enabled = ground arith

-- After every sequence of events the hook polls and listens exactly while it is enabled; as long as it
-- is loading it shows neither health nor an error, and then always one of them.
pub run-IsHonest : (enabled : Bool) (es : List Event) → IsHonest (run es (mount enabled))
run-IsHonest enabled es = run_from es (mount enabled) (mount-IsHonest enabled)

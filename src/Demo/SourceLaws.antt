-- ===== src/Demo/SourceLaws.antt =====
-- The simulated stream of the static demo goes on as long as somebody listens.
use teleyes.Common.{
  ℕ, ◌≡◌, ◌≢◌, ◌⊎◌, refl, Bool, false, not, ◌&&◌, Option, none, some, List, [], ◌∷◌, ◌==◌, keep,
  All, arith, Option-cases, Bool-cases, inl, inr, ◌++◌,
}
use teleyes.Demo.Matches.{Match}
use teleyes.Demo.MockApi.{Fixtures, Live, next_live_match}
use teleyes.Demo.Source.{
  Hub, installed, mem, without, add, schedule_next, construct, open_source, close, tick, fire,
  timer_fires,
}

pub data Event : Type 0 where
  constructed : Event
  opened closed : ℕ → Event
  timer_fired : ℕ → Event

module _ (fixtures : Fixtures) where
  unfoldable pub step : Event → Hub → Hub
  unfolding construct open_source close timer_fires
  step constructed hub = construct hub
  step (opened id) hub = open_source id hub
  step (closed id) hub = close id hub
  step (timer_fired now) hub = timer_fires fixtures now hub

  unfoldable pub run : List Event → Hub → Hub
  run [] hub = hub
  run (e ∷ es) hub = run es (step e hub)

-- The timer runs while there are sources, and no source of the hub is closed.
pub record IsTicking (hub : Hub) : Type 0 where
  pub ticking : (hub.sources ≡ []) ⊎ (hub.timer ≢ none)
  pub open_only : All (λ id. mem id hub.closed ≡ false) hub.sources

keep-All : (P : ℕ → Type 0) (p : ℕ → Bool) (ids : List ℕ) → All P ids → All P (keep p ids)
keep-All P p [] h = tt
keep-All P p (i ∷ ids) (q, h) = elim (Bool-cases (p i)) [
  | inl e ↦ rw e (q, keep-All P p ids h)
  | inr e ↦ rw e (keep-All P p ids h)
]

without-open :
    (id : ℕ) (gone ids : List ℕ)
    → All (λ i. mem i gone ≡ false) ids
    → All (λ i. mem i (id ∷ gone) ≡ false) (without id ids)
without-open id gone [] h = tt
without-open id gone (i ∷ ids) (q, h) = elim (Bool-cases (i == id)) [
  | inl e ↦ rw e (without-open id gone ids h)
  | inr e ↦ rw e (ground (arith, e, q), without-open id gone ids h)
]

append-open : (id : ℕ) (P : ℕ → Type 0) (ids : List ℕ) → P id → All P ids → All P (ids ++ id ∷ [])
append-open id P [] p h = (p, tt)
append-open id P (i ∷ ids) p (q, h) = (q, append-open id P ids p h)

without-nil : (id : ℕ) (ids : List ℕ) → ids ≡ [] → without id ids ≡ []
without-nil id ids h = rw h refl

-- Where something is recorded, there is a next simulated offer.
next_live_match-some :
    (fixtures : Fixtures) (now : ℕ) (live : Live) (m : Match) (ms : List Match)
    → fixtures.base_matches ≡ m ∷ ms
    → next_live_match fixtures now live ≢ none
unfolding next_live_match
next_live_match-some fixtures now live m ms h = ground (arith, h)

add-All : (P : ℕ → Type 0) (id : ℕ) (ids : List ℕ) → P id → All P ids → All P (add id ids)
add-All P id ids p h = elim (Bool-cases (mem id ids)) [
  | inl e ↦ rw e h
  | inr e ↦ rw e (append-open id P ids p h)
]

open_source-IsTicking : (id : ℕ) (hub : Hub) → IsTicking hub → IsTicking (open_source id hub)
unfolding open_source
open_source-IsTicking id hub v = elim (Bool-cases (mem id hub.opening && not (mem id hub.closed))) [
  | inl e ↦
      let alive : mem id hub.closed ≡ false = ground (arith, e) in
      let added = add-All (λ i. mem i hub.closed ≡ false) id hub.sources alive v.open_only in
      rw e (record { ticking = inr (λ t. cc); open_only = added })
  | inr e ↦ rw e (ground arith)
]

close-IsTicking : (id : ℕ) (hub : Hub) → IsTicking hub → IsTicking (close id hub)
unfolding close
close-IsTicking id hub v = record {
  ticking = left v.ticking;
  open_only = without-open id hub.closed hub.sources v.open_only;
}
  where
    left :
        (hub.sources ≡ []) ⊎ (hub.timer ≢ none) → (without id hub.sources ≡ []) ⊎ (hub.timer ≢ none)
    left (inl e) = inl (without-nil id hub.sources e)
    left (inr t) = inr t

module _ (fixtures : Fixtures) (m : Match) (ms : List Match)
    (recorded : fixtures.base_matches ≡ m ∷ ms) where
  tick-IsTicking :
      (now : ℕ) (sources : List ℕ) (hub : Hub)
      → hub.sources ≡ sources
      → All (λ id. mem id hub.closed ≡ false) hub.sources
      → IsTicking (tick fixtures now sources hub)
  unfolding schedule_next
  tick-IsTicking now [] hub e h = record { ticking = inl e; open_only = h }
  tick-IsTicking now (id ∷ ids) hub e h =
      elim (Option-cases (next_live_match fixtures now hub.live)) [
        | inl none_left ↦
            absurd (next_live_match-some fixtures now hub.live m ms recorded none_left)
        | inr ((match, live), found) ↦ rw found (record { ticking = inr (λ t. cc); open_only = h })
      ]

  fire-IsTicking :
      (now : ℕ) (timer : Option ℕ) (hub : Hub)
      → IsTicking hub
      → IsTicking (fire fixtures now timer hub)
  unfolding schedule_next
  fire-IsTicking now none hub v = v
  fire-IsTicking now (some delay) hub v =
      tick-IsTicking now hub.sources (record hub { timer = none }) refl v.open_only

  step-IsTicking : (e : Event) (hub : Hub) → IsTicking hub → IsTicking (step fixtures e hub)
  unfolding step
  step-IsTicking constructed hub v = ground arith
  step-IsTicking (opened id) hub v = open_source-IsTicking id hub v
  step-IsTicking (closed id) hub v = close-IsTicking id hub v
  step-IsTicking (timer_fired now) hub v = fire-IsTicking now hub.timer hub v

  run_from : (es : List Event) (hub : Hub) → IsTicking hub → IsTicking (run fixtures es hub)
  unfolding run
  run_from [] hub v = v
  run_from (e ∷ es) hub v = run_from es (step fixtures e hub) (step-IsTicking e hub v)

  installed-IsTicking : (live : Live) → IsTicking (installed live)
  unfolding installed
  installed-IsTicking live = record { ticking = inl refl; open_only = tt }

  -- Where an offer is recorded, after every sequence of events the timer runs whenever a source is open,
  -- so the simulated offers never stop under a listener, and no closed source is in the hub, so none
  -- gets a message.
  pub run-IsTicking : (live : Live) (es : List Event) → IsTicking (run fixtures es (installed live))
  run-IsTicking live es = run_from es (installed live) (installed-IsTicking live)

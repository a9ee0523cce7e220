-- ===== src/Demo/Source.antt =====
-- apps/web/src/demo-static/install.ts: the event source of the static demo, with the one timer that all
-- sources share. The page is installed, so the hub has its API.
use teleyes.Common.{
  ℕ, suc, Bool, not, ◌&&◌, Option, none, some, List, [], ◌∷◌, ◌++◌, map, ◌==◌, if◌then◌else◌, keep,
  any,
}
use teleyes.Demo.Matches.{Match}
use teleyes.Demo.MockApi.{Fixtures, Live, next_live_match}

abbrev pub live_first_delay_ms : ℕ
live_first_delay_ms = 25_000

abbrev pub live_interval_ms : ℕ
live_interval_ms = 50_000

-- `DemoEventSource.hub` and the sources that were made: `opening` lists those whose first timeout has not
-- fired, `closed` those whose `readyState` is 2, `sources` the set of the hub. `received` lists the
-- messages, each with its source and the id of its match, the latest first.
pub record Hub : Type 0 where
  pub live : Live
  pub made : ℕ
  pub opening : List ℕ
  pub closed : List ℕ
  pub sources : List ℕ
  pub timer : Option ℕ
  pub received : List (ℕ × ℕ)

unfoldable pub installed : Live → Hub
installed live = record {
  live = live;
  made = 0;
  opening = [];
  closed = [];
  sources = [];
  timer = none;
  received = [];
}

abbrev pub mem : ℕ → List ℕ → Bool
mem id ids = any (λ i. i == id) ids

abbrev pub without : ℕ → List ℕ → List ℕ
without id ids = keep (λ i. not (i == id)) ids

abbrev pub or_delay : ℕ → Option ℕ → ℕ
or_delay delay none = delay
or_delay delay (some set) = set

-- `scheduleNext`: a timer that is set stays.
unfoldable pub schedule_next : ℕ → Hub → Hub
schedule_next delay hub = record hub { timer = some (or_delay delay hub.timer) }

-- `hub.sources.add(this)`
abbrev pub add : ℕ → List ℕ → List ℕ
add id ids = if mem id ids then ids else ids ++ id ∷ []

-- The constructor, and the timeout that it sets.
unfoldable pub construct : Hub → Hub
construct hub = record hub { made = suc hub.made; opening = hub.made ∷ hub.opening }

unfoldable pub open_source : ℕ → Hub → Hub
unfolding schedule_next
open_source id hub =
    let left = record hub { opening = without id hub.opening } in
    if mem id hub.opening && not (mem id hub.closed)
    then schedule_next live_first_delay_ms (record left { sources = add id hub.sources })
    else left

unfoldable pub close : ℕ → Hub → Hub
close id hub = record hub { closed = id ∷ hub.closed; sources = without id hub.sources }

module _ (fixtures : Fixtures) where
  -- The callback of the timer, at an instant on the recording's clock. Where nothing is recorded
  -- `nextLiveMatch` throws, and the callback ends there.
  abbrev pub deliver : Option (Match × Live) → Hub → Hub
  deliver none hub = hub
  deliver (some (match, live)) hub = schedule_next live_interval_ms (record hub {
    live = live;
    received = map (λ id. (id, match.id)) hub.sources ++ hub.received;
  })

  abbrev pub tick : ℕ → List ℕ → Hub → Hub
  tick now [] hub = hub
  tick now (id ∷ ids) hub = deliver (next_live_match fixtures now hub.live) hub

  abbrev pub fire : ℕ → Option ℕ → Hub → Hub
  fire now none hub = hub
  fire now (some delay) hub = tick now hub.sources (record hub { timer = none })

  unfoldable pub timer_fires : ℕ → Hub → Hub
  unfolding schedule_next
  timer_fires now hub = fire now hub.timer hub

-- ===== src/Demo/MockApiLaws.antt =====
-- A write of the app against the demo, and the simulated offers.
use native.Mathlib.Nat.{mod-lt}
use teleyes.Common.{
  ℕ, zero, suc, ◌+◌, ◌%◌, ◌≡◌, ◌<◌, inl, inr, refl, ap, Bool, true, false, Option, none, some, List,
  [], ◌∷◌, map, max, keep, length, All, arith, Option-cases, Bool-cases, sym, ◌∙◌,
}
use teleyes.Text.{Text, codes, text_eq}
use teleyes.Json.{Json, string, get}
use teleyes.Session.Http.{
  RequestInit, Response, plain_detail, extract_detail, is_write_method, is_session_expired,
  is_demo_read_only, sent, notified_demo, thrown, api_request,
}
use teleyes.Demo.Matches.{Match}
use teleyes.Demo.MockApi.{
  Body, written, detail, MockResponse, Query, Fixtures, Live, demo_readonly_detail, handle,
  has_product, at, live_match, next_live_match,
}

abbrev pub method_of : RequestInit → Text
method_of init = elim init.method [ none ↦ codes "GET" | some method ↦ method ]

-- The JSON of a body; `render` is the one of a body that is not written out in the code.
abbrev pub json_of : (Body → Json) → Body → Json
json_of render (written value) = value
json_of render body = render body

abbrev pub respond : (Body → Json) → MockResponse → Option Response
respond render answer =
    some (record { status = answer.status; json = some (json_of render answer.body) })

false-true : false ≡ true → ⊥
false-true h = cc

-- A write that the demo refuses.
refused_write :
    (fetch : ℕ → RequestInit → Option Response) (fallback : ℕ → Text) (reauth : Option ℕ)
    (init : RequestInit)
    → fetch 0 init
      ≡ some (record { status = 403; json = some (detail (string demo_readonly_detail)) })
    → is_write_method init.method ≡ true
    → api_request fetch fallback reauth init
      ≡ (sent init ∷ notified_demo ∷ [], thrown (plain_detail demo_readonly_detail) 403)
unfolding api_request extract_detail is_session_expired is_demo_read_only get text_eq
    demo_readonly_detail
refused_write fetch fallback reauth init e h = rw (e, h) refl

module _ (normalize : Text → Text) (is_recent : ℕ → ℕ → Bool) (next_run : ℕ) (shift : Body → Body)
    (render : Body → Json) (fixtures : Fixtures) (live : Live) (path : Text) (query : Query) where
  -- `fetch` of the static demo.
  abbrev pub demo_fetch : ℕ → RequestInit → Option Response
  demo_fetch n init =
      respond render
        (handle normalize is_recent next_run shift fixtures live (method_of init) path query)

  handle_verb :
      (method : Text)
      → is_write_method (some method) ≡ true
      → handle normalize is_recent next_run shift fixtures live method path query
        ≡ record { status = 403; body = written (detail (string demo_readonly_detail)) }
  unfolding handle is_write_method
  handle_verb method h = rw h refl

  handle_write :
      (init : RequestInit)
      → is_write_method init.method ≡ true
      → demo_fetch 0 init
        ≡ some (record { status = 403; json = some (detail (string demo_readonly_detail)) })
  unfolding is_write_method
  handle_write init h = elim (Option-cases init.method) [
    | inl none_sent ↦ absurd (false-true (sym (ap is_write_method none_sent) ∙ h))
    | inr (method, e) ↦ rw (e, handle_verb method (sym (ap is_write_method e) ∙ h)) refl
  ]

  -- Whatever write the app sends to the demo is sent once, asks for no login, tells the demo's banner, and
  -- ends with the demo's message.
  pub api_request_demo :
      (fallback : ℕ → Text) (reauth : Option ℕ) (init : RequestInit)
      → is_write_method init.method ≡ true
      → api_request demo_fetch fallback reauth init
        ≡ (sent init ∷ notified_demo ∷ [], thrown (plain_detail demo_readonly_detail) 403)
  api_request_demo fallback reauth init h =
      refused_write demo_fetch fallback reauth init (handle_write init h) h

-- The numbers of the simulated offers, the latest first.
abbrev pub countdown : ℕ → List ℕ
countdown zero = []
countdown (suc counter) = (1000000 + suc counter) ∷ countdown counter

pub record IsNumbered (live : Live) : Type 0 where
  pub numbered : map (λ m. m.id) live.matches ≡ countdown live.counter

at-All :
    (P : Match → Type 0) (index : ℕ) (ms : List Match)
    → All P ms
    → index < length ms
    → (m : Match) × (at index ms ≡ some m) × P m
at-All P index [] k h = ground arith
at-All P zero (m ∷ ms) (p, k) h = (m, refl, p)
at-All P (suc index) (m ∷ ms) (p, k) h = at-All P index ms k (omega (arith, h))

keep-All : (test : Match → Bool) (ms : List Match) → All (λ m. test m ≡ true) (keep test ms)
keep-All test [] = tt
keep-All test (m ∷ ms) = elim (Bool-cases (test m)) [
  | inl e ↦ rw e (e, keep-All test ms)
  | inr e ↦ rw e (keep-All test ms)
]

index_in_pool : (counter size : ℕ) → 0 < size → counter % max size 1 < size
index_in_pool counter size h =
    let one : max size 1 ≡ size = omega (arith, h) in rw one (mod-lt counter h)

-- With an offer of a known product recorded and the simulated offers numbered by their count, the
-- next simulated offer is one of a known product, stands first in the list, and the offers are
-- numbered by their count again, so no two have the same number.
pub next_live_match-IsNumbered :
    (fixtures : Fixtures) (now : ℕ) (live : Live)
    → 0 < length (keep (λ m. has_product m.product_key) fixtures.base_matches)
    → IsNumbered live
    → (match : Match) × (after : Live) × (next_live_match fixtures now live ≡ some (match, after))
      × (after.matches ≡ match ∷ live.matches)
      × (has_product match.product_key ≡ true)
      × IsNumbered after
unfolding next_live_match
next_live_match-IsNumbered fixtures now live h v =
    let pool = keep (λ m. has_product m.product_key) fixtures.base_matches in
    let index = live.counter % max (length pool) 1 in
    let (template, found, product) =
      at-All (λ m. has_product m.product_key ≡ true) index pool
        (keep-All (λ m. has_product m.product_key) fixtures.base_matches)
        (index_in_pool live.counter (length pool) h) in
    let match = live_match (1000000 + suc live.counter) now template in
    (
      match,
      record { matches = match ∷ live.matches; counter = suc live.counter },
      rw (next_live_match, found) refl,
      refl,
      product,
      record { numbered = ap (λ ids. (1000000 + suc live.counter) ∷ ids) v.numbered },
    )

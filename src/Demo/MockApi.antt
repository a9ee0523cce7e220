-- ===== src/Demo/MockApi.antt =====
-- apps/web/src/demo-static/mockApi.ts: `createMockApi`, which answers the requests of the static demo from
-- the recorded routes. The encoding of a query, the clock and the shift of the recorded instants are
-- parameters.
use teleyes.Common.{
  ℕ, zero, suc, ◌+◌, ◌*◌, ◌%◌, Bool, true, false, not, ◌&&◌, Option, none, some, List, [], ◌∷◌,
  ◌++◌, max, if◌then◌else◌, keep, length,
}
use teleyes.Text.{Text, codes, text_eq, starts_with}
use teleyes.Json.{Json, number, string, object, end, field}
use teleyes.Session.Http.{to_upper}
use teleyes.Demo.Matches.{Delivery, Match, MatchParams, filter_matches}
use teleyes.Demo.Preview.{Rule, PreviewParams, preview_recipient}

pub data Body : Type 0 where
  -- A body written out in the code.
  written : Json → Body
  -- A recorded body.
  recorded : Json → Body
  rows : List Match → Body
  counts : ℕ × List (ℕ × ℕ) → Body
  -- A recorded digest with its next run.
  digest : Json → ℕ → Body

pub record MockResponse : Type 0 where
  pub status : ℕ
  pub body : Body

-- A query: its text as `routeKey` writes it, whether it has a `range`, and what the handlers read.
pub record Query : Type 0 where
  pub text : Text
  pub has_range : Bool
  pub match_params : MatchParams
  pub preview_params : PreviewParams

-- `fixtures.routes`, with the parts of it that the handlers compute with.
pub record Fixtures : Type 0 where
  pub routes : List (Text × Json)
  pub base_matches : List Match
  pub rules : List Rule
  -- A week before the recording.
  pub week_ago : ℕ

pub record Live : Type 0 where
  pub matches : List Match
  pub counter : ℕ

abbrev pub detail : Json → Json
detail value = object (field (codes "detail") value end)

unfoldable pub demo_readonly_detail : Text
demo_readonly_detail = codes "Modo demonstração: alterações desativadas."

abbrev pub setup_body : Json
setup_body = detail (
    object (
      field (codes "code") (string (codes "demo_mode")) (
        field (codes "message")
          (string (codes "O assistente de configuração fica desativado na demonstração.")) end)))

abbrev pub admin_body : Json
admin_body = object (
    field (codes "admin_id") (number 1)
      (field (codes "csrf_token") (string (codes "demo-csrf-token")) end))

-- `routes.get(key)`
unfoldable pub route : Text → List (Text × Json) → Option Json
route key [] = none
route key ((k, body) ∷ routes) = if text_eq k key then some body else route key routes

-- `routeKey` of a decoded path.
abbrev pub route_key : Text → Text → Text
route_key path [] = path
route_key path (c ∷ query) = path ++ b'?' ∷ c ∷ query

abbrev pub or_else {ℓ} : {A : Type ℓ} → Option A → Option A → Option A
or_else none other = other
or_else (some a) other = some a

unfoldable pub lookup : List (Text × Json) → Text → Query → Option Json
lookup routes path query = or_else (route (route_key path query.text) routes) (
    or_else
      (if starts_with (codes "/products/") path && query.has_range
        then route (route_key path (codes "range=90d")) routes
        else none)
      (route path routes))

abbrev pub ok : Body → MockResponse
ok body = record { status = 200; body = body }

abbrev pub not_found : Text → MockResponse
not_found message = record { status = 404; body = written (detail (string message)) }

abbrev pub recorded_or : Text → Option Json → MockResponse
recorded_or message none = not_found message
recorded_or message (some body) = ok (recorded body)

abbrev pub digest_or : ℕ → Option Json → MockResponse
digest_or next_run none = not_found (codes "Not Found")
digest_or next_run (some body) = ok (digest body next_run)

-- `normalize` is `normalizeText`, `is_recent` the comparison with `weekAgo`, and `next_run` what
-- `digestSchedule` answers.
module _ (normalize : Text → Text) (is_recent : ℕ → ℕ → Bool) (next_run : ℕ) where
  unfoldable pub read : Fixtures → Live → Text → Query → MockResponse
  read fixtures live path query =
      if starts_with (codes "/setup") path
      then record { status = 403; body = written setup_body }
      else if text_eq path (codes "/auth/me")
      then ok (written admin_body)
      else if text_eq path (codes "/matches")
      then ok (
          rows
            (filter_matches normalize (live.matches ++ fixtures.base_matches) query.match_params))
      else if text_eq path (codes "/recipients/preview")
      then ok (
          counts (
            preview_recipient fixtures.rules
              (keep (λ m. is_recent fixtures.week_ago m.matched_at) fixtures.base_matches)
              query.preview_params))
      else if text_eq path (codes "/digest")
      then digest_or next_run (route path fixtures.routes)
      else recorded_or
          (if starts_with (codes "/products/") path
            then codes "Product not found"
            else codes "Not Found")
          (lookup fixtures.routes path query)

  -- `shift` moves the recorded instants of a body.
  unfoldable pub handle : (Body → Body) → Fixtures → Live → Text → Text → Query → MockResponse
  unfolding read demo_readonly_detail
  handle shift fixtures live method path query =
      let verb = to_upper method in
      let answer = read fixtures live path query in
      if not (text_eq verb (codes "GET")) && not (text_eq verb (codes "HEAD"))
      then record { status = 403; body = written (detail (string demo_readonly_detail)) }
      else record answer { body = shift answer.body }

abbrev pub has_product : Option Text → Bool
has_product none = false
has_product (some key) = true

-- `pool[index]`
abbrev pub at : ℕ → List Match → Option Match
at index [] = none
at zero (m ∷ ms) = some m
at (suc index) (m ∷ ms) = at index ms

abbrev pub first : List Match → Option Match
first [] = none
first (m ∷ ms) = some m

abbrev pub number_deliveries : ℕ → ℕ → ℕ → List Delivery → List Delivery
number_deliveries id index now [] = []
number_deliveries id index now (d ∷ ds) =
    record d { id = id * 10 + index; created_at = now; delivered_at = now }
    ∷ number_deliveries id (suc index) now ds

-- The fields that are not modelled are the template's, or name the same number.
abbrev pub live_match : ℕ → ℕ → Match → Match
live_match id now template = record template {
  id = id;
  matched_at = now;
  deliveries = number_deliveries id 0 now template.deliveries;
}

-- `nextLiveMatch` at an instant on the recording's clock; `none` where nothing is recorded, and the
-- code throws.
unfoldable pub next_live_match : Fixtures → ℕ → Live → Option (Match × Live)
next_live_match fixtures now live =
    let pool = keep (λ m. has_product m.product_key) fixtures.base_matches in
    let template =
      or_else (at (live.counter % max (length pool) 1) pool) (first fixtures.base_matches) in
    let counter = suc live.counter in
    let id = 1000000 + counter in
    elim template [
      | none ↦ none
      | some found ↦
          let match = live_match id now found in
          some (match, record { matches = match ∷ live.matches; counter = counter })
    ]

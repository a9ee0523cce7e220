-- ===== src/Demo/Tests.antt =====
-- Runs of the API of the demo on three recorded offers.
use teleyes.Common.{ℕ, ◌≡◌, refl, true, false, none, some, List, [], ◌∷◌}
use teleyes.Text.{Text, codes, trim, text_eq}
use teleyes.Json.{null}
use teleyes.Session.Http.{
  RequestInit, plain_detail, is_write_method, sent, notified_demo, thrown, api_request,
}
use teleyes.Demo.Matches.{Match, price_asc, MatchParams, is_kept, filter_matches}
use teleyes.Demo.Preview.{PreviewParams, preview_recipient}
use teleyes.Demo.MockApi.{Query, Fixtures, Live, demo_readonly_detail}
use teleyes.Demo.MockApiLaws.{demo_fetch, api_request_demo}
use teleyes.Demo.Source.{installed}
use teleyes.Demo.SourceLaws
use teleyes.Demo.SourceLaws.{IsTicking, run-IsTicking}

abbrev mouse : Match
mouse = record {
  id = 1;
  rule_id = 1;
  source_id = 1;
  price_cents = some 900;
  product_key = some (codes "mouse");
  target_hit = true;
  searched = codes "mouse";
  matched_at = 5;
  deliveries = [];
}

abbrev coupon : Match
coupon = record mouse {
  id = 2;
  rule_id = 2;
  price_cents = none;
  product_key = none;
  target_hit = false;
}

abbrev desk : Match
desk = record mouse { id = 3; rule_id = 2; price_cents = some 500; target_hit = false }

abbrev matches : List Match
matches = coupon ∷ mouse ∷ desk ∷ []

abbrev by_price : MatchParams
by_price = record {
  rule_id = none;
  source_id = none;
  recipient_id = none;
  min_price_cents = none;
  max_price_cents = none;
  delivery_status = none;
  q = none;
  sort = some price_asc;
}

unchanged : Text → Text
unchanged text = text

abbrev same : Text → Text
same text = text

by_price_runs : filter_matches same matches by_price ≡ desk ∷ mouse ∷ coupon ∷ []
unfolding filter_matches is_kept trim
by_price_runs = refl

abbrev targets_only : PreviewParams
targets_only = record {
  all_rules = false;
  rule_ids = 1 ∷ [];
  notify_target = true;
  notify_common = false;
}

abbrev fixtures : Fixtures
fixtures = record {
  routes = [];
  base_matches = matches;
  rules = record { id = 1; active = true } ∷ record { id = 2; active = true } ∷ [];
  week_ago = 0;
}

preview_runs : preview_recipient fixtures.rules matches targets_only ≡ (1, (1, 1) ∷ [])
unfolding preview_recipient
preview_runs = refl

abbrev silent : Live
silent = record { matches = []; counter = 0 }

abbrev query : Query
query = record {
  text = [];
  has_range = false;
  match_params = by_price;
  preview_params = targets_only;
}

abbrev save : RequestInit
save = record { method = some (codes "POST"); csrf_header = some 1; body = 0 }

fallback : ℕ → Text
fallback status = []

api_request_demo_example :
    api_request
      (demo_fetch same
        (λ a b. true)
        0
        (λ body. body)
        (λ body. null)
        fixtures
        silent
        (codes "/rules")
        query)
      fallback
      none
      save
    ≡ (sent save ∷ notified_demo ∷ [], thrown (plain_detail demo_readonly_detail) 403)
unfolding is_write_method text_eq
api_request_demo_example =
    api_request_demo same (λ a b. true) 0 (λ body. body) (λ body. null) fixtures silent
      (codes "/rules") query fallback none save refl

abbrev stream_events : List SourceLaws.Event
stream_events =
    SourceLaws.Event.constructed
    ∷ SourceLaws.Event.opened 0
    ∷ SourceLaws.Event.constructed
    ∷ SourceLaws.Event.closed 1
    ∷ SourceLaws.Event.opened 1
    ∷ SourceLaws.Event.timer_fired 25_000
    ∷ []

run-IsTicking_example : IsTicking (SourceLaws.run fixtures stream_events (installed silent))
run-IsTicking_example = run-IsTicking fixtures coupon (mouse ∷ desk ∷ []) refl silent stream_events

-- ===== src/Offers/Tests.antt =====
-- Runs on offers and on a report of two purchases.
use teleyes.Common.{ℕ, ◌≡◌, refl, true, false, none, some, List, [], ◌∷◌, keep}
use teleyes.Text.{codes}
use teleyes.Offers.Lowest.{
  RobustPriceInput, robust_lowest_price_cents, is_plausible, IsLeast,
  robust_lowest_price_cents-IsLeast,
}
use teleyes.Offers.Report.{pos, negsuc, ok, ItemSavings, ReportItem, on_track, SavingsReport}
use teleyes.Offers.ResultsCard.{CardOptions, build_results_aggregates}
use teleyes.Offers.ResultsCardLaws.{hide, build_results_aggregates-hide}
use teleyes.Offers.Summary.{SavingsBars}
use teleyes.Offers.PriceRange.{Range}

-- A price of one real among others of the same rule is not believed.
abbrev misread : RobustPriceInput
misread = record { rule_id = 1; price_cents = 100 }

abbrev offers : List RobustPriceInput
offers =
    record { rule_id = 1; price_cents = 9000 } ∷ record { rule_id = 1; price_cents = 8000 } ∷ []

misread_runs : robust_lowest_price_cents (misread ∷ offers) ≡ some 8000
unfolding robust_lowest_price_cents is_plausible
misread_runs = refl

robust_lowest_price_cents-IsLeast_example :
    (lowest : ℕ) × (robust_lowest_price_cents (misread ∷ offers) ≡ some lowest)
    × IsLeast (keep (is_plausible (misread ∷ offers)) (misread ∷ offers)) lowest
robust_lowest_price_cents-IsLeast_example = robust_lowest_price_cents-IsLeast misread offers

abbrev seen : ItemSavings
seen = record {
  status = ok;
  samples_90d = 5;
  samples_30d = 2;
  median_30d_cents = some 1000;
  average_30d_cents = some 1000;
  median_90d_cents = some 1000;
  average_90d_cents = some 1100;
  lowest_seen_cents = some 800;
  highest_seen_cents = some 1400;
  usual_price_cents = none;
  saving_vs_median_cents = some (pos 100);
  saving_vs_median_pct = some 10;
  saving_vs_usual_cents = none;
  saving_vs_usual_pct = none;
}

abbrev mouse : ReportItem
mouse = record {
  id = 1;
  name = codes "mouse";
  store = some (codes "loja");
  price_cents = 900;
  purchased_at = 5;
  linked = true;
  days_before_black_friday = negsuc 3;
  savings = some seen;
  share_of_goal = none;
}

abbrev desk : ReportItem
desk = record mouse {
  id = 2;
  name = codes "mesa";
  price_cents = 2100;
  linked = false;
  savings = none;
}

abbrev items : List ReportItem
items = mouse ∷ desk ∷ []

abbrev fitted : SavingsBars
fitted = record {
  median_cents = 1000;
  paid_cents = 900;
  median_width = record { part = 1000; whole = 1000 };
  paid_width = record { part = 900; whole = 1000 };
}

abbrev drawn : Range
drawn = record {
  min_cents = 800;
  median_cents = 1000;
  max_cents = 1400;
  paid_cents = 900;
  median_pos = record { part = 200; whole = 600 };
  paid_pos = record { part = 100; whole = 600 };
  good = true;
  outside = none;
}

abbrev report : SavingsReport
report = record {
  generated_at = 9;
  totals = record {
    purchases = 2;
    linked_with_data = 1;
    total_paid_cents = 3000;
    estimated_saving_cents = pos 100;
    reference_total_cents = 1000;
    estimated_saving_pct = some 10;
  };
  black_friday = record {
    date = 30;
    is_default = true;
    purchases_before = 2;
    days_before_min = some (pos 4);
    days_before_max = some (pos 9);
  };
  goal = some (record {
    amount_cents = 5000;
    deadline = 40;
    saved_cents = pos 100;
    pct = pos 2;
    remaining_cents = pos 4900;
    days_left = pos 31;
    pace = on_track;
  });
  items = items;
  noise = record {
    period_start = 1;
    period_end = 9;
    messages_analyzed = 100;
    discarded = record { sem_termo = 60; bloqueado = 5; preco_acima_teto = 10 };
    alerts_matched = 20;
    duplicates_grouped = 5;
    alerts_sent = 15;
  };
}

abbrev options : CardOptions
options = record { show_pieces = true; include_stores = false }

build_results_aggregates-hide_example :
    build_results_aggregates (hide options report) options ≡ build_results_aggregates report options
build_results_aggregates-hide_example = build_results_aggregates-hide report options

-- ===== src/Offers/ResultsCardLaws.antt =====
-- The shared card of apps/web/src/economia/resultsCard.ts leaks nothing of the report but what it shows.
use teleyes.Common.{
  ◌≡◌, refl, Bool, true, false, Option, none, some, List, [], ◌∷◌, map, if◌then◌else◌, arith,
}
use teleyes.Text.{Text}
use teleyes.Offers.Report.{pos, ok, no_data, ItemSavings, ReportItem, GoalReport, SavingsReport}
use teleyes.Offers.ResultsCard.{
  CardOptions, goal_of, saving_of, saving_pct_of, piece_of, build_results_aggregates,
}

-- What a card may not show: of each purchase all but its name, its price and its saving where there is
-- enough history, its store without `include_stores`, every purchase without `show_pieces`, and of
-- the report the numbers that only the page shows.
abbrev pub hide_savings : Option ItemSavings → Option ItemSavings
hide_savings none = none
hide_savings (some savings) = elim savings.status [
  | ok ↦ some (record savings {
    samples_90d = 0;
    samples_30d = 0;
    median_30d_cents = none;
    average_30d_cents = none;
    median_90d_cents = none;
    average_90d_cents = none;
    lowest_seen_cents = none;
    highest_seen_cents = none;
    usual_price_cents = none;
    saving_vs_usual_cents = none;
    saving_vs_usual_pct = none;
  })
  | no_data ↦ none
]

abbrev pub hide_item : Bool → ReportItem → ReportItem
hide_item include_stores item = record item {
  id = 0;
  purchased_at = 0;
  linked = false;
  days_before_black_friday = pos 0;
  store = if include_stores then item.store else none;
  savings = hide_savings item.savings;
  share_of_goal = none;
}

abbrev pub hide_goal : Option GoalReport → Option GoalReport
hide_goal none = none
hide_goal (some goal) =
    some (record goal { saved_cents = pos 0; remaining_cents = pos 0; days_left = pos 0 })

abbrev pub hide : CardOptions → SavingsReport → SavingsReport
hide options report = record report {
  totals = record report.totals { reference_total_cents = 0 };
  black_friday = record report.black_friday { is_default = false };
  goal = hide_goal report.goal;
  noise = record report.noise { period_start = 0; period_end = 0 };
  items = if options.show_pieces then map (hide_item options.include_stores) report.items else [];
}

savings-hide :
    (savings : Option ItemSavings)
    → (saving_of (hide_savings savings) ≡ saving_of savings)
      × (saving_pct_of (hide_savings savings) ≡ saving_pct_of savings)
savings-hide none = (refl, refl)
savings-hide (some savings) = ground arith

goal_of-hide : (goal : Option GoalReport) → goal_of (hide_goal goal) ≡ goal_of goal
goal_of-hide none = refl
goal_of-hide (some goal) = refl

store-hide :
    (include : Bool) (store : Option Text)
    → (if include then if include then store else none else none)
      ≡ (if include then store else none)
store-hide true store = refl
store-hide false store = refl

piece_of-hide :
    (include : Bool) (item : ReportItem)
    → piece_of (hide_item include item) include ≡ piece_of item include
unfolding piece_of
piece_of-hide include item =
    let (saved, pct) = savings-hide item.savings in
    rw (saved, pct, store-hide include item.store) refl

pieces-hide :
    (include : Bool) (items : List ReportItem)
    → map (λ item. piece_of item include) (map (hide_item include) items)
      ≡ map (λ item. piece_of item include) items
pieces-hide include [] = refl
pieces-hide include (item ∷ items) = rw (piece_of-hide include item, pieces-hide include items) refl

-- The aggregates are those of the report with everything hidden that a card may not show: the
-- stores and the purchases that were not opted in, and all but the name, the price and the saving
-- of a purchase.
pub build_results_aggregates-hide :
    (report : SavingsReport) (options : CardOptions)
    → build_results_aggregates (hide options report) options
      ≡ build_results_aggregates report options
unfolding build_results_aggregates
build_results_aggregates-hide report options =
    rw (goal_of-hide report.goal, shown options.show_pieces) refl
  where
    shown :
        (show : Bool)
        → (if show
            then some (
                map
                  (λ item. piece_of item options.include_stores)
                  (if show then map (hide_item options.include_stores) report.items else []))
            else none)
          ≡ (if show
              then some (map (λ item. piece_of item options.include_stores) report.items)
              else none)
    shown true = rw (pieces-hide options.include_stores report.items) refl
    shown false = refl

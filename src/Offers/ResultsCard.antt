-- ===== src/Offers/ResultsCard.antt =====
-- apps/web/src/economia/resultsCard.ts: the aggregates that the shared card shows. The drawing of the
-- card is not modelled.
use teleyes.Common.{ℕ, ◌+◌, Bool, Option, none, some, List, map, if◌then◌else◌}
use teleyes.Text.{Text}
use teleyes.Offers.Report.{
  ℤ, ok, no_data, ItemSavings, ReportItem, GoalPace, GoalReport, Discarded, SavingsReport,
}

pub record CardOptions : Type 0 where
  pub show_pieces : Bool
  pub include_stores : Bool

pub record ResultsPiece : Type 0 where
  pub name : Text
  pub paid_cents : ℕ
  pub saving_vs_median_cents : Option ℤ
  pub saving_vs_median_pct : Option ℕ
  -- `none` where the field is missing.
  pub store : Option Text

pub record ResultsTotals : Type 0 where
  pub purchases : ℕ
  pub pieces_with_data : ℕ
  pub total_paid_cents : ℕ
  pub estimated_saving_cents : ℤ
  pub estimated_saving_pct : Option ℕ

pub record ResultsBlackFriday : Type 0 where
  pub date : ℕ
  pub purchases_before : ℕ
  pub days_before_min : Option ℤ
  pub days_before_max : Option ℤ

pub record ResultsGoal : Type 0 where
  pub amount_cents : ℕ
  pub deadline : ℕ
  pub pct : ℤ
  pub pace : GoalPace

pub record ResultsNoise : Type 0 where
  pub messages_analyzed : ℕ
  pub discarded_total : ℕ
  pub discarded : Discarded
  pub duplicates_grouped : ℕ
  pub alerts_matched : ℕ
  pub alerts_sent : ℕ

-- The two texts that are always the same (`schema` and `methodology`) are left out.
pub record ResultsAggregates : Type 0 where
  pub generated_at : ℕ
  pub totals : ResultsTotals
  pub black_friday : ResultsBlackFriday
  pub goal : Option ResultsGoal
  pub noise : ResultsNoise
  pub pieces : Option (List ResultsPiece)

abbrev pub saving_of : Option ItemSavings → Option ℤ
saving_of none = none
saving_of (some savings) = elim savings.status [
  | ok ↦ savings.saving_vs_median_cents
  | no_data ↦ none
]

abbrev pub saving_pct_of : Option ItemSavings → Option ℕ
saving_pct_of none = none
saving_pct_of (some savings) = elim savings.status [
  | ok ↦ savings.saving_vs_median_pct
  | no_data ↦ none
]

unfoldable pub piece_of : ReportItem → Bool → ResultsPiece
piece_of item include_stores = record {
  name = item.name;
  paid_cents = item.price_cents;
  saving_vs_median_cents = saving_of item.savings;
  saving_vs_median_pct = saving_pct_of item.savings;
  store = if include_stores then item.store else none;
}

abbrev pub goal_of : Option GoalReport → Option ResultsGoal
goal_of none = none
goal_of (some goal) = some (record {
  amount_cents = goal.amount_cents;
  deadline = goal.deadline;
  pct = goal.pct;
  pace = goal.pace;
})

unfoldable pub build_results_aggregates : SavingsReport → CardOptions → ResultsAggregates
unfolding piece_of
build_results_aggregates report options =
    let totals = report.totals in
    let bf = report.black_friday in
    let noise = report.noise in
    record {
      generated_at = report.generated_at;
      totals = record {
        purchases = totals.purchases;
        pieces_with_data = totals.linked_with_data;
        total_paid_cents = totals.total_paid_cents;
        estimated_saving_cents = totals.estimated_saving_cents;
        estimated_saving_pct = totals.estimated_saving_pct;
      };
      black_friday = record {
        date = bf.date;
        purchases_before = bf.purchases_before;
        days_before_min = bf.days_before_min;
        days_before_max = bf.days_before_max;
      };
      goal = goal_of report.goal;
      noise = record {
        messages_analyzed = noise.messages_analyzed;
        discarded_total =
            noise.discarded.sem_termo + noise.discarded.bloqueado
            + noise.discarded.preco_acima_teto;
        discarded = noise.discarded;
        duplicates_grouped = noise.duplicates_grouped;
        alerts_matched = noise.alerts_matched;
        alerts_sent = noise.alerts_sent;
      };
      pieces =
          if options.show_pieces
          then some (map (λ item. piece_of item options.include_stores) report.items)
          else none;
    }

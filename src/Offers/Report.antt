-- ===== src/Offers/Report.antt =====
-- apps/web/src/api/purchases.ts: the report of savings as the server sends it. A date, a name and a
-- percentage are numbers that stand for them; an amount that can be negative is an integer.
use teleyes.Common.{ℕ, Bool, Option, List}
use teleyes.Text.{Text}

pub data ℤ : Type 0 where
  pos negsuc : ℕ → ℤ

pub data SavingsStatus : Type 0 where
  ok no_data : SavingsStatus

pub record ItemSavings : Type 0 where
  pub status : SavingsStatus
  pub samples_90d : ℕ
  pub samples_30d : ℕ
  pub median_30d_cents : Option ℕ
  pub average_30d_cents : Option ℕ
  pub median_90d_cents : Option ℕ
  pub average_90d_cents : Option ℕ
  pub lowest_seen_cents : Option ℕ
  pub highest_seen_cents : Option ℕ
  pub usual_price_cents : Option ℕ
  pub saving_vs_median_cents : Option ℤ
  pub saving_vs_median_pct : Option ℕ
  pub saving_vs_usual_cents : Option ℤ
  pub saving_vs_usual_pct : Option ℕ

pub record ReportItem : Type 0 where
  pub id : ℕ
  pub name : Text
  pub store : Option Text
  pub price_cents : ℕ
  pub purchased_at : ℕ
  pub linked : Bool
  pub days_before_black_friday : ℤ
  pub savings : Option ItemSavings
  pub share_of_goal : Option ℕ

pub record ReportTotals : Type 0 where
  pub purchases : ℕ
  pub linked_with_data : ℕ
  pub total_paid_cents : ℕ
  pub estimated_saving_cents : ℤ
  pub reference_total_cents : ℕ
  pub estimated_saving_pct : Option ℕ

pub record BlackFridaySummary : Type 0 where
  pub date : ℕ
  pub is_default : Bool
  pub purchases_before : ℕ
  pub days_before_min : Option ℤ
  pub days_before_max : Option ℤ

pub data GoalPace : Type 0 where
  done on_track behind expired : GoalPace

pub record GoalReport : Type 0 where
  pub amount_cents : ℕ
  pub deadline : ℕ
  pub saved_cents : ℤ
  pub pct : ℤ
  pub remaining_cents : ℤ
  pub days_left : ℤ
  pub pace : GoalPace

pub record Discarded : Type 0 where
  pub sem_termo : ℕ
  pub bloqueado : ℕ
  pub preco_acima_teto : ℕ

pub record ReportNoise : Type 0 where
  pub period_start : ℕ
  pub period_end : ℕ
  pub messages_analyzed : ℕ
  pub discarded : Discarded
  pub alerts_matched : ℕ
  pub duplicates_grouped : ℕ
  pub alerts_sent : ℕ

pub record SavingsReport : Type 0 where
  pub generated_at : ℕ
  pub totals : ReportTotals
  pub black_friday : BlackFridaySummary
  pub goal : Option GoalReport
  pub items : List ReportItem
  pub noise : ReportNoise

-- ===== src/Offers/PriceRange.antt =====
-- apps/web/src/economia/priceRange.ts: where a purchase fell inside the range of the prices seen.
use teleyes.Common.{
  ℕ, ◌-◌, ◌≡◌, ◌≤◌, ◌<◌, ◌⊎◌, subst, Bool, true, false, Option, none, some, leb, ltb, min, max,
  if◌then◌else◌, arith,
}
use teleyes.Offers.Report.{ok, no_data, ItemSavings, ReportItem}
use teleyes.Offers.Summary.{Share, some_injective}

pub data Side : Type 0 where
  low high : Side

pub record Range : Type 0 where
  pub min_cents : ℕ
  pub median_cents : ℕ
  pub max_cents : ℕ
  pub paid_cents : ℕ
  pub median_pos : Share
  pub paid_pos : Share
  pub good : Bool
  pub outside : Option Side

-- `position`; a share below 0 stops at 0 by the subtraction.
abbrev pub position : ℕ → ℕ → ℕ → Share
position least span cents =
    if leb span 0
    then record { part = 1; whole = 2 }
    else record { part = min span (cents - least); whole = span }

abbrev pub range_of : ℕ → ℕ → ℕ → ℕ → Range
range_of paid median lowest highest =
    let least = min lowest median in
    let most = max highest median in
    let span = most - least in
    record {
      min_cents = least;
      median_cents = median;
      max_cents = most;
      paid_cents = paid;
      median_pos = position least span median;
      paid_pos = position least span paid;
      good = leb paid median;
      outside = if ltb paid least then some low else if ltb most paid then some high else none;
    }

abbrev pub range_from : ℕ → Option ℕ → Option ℕ → Option ℕ → Option Range
range_from paid (some median) (some lowest) (some highest) =
    some (range_of paid median lowest highest)
range_from paid _ _ _ = none

-- `none` is the status `no_history`.
abbrev pub range_of_savings : ℕ → Option ItemSavings → Option Range
range_of_savings paid none = none
range_of_savings paid (some savings) = elim savings.status [
  | no_data ↦ none
  | ok ↦
      range_from paid savings.median_90d_cents savings.lowest_seen_cents savings.highest_seen_cents
]

unfoldable pub price_range : ReportItem → Option Range
price_range item = range_of_savings item.price_cents item.savings

-- The markers are inside the bar and in the order of the prices; the paid one stands at an edge
-- where the price is outside the range.
pub record IsDrawn (range : Range) : Type 0 where
  pub ordered : (range.min_cents ≤ range.median_cents) × (range.median_cents ≤ range.max_cents)
  pub inside :
      (range.median_pos.part ≤ range.median_pos.whole)
      × (range.paid_pos.part ≤ range.paid_pos.whole)
      × (0 < range.paid_pos.whole)
      × (range.paid_pos.whole ≡ range.median_pos.whole)
  pub side :
      ((range.good ≡ true)
        × (range.paid_cents ≤ range.median_cents)
        × (range.paid_pos.part ≤ range.median_pos.part))
      ⊎ ((range.good ≡ false)
          × (range.median_cents < range.paid_cents)
          × (range.median_pos.part ≤ range.paid_pos.part))
  pub edge :
      ((range.outside ≡ none)
        × (range.min_cents ≤ range.paid_cents)
        × (range.paid_cents ≤ range.max_cents))
      ⊎ (((range.outside ≡ some low) × (range.paid_cents < range.min_cents))
          ⊎ ((range.outside ≡ some high) × (range.max_cents < range.paid_cents)))

range_of-IsDrawn : (paid median lowest highest : ℕ) → IsDrawn (range_of paid median lowest highest)
range_of-IsDrawn paid median lowest highest = ground arith

range_from-IsDrawn :
    (paid : ℕ) (median lowest highest : Option ℕ) (range : Range)
    → range_from paid median lowest highest ≡ some range
    → IsDrawn range
range_from-IsDrawn paid (some median) (some lowest) (some highest) range h =
    subst IsDrawn (some_injective h) (range_of-IsDrawn paid median lowest highest)
range_from-IsDrawn paid none lowest highest range h = cc
range_from-IsDrawn paid (some median) none highest range h = cc
range_from-IsDrawn paid (some median) (some lowest) none range h = cc

range_of_savings-IsDrawn :
    (paid : ℕ) (savings : Option ItemSavings) (range : Range)
    → range_of_savings paid savings ≡ some range
    → IsDrawn range
range_of_savings-IsDrawn paid none range h = cc
range_of_savings-IsDrawn paid (some savings) range h = ground (
  arith,
  range_from-IsDrawn paid savings.median_90d_cents savings.lowest_seen_cents
      savings.highest_seen_cents range,
)

-- The bar of a purchase with history: its three reference prices are in order, the markers stand inside
-- it in the order of the prices, the colour says whether the price paid exceeds the median, and
-- a price outside the range is told as such.
pub price_range-IsDrawn :
    (item : ReportItem) (range : Range) → price_range item ≡ some range → IsDrawn range
unfolding price_range
price_range-IsDrawn item range h = range_of_savings-IsDrawn item.price_cents item.savings range h

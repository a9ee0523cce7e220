-- ===== src/Feed/Spark.antt =====
-- apps/web/src/components/MatchCard.tsx: the comparison of a price with the average of its last 30 days, and
-- the geometry of the small graph. Quotients are exact here: a coordinate is kept as the part and the
-- whole it is of, and its printing with one decimal is left out.
use teleyes.Common.{
  ℕ, suc, ◌+◌, ◌-◌, ◌*◌, ◌/◌, Bool, true, false, Option, none, some, List, [], ◌∷◌, map, min, max,
  ltb, ◌==◌, if◌then◌else◌, keep, length,
}
use teleyes.Text.{Text}
use teleyes.Dates.Stamp.{LocalDay, is_within_last_days}

-- A day of `match.sparkline`.
pub record PricePoint : Type 0 where
  pub date : Text
  pub price_cents : ℕ

-- `pct` is the size of the percentage, which is negative exactly where the price is below the average.
pub record AverageDelta : Type 0 where
  pub pct : ℕ
  pub below_average : Bool

abbrev pub min_average_window_points : ℕ
min_average_window_points = 3

abbrev pub total : List ℕ → ℕ
total [] = 0
total (x ∷ xs) = x + total xs

-- `Math.round(((current - average) / average) * 100)` for the average `sum / count`: a half is rounded
-- up, which is towards zero below the average.
unfoldable pub delta_of : ℕ → ℕ → ℕ → AverageDelta
delta_of current sum count =
    if ltb (current * count) sum
    then record {
      pct = (200 * (sum - current * count) + sum - 1) / (2 * sum);
      below_average = true;
    }
    else record { pct = (200 * (current * count - sum) + sum) / (2 * sum); below_average = false }

abbrev pub recent_prices : List PricePoint → LocalDay → List ℕ
recent_prices sparkline cutoff =
    map (λ p. p.price_cents) (keep (λ p. is_within_last_days p.date cutoff) sparkline)

-- `computeAverageDelta30d`; `cutoff` is the day 30 days before now.
unfoldable pub compute_average_delta_30d :
    List PricePoint → Option ℕ → LocalDay → Option AverageDelta
unfolding delta_of
compute_average_delta_30d sparkline none cutoff = none
compute_average_delta_30d sparkline (some current) cutoff =
    let recent = recent_prices sparkline cutoff in
    if ltb (length recent) min_average_window_points
    then none
    else if total recent == 0
    then none
    else some (delta_of current (total recent) (length recent))

-- A coordinate: `part` of `whole`.
pub record Coordinate : Type 0 where
  pub part : ℕ
  pub whole : ℕ

abbrev pub spark_width : ℕ
spark_width = 120

abbrev pub spark_height : ℕ
spark_height = 34

abbrev pub spark_pad_y : ℕ
spark_pad_y = 4

abbrev pub least : ℕ → List ℕ → ℕ
least found [] = found
least found (x ∷ xs) = least (min found x) xs

abbrev pub greatest : ℕ → List ℕ → ℕ
greatest found [] = found
greatest found (x ∷ xs) = greatest (max found x) xs

-- `toY`: `1 - (value - min) / span` is `(max - value) / span`.
unfoldable pub to_y : ℕ → ℕ → ℕ → Coordinate
to_y low high value =
    if high - low == 0 then record { part = spark_height; whole = 2 } else record {
      part = spark_pad_y * (high - low) + (high - value) * (spark_height - spark_pad_y * 2);
      whole = high - low;
    }

unfoldable pub to_x : ℕ → ℕ → Coordinate
to_x points index =
    if points == 1
    then record { part = spark_width; whole = 2 }
    else record { part = index * spark_width; whole = points - 1 }

pub record SparkGeometry : Type 0 where
  pub points : List (Coordinate × Coordinate)
  pub target_y : Option Coordinate

abbrev pub coords : (ℕ → Coordinate) → ℕ → ℕ → List ℕ → List (Coordinate × Coordinate)
coords y points index [] = []
coords y points index (p ∷ prices) = (to_x points index, y p) ∷ coords y points (suc index) prices

abbrev pub with_target : Option ℕ → List ℕ → List ℕ
with_target none prices = prices
with_target (some target) prices = target ∷ prices

abbrev pub geometry_of : ℕ → List ℕ → Option ℕ → SparkGeometry
geometry_of p prices target =
    let low = least p (with_target target prices) in
    let high = greatest p (with_target target prices) in
    record {
      points = coords (to_y low high) (length (p ∷ prices)) 0 (p ∷ prices);
      target_y = elim target [ none ↦ none | some t ↦ some (to_y low high t) ];
    }

unfoldable pub build_spark_geometry : List PricePoint → Option ℕ → Option SparkGeometry
unfolding to_y to_x
build_spark_geometry [] target = none
build_spark_geometry (p ∷ ps) target =
    some (geometry_of p.price_cents (map (λ q. q.price_cents) ps) target)

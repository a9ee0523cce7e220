-- ===== src/Feed/SparkLaws.antt =====
-- The percentage of a card is the nearest one, and its graph stays inside its box.
use native.Mathlib.Omega.{div_any}
use native.Mathlib.Nat.{mod-lt}
use teleyes.Common.{
  ℕ, suc, ◌+◌, ◌-◌, ◌*◌, ◌/◌, ◌≤◌, ◌<◌, ◌≡◌, ◌⊎◌, refl, inl, inr, true, false, Option, none, some,
  List, [], ◌∷◌, map, min, max, ltb, ltb→lt, ◌==◌, length, All, arith, Bool-cases,
}
use teleyes.Dates.Stamp.{LocalDay}
use teleyes.Feed.Spark.{
  PricePoint, AverageDelta, total, delta_of, recent_prices, compute_average_delta_30d, Coordinate,
  least, greatest, to_y, SparkGeometry, coords, geometry_of, build_spark_geometry,
}

-- The whole part of a quotient.
quotient_bounds : (n d : ℕ) → 0 < d → ((n / d) * d ≤ n) × (n < (n / d + 1) * d)
quotient_bounds n d h = (grind (arith, div_any n d), grind (arith, div_any n d, mod-lt n h))

-- The rounded percentage `pct` of `gap` in `sum` is off by half a percent at most.
abbrev IsNearest : ℕ → ℕ → ℕ → Type 0
IsNearest pct gap sum = (2 * (pct * sum) ≤ 200 * gap + sum) × (200 * gap ≤ 2 * (pct * sum) + sum)

double : (q s : ℕ) → q * (2 * s) ≡ 2 * (q * s)
double q s = grind arith

next_double : (q s : ℕ) → (q + 1) * (2 * s) ≡ 2 * (q * s) + 2 * s
next_double q s = grind arith

IsNearest-up : (gap sum : ℕ) → 0 < sum → IsNearest ((200 * gap + sum) / (2 * sum)) gap sum
IsNearest-up gap sum h =
    let q = (200 * gap + sum) / (2 * sum) in
    let (low, high) = quotient_bounds (200 * gap + sum) (2 * sum) (omega arith) in
    (omega (arith, low, double q sum), omega (arith, high, next_double q sum))

IsNearest-down : (gap sum : ℕ) → 0 < sum → IsNearest ((200 * gap + sum - 1) / (2 * sum)) gap sum
IsNearest-down gap sum h =
    let q = (200 * gap + sum - 1) / (2 * sum) in
    let (low, high) = quotient_bounds (200 * gap + sum - 1) (2 * sum) (omega arith) in
    (omega (arith, low, double q sum), omega (arith, high, next_double q sum))

delta_of-IsNearest :
    (current sum count : ℕ)
    → 0 < sum
    → let d = delta_of current sum count in
      ((d.below_average ≡ true)
        × (current * count < sum)
        × IsNearest d.pct (sum - current * count) sum)
      ⊎ ((d.below_average ≡ false)
          × (sum ≤ current * count)
          × IsNearest d.pct (current * count - sum) sum)
unfolding delta_of
delta_of-IsNearest current sum count h = elim (Bool-cases (ltb (current * count) sum)) [
  | inl e ↦
      rw e
        (inl (refl, ltb→lt (current * count) sum e, IsNearest-down (sum - current * count) sum h))
  | inr e ↦ rw e (inr (refl, ground (arith, e), IsNearest-up (current * count - sum) sum h))
]

-- With a price, at least three days in the window and an average that is not zero, the card compares the
-- price with the average: it says below exactly where the price times the days is less than their sum,
-- and its percentage is the distance from the average within half a percent.
pub compute_average_delta_30d-IsNearest :
    (sparkline : List PricePoint) (current : ℕ) (cutoff : LocalDay)
    → 3 ≤ length (recent_prices sparkline cutoff)
    → 0 < total (recent_prices sparkline cutoff)
    → let recent = recent_prices sparkline cutoff in
      (d : AverageDelta) × (compute_average_delta_30d sparkline (some current) cutoff ≡ some d)
      × (((d.below_average ≡ true)
            × (current * length recent < total recent)
            × IsNearest d.pct (total recent - current * length recent) (total recent))
          ⊎ ((d.below_average ≡ false)
              × (total recent ≤ current * length recent)
              × IsNearest d.pct (current * length recent - total recent) (total recent)))
unfolding compute_average_delta_30d
compute_average_delta_30d-IsNearest sparkline current cutoff h k =
    let recent = recent_prices sparkline cutoff in
    let many : ltb (length recent) 3 ≡ false = ground (arith, h) in
    let priced : (total recent == 0) ≡ false = ground (arith, k) in
    (
      delta_of current (total recent) (length recent),
      rw (many, priced) refl,
      delta_of-IsNearest current (total recent) (length recent) k,
    )

-- A height inside the padding of the box.
abbrev pub IsInside : Coordinate → Type 0
IsInside c = (0 < c.whole) × (4 * c.whole ≤ c.part) × (c.part ≤ 30 * c.whole)

to_y-IsInside : (low high value : ℕ) → low ≤ value → value ≤ high → IsInside (to_y low high value)
unfolding to_y
to_y-IsInside low high value h k = ground arith

least-le : (found : ℕ) (xs : List ℕ) → (least found xs ≤ found) × All (λ x. least found xs ≤ x) xs
least-le found [] = (omega arith, tt)
least-le found (x ∷ xs) =
    let (first, rest) = least-le (min found x) xs in
    (omega (arith, first), (omega (arith, first), rest))

le-greatest :
    (found : ℕ) (xs : List ℕ) → (found ≤ greatest found xs) × All (λ x. x ≤ greatest found xs) xs
le-greatest found [] = (omega arith, tt)
le-greatest found (x ∷ xs) =
    let (first, rest) = le-greatest (max found x) xs in
    (omega (arith, first), (omega (arith, first), rest))

coords-IsInside :
    (low high points index : ℕ) (xs : List ℕ)
    → All (λ x. low ≤ x) xs
    → All (λ x. x ≤ high) xs
    → All (λ c. IsInside c.1) (coords (to_y low high) points index xs)
coords-IsInside low high points index [] h k = tt
coords-IsInside low high points index (x ∷ xs) (p, h) (q, k) =
    (to_y-IsInside low high x p q, coords-IsInside low high points (suc index) xs h k)

abbrev pub IsInsideTarget : Option Coordinate → Type 0
IsInsideTarget none = Unit
IsInsideTarget (some c) = IsInside c

geometry_of-IsInside :
    (p : ℕ) (prices : List ℕ) (target : Option ℕ)
    → let g = geometry_of p prices target in
      All (λ c. IsInside c.1) g.points × IsInsideTarget g.target_y
geometry_of-IsInside p prices none =
    let (low, lows) = least-le p prices in
    let (high, highs) = le-greatest p prices in
    (
      coords-IsInside (least p prices) (greatest p prices) (length (p ∷ prices)) 0 (p ∷ prices)
          (low, lows) (high, highs),
      tt,
    )
geometry_of-IsInside p prices (some t) =
    let (low, (lt, lows)) = least-le p (t ∷ prices) in
    let (high, (ht, highs)) = le-greatest p (t ∷ prices) in
    (
      coords-IsInside (least p (t ∷ prices)) (greatest p (t ∷ prices)) (length (p ∷ prices)) 0
          (p ∷ prices) (low, lows) (high, highs),
      to_y-IsInside (least p (t ∷ prices)) (greatest p (t ∷ prices)) t lt ht,
    )

-- Every point of a graph and the line of its target stand at a height between 4 and 30 of the 34
-- pixels of the box, whatever the prices and the target are.
pub build_spark_geometry-IsInside :
    (p : PricePoint) (ps : List PricePoint) (target : Option ℕ)
    → (g : SparkGeometry) × (build_spark_geometry (p ∷ ps) target ≡ some g)
      × All (λ c. IsInside c.1) g.points
      × IsInsideTarget g.target_y
unfolding build_spark_geometry
build_spark_geometry-IsInside p ps target =
    let prices = map (λ q. q.price_cents) ps in
    let (points, line) = geometry_of-IsInside p.price_cents prices target in
    (geometry_of p.price_cents prices target, refl, points, line)

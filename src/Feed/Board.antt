-- ===== src/Feed/Board.antt =====
-- apps/web/src/pages/FeedPage.tsx: what the page derives from the offers and the rules it has loaded.
use teleyes.Common.{
  ℕ, zero, suc, ◌+◌, ◌-◌, ◌*◌, ◌/◌, Bool, true, false, Option, none, some, List, [], ◌∷◌, ◌++◌, min,
  leb, ltb, ◌==◌, if◌then◌else◌, keep, any, length, sort,
}
use teleyes.Offers.Target.{RuleTargetState, RulePrices, rule_target_state}
use teleyes.Offers.Lowest.{RobustPriceInput, robust_lowest_price_cents}

pub data DeliveryStatus : Type 0 where
  delivered failed other : DeliveryStatus

pub record Match : Type 0 where
  pub id : ℕ
  pub rule_id : ℕ
  pub price_cents : Option ℕ
  pub deliveries : List DeliveryStatus

pub record Rule : Type 0 where
  pub id : ℕ
  pub prices : RulePrices

-- `ruleCounts`: a map from the ids of the rules, here as the list of its entries.
abbrev pub Counts : Type 0
Counts = List (ℕ × ℕ)

-- `counts.get(id) ?? 0`
unfoldable pub count_of : ℕ → Counts → ℕ
count_of id [] = 0
count_of id ((key, n) ∷ counts) = if key == id then n else count_of id counts

-- `counts.set(id, (counts.get(id) ?? 0) + 1)`
unfoldable pub bump : ℕ → Counts → Counts
bump id [] = (id, 1) ∷ []
bump id ((key, n) ∷ counts) = if key == id then (key, n + 1) ∷ counts else (key, n) ∷ bump id counts

unfoldable pub count_matches : Counts → List Match → Counts
unfolding bump
count_matches counts [] = counts
count_matches counts (m ∷ ms) = count_matches (bump m.rule_id counts) ms

unfoldable pub rule_counts : List Match → Counts
unfolding count_matches
rule_counts matches = count_matches [] matches

unfoldable pub visible_matches : Option ℕ → List Match → List Match
visible_matches none matches = matches
visible_matches (some rule_id) matches = keep (λ m. m.rule_id == rule_id) matches

abbrev pub is_delivered : DeliveryStatus → Bool
is_delivered delivered = true
is_delivered _ = false

abbrev pub is_failed : DeliveryStatus → Bool
is_failed failed = true
is_failed _ = false

-- The two sums of the summary.
unfoldable pub deliveries_with : (DeliveryStatus → Bool) → List Match → ℕ
deliveries_with test [] = 0
deliveries_with test (m ∷ ms) = length (keep test m.deliveries) + deliveries_with test ms

unfoldable pub priced : List Match → List RobustPriceInput
priced [] = []
priced (m ∷ ms) = elim m.price_cents [
  | none ↦ priced ms
  | some price ↦ record { rule_id = m.rule_id; price_cents = price } ∷ priced ms
]

pub record Summary : Type 0 where
  pub matches : ℕ
  pub delivered : ℕ
  pub failed : ℕ
  pub lowest_price : Option ℕ

unfoldable pub summary : List Match → Summary
unfolding deliveries_with priced
summary visible = record {
  matches = length visible;
  delivered = deliveries_with is_delivered visible;
  failed = deliveries_with is_failed visible;
  lowest_price = robust_lowest_price_cents (priced visible);
}

pub record TargetRow : Type 0 where
  pub rule : Rule
  pub latest_price_cents : Option ℕ
  pub hit : Bool
  pub gap_pct : Option ℕ
  pub progress_pct : ℕ

-- `Math.max(0, Math.min(100, Math.round((target / latest) * 100)))`, the quotient rounded half up.
unfoldable pub progress : ℕ → Option ℕ → ℕ
progress target none = 0
progress target (some latest) =
    if ltb 0 latest then min 100 ((200 * target + latest) / (2 * latest)) else 0

abbrev pub is_hit : RuleTargetState → Bool
is_hit (RuleTargetState.hit target price) = true
is_hit _ = false

abbrev pub gap_of : RuleTargetState → Option ℕ
gap_of (RuleTargetState.gap target price pct) = some pct
gap_of _ = none

unfoldable pub target_row : Rule → ℕ → TargetRow
unfolding progress
target_row rule target = record {
  rule = rule;
  latest_price_cents = rule.prices.lowest_price_24h_cents;
  hit = is_hit (rule_target_state rule.prices);
  gap_pct = gap_of (rule_target_state rule.prices);
  progress_pct = progress target rule.prices.lowest_price_24h_cents;
}

unfoldable pub target_rows : List Rule → List TargetRow
unfolding target_row
target_rows [] = []
target_rows (r ∷ rs) = elim r.prices.target_price_cents [
  | none ↦ target_rows rs
  | some target ↦ target_row r target ∷ target_rows rs
]

-- The least of the gaps of the rows that are not hit.
unfoldable pub open_gaps : List TargetRow → List ℕ
open_gaps [] = []
open_gaps (row ∷ rows) =
    let rest = open_gaps rows in
    if row.hit then rest else elim row.gap_pct [ none ↦ rest | some pct ↦ pct ∷ rest ]

abbrev pub least_from : ℕ → List ℕ → ℕ
least_from found [] = found
least_from found (x ∷ xs) = least_from (min found x) xs

unfoldable pub nearest_target_gap_pct : List TargetRow → Option ℕ
unfolding open_gaps
nearest_target_gap_pct rows = elim (open_gaps rows) [ [] ↦ none | x ∷ xs ↦ some (least_from x xs) ]

-- RAIL_RULES_VISIBLE
abbrev pub rail_rules_visible : ℕ
rail_rules_visible = 6

abbrev pub busier : Counts → Rule → Rule → Bool
busier counts a b = leb (count_of b.id counts) (count_of a.id counts)

unfoldable pub sorted_rules : Counts → List Rule → List Rule
sorted_rules counts rules = sort (busier counts) rules

abbrev pub take {ℓ} : {A : Type ℓ} → ℕ → List A → List A
take zero xs = []
take (suc n) [] = []
take (suc n) (x ∷ xs) = x ∷ take n xs

abbrev pub drop {ℓ} : {A : Type ℓ} → ℕ → List A → List A
drop zero xs = xs
drop (suc n) [] = []
drop (suc n) (x ∷ xs) = drop n xs

-- `sortedRules.find((rule) => rule.id === id)`
unfoldable pub find_rule : ℕ → List Rule → Option Rule
find_rule id [] = none
find_rule id (r ∷ rs) = if r.id == id then some r else find_rule id rs

abbrev pub with_selected : Option Rule → List Rule → List Rule
with_selected none top = top
with_selected (some rule) top = top ++ rule ∷ []

unfoldable pub visible_rules : Bool → Option ℕ → List Rule → List Rule
unfolding find_rule
visible_rules true selected rules = rules
visible_rules false none rules = take rail_rules_visible rules
visible_rules false (some id) rules =
    let top = take rail_rules_visible rules in
    if any (λ r. r.id == id) top then top else with_selected (find_rule id rules) top

unfoldable pub hidden_rule_count : List Rule → ℕ
hidden_rule_count rules = length rules - rail_rules_visible

-- ===== src/Sources/Stats.antt =====
-- apps/web/src/pages/sourceStats.ts: the figures of the page of the sources. `is_later` compares two
-- instants of the API; a ratio is kept as the part and the whole it is of.
use teleyes.Common.{
  ℕ, ◌+◌, ◌-◌, ◌%◌, Bool, Option, none, some, List, [], ◌∷◌, map, ltb, if◌then◌else◌, keep, length,
  min,
}
use teleyes.Text.{Text}

pub record Source : Type 0 where
  pub id : ℕ
  pub active : Bool

pub record DayActivity : Type 0 where
  pub day : Text
  pub evaluated : Option ℕ

pub record SourceActivity : Type 0 where
  pub name : Text
  pub matches : ℕ
  pub last_match_at : Option Text
  pub daily : List DayActivity

abbrev pub last_of {ℓ} : {A : Type ℓ} → List A → Option A
last_of [] = none
last_of (x ∷ []) = some x
last_of (x ∷ y ∷ ys) = last_of (y ∷ ys)

abbrev pub evaluated_on : Option DayActivity → Option ℕ
evaluated_on none = none
evaluated_on (some day) = day.evaluated

-- `total = (total ?? 0) + today.evaluated`
abbrev pub add_evaluated : Option ℕ → Option ℕ → Option ℕ
add_evaluated total none = total
add_evaluated none (some n) = some n
add_evaluated (some total) (some n) = some (total + n)

abbrev pub evaluated_from : Option ℕ → List SourceActivity → Option ℕ
evaluated_from total [] = total
evaluated_from total (row ∷ rows) =
    evaluated_from (add_evaluated total (evaluated_on (last_of row.daily))) rows

unfoldable pub evaluated_today : Option (List SourceActivity) → Option ℕ
evaluated_today none = none
evaluated_today (some rows) = evaluated_from none rows

abbrev pub sum_matches : ℕ → List SourceActivity → ℕ
sum_matches sum [] = sum
sum_matches sum (row ∷ rows) = sum_matches (sum + row.matches) rows

abbrev pub matches_of : Option SourceActivity → ℕ
matches_of none = 0
matches_of (some row) = row.matches

-- The fold of `leader`: the first of the rows with most matches, if there are any.
abbrev pub leader_from : Option SourceActivity → List SourceActivity → Option SourceActivity
leader_from best [] = best
leader_from best (row ∷ rows) =
    leader_from (if ltb (matches_of best) row.matches then some row else best) rows

abbrev pub later_row :
    (Text → Text → Bool) → SourceActivity → Text → Option SourceActivity → Option SourceActivity
later_row is_later row at none = some row
later_row is_later row at (some best) = elim best.last_match_at [
  | none ↦ if is_later at at then some row else some best
  | some best_at ↦ if is_later at best_at then some row else some best
]

-- The loop of `last`.
abbrev pub last_match_from :
    (Text → Text → Bool) → Option SourceActivity → List SourceActivity → Option SourceActivity
last_match_from is_later best [] = best
last_match_from is_later best (row ∷ rows) =
    last_match_from is_later
      (elim row.last_match_at [ none ↦ best | some at ↦ later_row is_later row at best ]) rows

pub record FontesKpis : Type 0 where
  pub active : ℕ
  pub sources : ℕ
  pub paused : ℕ
  pub evaluated : Option ℕ
  -- `none` where there is no activity yet.
  pub matches : Option ℕ
  pub leader : Option SourceActivity
  pub last_match : Option SourceActivity

abbrev pub rows_of : Option (List SourceActivity) → List SourceActivity
rows_of none = []
rows_of (some rows) = rows

unfoldable pub build_kpis :
    (Text → Text → Bool) → List Source → Option (List SourceActivity) → FontesKpis
unfolding evaluated_today
build_kpis is_later sources activity =
    let active = length (keep (λ s. s.active) sources) in
    let rows = rows_of activity in
    record {
      active = active;
      sources = length sources;
      paused = length sources - active;
      evaluated = evaluated_today activity;
      matches = elim activity [ none ↦ none | some found ↦ some (sum_matches 0 found) ];
      leader = leader_from none rows;
      last_match = last_match_from is_later none rows;
    }

abbrev pub scale_of_days : ℕ → List DayActivity → ℕ
scale_of_days most [] = most
scale_of_days most (day ∷ days) =
    scale_of_days (elim day.evaluated [ none ↦ most | some n ↦ if ltb most n then n else most ])
      days

abbrev pub scale_of_rows : ℕ → List SourceActivity → ℕ
scale_of_rows most [] = most
scale_of_rows most (row ∷ rows) = scale_of_rows (scale_of_days most row.daily) rows

unfoldable pub bar_scale : Option (List SourceActivity) → ℕ
bar_scale activity = scale_of_rows 1 (rows_of activity)

-- `ratio` is `part` of `whole`.
pub record Bar : Type 0 where
  pub day : Text
  pub value : Option ℕ
  pub part : ℕ
  pub whole : ℕ

-- `Math.min(1, day.evaluated / scale)`
abbrev pub bar_of : ℕ → DayActivity → Bar
bar_of scale day = record {
  day = day.day;
  value = day.evaluated;
  part = elim day.evaluated [ none ↦ 0 | some n ↦ min n scale ];
  whole = scale;
}

unfoldable pub build_bars : Option SourceActivity → ℕ → List Bar
build_bars none scale = []
build_bars (some row) scale = map (bar_of scale) row.daily

unfoldable pub source_hue : ℕ → ℕ
source_hue id = id % 5 + 1

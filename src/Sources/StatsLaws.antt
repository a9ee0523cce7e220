-- ===== src/Sources/StatsLaws.antt =====
-- The figures of the sources are those of their rows.
use teleyes.Common.{
  ℕ, ◌+◌, ◌≤◌, ◌<◌, ◌≡◌, ◌≢◌, ◌⊎◌, inl, inr, Bool, Option, none, some, List, [], ◌∷◌, map, ltb,
  if◌then◌else◌, All, arith, Bool-cases, Option-cases, length, length-keep,
}
use teleyes.Text.{Text}
use teleyes.Sources.Stats.{
  Source, DayActivity, SourceActivity, Bar, bar_of, build_bars, bar_scale, scale_of_days,
  scale_of_rows, matches_of, leader_from, build_kpis,
}

scale_of_days-le : (most : ℕ) (days : List DayActivity) → most ≤ scale_of_days most days
scale_of_days-le most [] = omega arith
scale_of_days-le most (day ∷ days) = elim (Option-cases day.evaluated) [
  | inl e ↦ rw e (scale_of_days-le most days)
  | inr (n, e) ↦ rw e (ground (arith, scale_of_days-le (if ltb most n then n else most) days))
]

scale_of_rows-le : (most : ℕ) (rows : List SourceActivity) → most ≤ scale_of_rows most rows
scale_of_rows-le most [] = omega arith
scale_of_rows-le most (row ∷ rows) =
    omega
      (arith, scale_of_days-le most row.daily, scale_of_rows-le (scale_of_days most row.daily) rows)

-- No day exceeds the scale.
abbrev FitsDay : ℕ → DayActivity → Type 0
FitsDay scale day = (n : ℕ) → day.evaluated ≡ some n → n ≤ scale

days_fit :
    (most scale : ℕ) (days : List DayActivity)
    → scale_of_days most days ≤ scale
    → All (FitsDay scale) days
days_fit most scale [] h = tt
days_fit most scale (day ∷ days) h = elim (Option-cases day.evaluated) [
  | inl e ↦
      let rest : scale_of_days most days ≤ scale = rw e at h in
      (λ n k. absurd (ground (arith, e, k)), days_fit most scale days rest)
  | inr (m, e) ↦
      let next = if ltb most m then m else most in
      let rest : scale_of_days next days ≤ scale = rw e at h in
      let fits : m ≤ scale = ground (arith, scale_of_days-le next days, rest) in
      (λ n k. ground (arith, e, k, fits), days_fit next scale days rest)
]

rows_fit :
    (most scale : ℕ) (rows : List SourceActivity)
    → scale_of_rows most rows ≤ scale
    → All (λ row. All (FitsDay scale) row.daily) rows
rows_fit most scale [] h = tt
rows_fit most scale (row ∷ rows) h =
    let next = scale_of_days most row.daily in
    (
      days_fit most scale row.daily (omega (arith, scale_of_rows-le next rows)),
      rows_fit next scale rows h,
    )

-- A bar that shows its day uncut, against a whole that is not zero.
abbrev pub IsExact : Bar → Type 0
IsExact bar =
    (0 < bar.whole)
    × ((bar.value ≡ none) ⊎ ((n : ℕ) × (bar.value ≡ some n) × (bar.part ≡ n) × (n ≤ bar.whole)))

bars-IsExact :
    (scale : ℕ) (days : List DayActivity)
    → 0 < scale
    → All (FitsDay scale) days
    → All IsExact (map (bar_of scale) days)
bars-IsExact scale [] h k = tt
bars-IsExact scale (day ∷ days) h (fits, k) =
    ((h, shown (Option-cases day.evaluated)), bars-IsExact scale days h k)
  where
    shown :
        (day.evaluated ≡ none) ⊎ ((n : ℕ) × (day.evaluated ≡ some n))
        → ((bar_of scale day).value ≡ none)
          ⊎ ((n : ℕ) × ((bar_of scale day).value ≡ some n)
              × ((bar_of scale day).part ≡ n)
              × (n ≤ scale))
    shown (inl e) = inl e
    shown (inr (n, e)) = let within = fits n e in inr (n, e, ground (arith, e, within), within)

rows-IsExact :
    (scale : ℕ) (rows : List SourceActivity)
    → 0 < scale
    → All (λ row. All (FitsDay scale) row.daily) rows
    → All (λ row. All IsExact (build_bars (some row) scale)) rows
unfolding build_bars
rows-IsExact scale [] h k = tt
rows-IsExact scale (row ∷ rows) h (p, k) =
    (bars-IsExact scale row.daily h p, rows-IsExact scale rows h k)

-- Every bar of every source is drawn against the same scale, which is not zero and which no day
-- exceeds: a day that was measured is shown uncut, and one that was not has no value.
pub build_bars-IsExact :
    (rows : List SourceActivity)
    → All (λ row. All IsExact (build_bars (some row) (bar_scale (some rows)))) rows
unfolding bar_scale
build_bars-IsExact rows =
    rows-IsExact (scale_of_rows 1 rows) rows (omega (arith, scale_of_rows-le 1 rows))
      (rows_fit 1 (scale_of_rows 1 rows) rows (omega arith))

leads :
    (best : Option SourceActivity) (rows : List SourceActivity)
    → (matches_of best ≤ matches_of (leader_from best rows))
      × All (λ row. row.matches ≤ matches_of (leader_from best rows)) rows
leads best [] = (omega arith, tt)
leads best (row ∷ rows) =
    let next = if ltb (matches_of best) row.matches then some row else best in
    let (first, rest) = leads next rows in
    let (old, new) = taken best row in
    (omega (arith, first, old), (omega (arith, first, new), rest))
  where
    taken :
        (best : Option SourceActivity) (row : SourceActivity)
        → let next = if ltb (matches_of best) row.matches then some row else best in
          (matches_of best ≤ matches_of next) × (row.matches ≤ matches_of next)
    taken best row = elim (Bool-cases (ltb (matches_of best) row.matches)) [
      | inl e ↦ rw e (ground (arith, e), ground (arith, e))
      | inr e ↦ rw e (ground (arith, e), ground (arith, e))
    ]

-- The source that leads has at least as many matches as every other, and where no source leads none has
-- a match; the paused sources are those that are not active.
pub build_kpis-IsLeading :
    (later : Text → Text → Bool) (sources : List Source) (rows : List SourceActivity)
    → let kpis = build_kpis later sources (some rows) in
      All (λ row. row.matches ≤ matches_of kpis.leader) rows
      × ((kpis.leader ≢ none) ⊎ All (λ row. row.matches ≡ 0) rows)
      × (kpis.active + kpis.paused ≡ length sources)
unfolding build_kpis
build_kpis-IsLeading later sources rows =
    let (first, rest) = leads none rows in
    (rest, led (leader_from none rows) rest, omega (arith, length-keep (λ s. s.active) sources))
  where
    none_match :
        (rows : List SourceActivity)
        → All (λ row. row.matches ≤ 0) rows
        → All (λ row. row.matches ≡ 0) rows
    none_match [] h = tt
    none_match (row ∷ rows) (p, h) = (omega arith, none_match rows h)

    led :
        (leader : Option SourceActivity)
        → All (λ row. row.matches ≤ matches_of leader) rows
        → (leader ≢ none) ⊎ All (λ row. row.matches ≡ 0) rows
    led none h = inr (none_match rows h)
    led (some row) h = inl (λ e. cc)

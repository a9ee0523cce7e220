-- ===== src/Dates/DayOrder.antt =====
-- The stamps of apps/web/src/utils/dates.ts are compared as texts: their order is that of the days.
use teleyes.Common.{
  ℕ, suc, ◌+◌, ◌-◌, ◌*◌, ◌/◌, ◌%◌, ◌≤◌, ◌<◌, ◌≡◌, ◌↔◌, ◌⊎◌, refl, sym, subst, true, [], ◌∷◌, ◌++◌,
  arith,
}
use teleyes.Text.{Text}
use teleyes.Price.Format.{two_digits}
use teleyes.Setup.Decimal.{decimal, digits_within}
use teleyes.Dates.Stamp.{LocalDay, local_date_stamp, text_ge, is_within_last_days}

digits_within-four :
    (rounds n : ℕ)
    → 1000 ≤ n
    → n < 10000
    → digits_within (suc (suc (suc (suc rounds)))) n ≡ two_digits (n / 100) ++ two_digits n
unfolding digits_within
digits_within-four rounds n low high = ground arith

decimal-four : (n : ℕ) → 1000 ≤ n → n < 10000 → decimal n ≡ two_digits (n / 100) ++ two_digits n
unfolding decimal
decimal-four n low high =
    let more : suc n ≡ suc (suc (suc (suc (n - 3)))) = omega arith in
    subst (λ (r : ℕ). digits_within r n ≡ two_digits (n / 100) ++ two_digits n) (sym more)
      (digits_within-four (n - 3) n low high)

-- Two digits on each side decide, or leave it to the rest.
text_ge-two_digits :
    (a b : ℕ) (s t : Text)
    → (text_ge (two_digits a ++ s) (two_digits b ++ t) ≡ true)
      ↔ ((b % 100 < a % 100) ⊎ ((a % 100 ≡ b % 100) × (text_ge s t ≡ true)))
unfolding text_ge
text_ge-two_digits a b s t = ground arith

text_ge-dash : (s t : Text) → text_ge (b'-' ∷ s) (b'-' ∷ t) ≡ text_ge s t
unfolding text_ge
text_ge-dash s t = refl

-- A day of a calendar with years of four digits.
pub record IsDay (d : LocalDay) : Type 0 where
  pub old : 1000 ≤ d.year
  pub recent : d.year < 10000
  pub month_fits : d.month ≤ 12
  pub day_fits : d.day ≤ 31

-- The position of a day among all days, months and years counted evenly.
abbrev pub position : LocalDay → ℕ
position d = (d.year * 13 + d.month) * 32 + d.day

stamp_units : LocalDay → Text
stamp_units d =
    two_digits (d.year / 100)
    ++ (two_digits d.year ++ b'-' ∷ (two_digits d.month ++ b'-' ∷ (two_digits d.day ++ [])))

local_date_stamp-units : (d : LocalDay) → IsDay d → local_date_stamp d ≡ stamp_units d
unfolding local_date_stamp stamp_units
local_date_stamp-units d v = rw (decimal-four d.year v.old v.recent) refl

text_ge-nil : text_ge [] [] ≡ true
unfolding text_ge
text_ge-nil = refl

stamp_units-ge :
    (d c : LocalDay)
    → IsDay d
    → IsDay c
    → (text_ge (stamp_units d) (stamp_units c) ≡ true) ↔ (position c ≤ position d)
unfolding stamp_units
stamp_units-ge d c v w =
    let days_d = two_digits d.day ++ [] in
    let days_c = two_digits c.day ++ [] in
    let months_d = two_digits d.month ++ b'-' ∷ days_d in
    let months_c = two_digits c.month ++ b'-' ∷ days_c in
    let years_d = two_digits d.year ++ b'-' ∷ months_d in
    let years_c = two_digits c.year ++ b'-' ∷ months_c in
    grind (
      arith,
      text_ge-two_digits (d.year / 100) (c.year / 100) years_d years_c,
      text_ge-two_digits d.year c.year (b'-' ∷ months_d) (b'-' ∷ months_c),
      text_ge-dash months_d months_c,
      text_ge-two_digits d.month c.month (b'-' ∷ days_d) (b'-' ∷ days_c),
      text_ge-dash days_d days_c,
      text_ge-two_digits d.day c.day [] [],
      text_ge-nil,
    )

-- The stamp of a day passes the test of the last days exactly where the day is not before the cutoff:
-- the comparison of texts is that of the calendar, for years of four digits.
pub is_within_last_days-position :
    (d cutoff : LocalDay)
    → IsDay d
    → IsDay cutoff
    → (is_within_last_days (local_date_stamp d) cutoff ≡ true) ↔ (position cutoff ≤ position d)
unfolding is_within_last_days
is_within_last_days-position d cutoff v w =
    rw (local_date_stamp-units d v, local_date_stamp-units cutoff w) (stamp_units-ge d cutoff v w)

-- ===== src/Dates/Tests.antt =====
-- Runs of the dates.
use teleyes.Common.{◌≡◌, ◌↔◌, ◌≤◌, refl, inl, true, [], ◌∷◌, ◌++◌, arith}
use teleyes.Text.{codes, trim, is_space}
use teleyes.Dates.Stamp.{
  LocalDay, is_zone, has_zone, api_stamp, local_date_stamp, is_within_last_days,
}
use teleyes.Dates.StampLaws.{api_stamp-zone}
use teleyes.Dates.DayOrder.{IsDay, position, is_within_last_days-position}

stamps_run :
    (api_stamp (codes "2026-03-01 09:30:00") ≡ codes "2026-03-01T09:30:00Z")
    × (api_stamp (codes "2026-03-01T09:30:00-03:00") ≡ codes "2026-03-01T09:30:00-03:00")
unfolding api_stamp has_zone trim is_space
stamps_run = (refl, refl)

api_stamp-zone_example :
    (api_stamp (b'2' ∷ codes "026-03-01" ++ b' ' ∷ b'0' ∷ codes "9:30")
      ≡ b'2' ∷ codes "026-03-01" ++ b'T' ∷ (b'0' ∷ codes "9:30" ++ b'Z' ∷ []))
    × (api_stamp (b'2' ∷ codes "026-03-01" ++ b' ' ∷ (b'0' ∷ codes "9:30" ++ codes "-03:00"))
        ≡ b'2' ∷ codes "026-03-01" ++ b'T' ∷ (b'0' ∷ codes "9:30" ++ codes "-03:00"))
unfolding is_space is_zone
api_stamp-zone_example =
    api_stamp-zone b'2' b' ' b'0' (codes "026-03-01") (codes "9:30") (codes "-03:00") refl
      (inl refl) refl refl refl

abbrev new_year : LocalDay
new_year = record { year = 2026; month = 1; day = 1 }

abbrev old_year : LocalDay
old_year = record { year = 2025; month = 12; day = 31 }

new_year-IsDay : IsDay new_year
new_year-IsDay = ground arith

old_year-IsDay : IsDay old_year
old_year-IsDay = ground arith

is_within_last_days-position_example :
    (is_within_last_days (local_date_stamp new_year) old_year ≡ true)
    ↔ (position old_year ≤ position new_year)
is_within_last_days-position_example =
    is_within_last_days-position new_year old_year new_year-IsDay old_year-IsDay

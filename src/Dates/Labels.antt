-- ===== src/Dates/Labels.antt =====
-- apps/web/src/utils/dates.ts: how long ago an instant was, and whether it was today or yesterday. An
-- instant is a number of milliseconds.
use teleyes.Common.{
  ℕ, ◌+◌, ◌-◌, ◌*◌, ◌/◌, ◌≤◌, ◌<◌, ◌≡◌, ◌⊎◌, ◌++◌, ltb, ◌==◌, if◌then◌else◌, arith,
}
use teleyes.Text.{Text, codes}
use teleyes.Setup.Decimal.{decimal}
use teleyes.Dates.Stamp.{LocalDay, is_same_local_day, api_stamp}

-- What `formatRelativeAgo` says.
pub data Ago : Type 0 where
  just_now : Ago
  seconds_ago minutes_ago hours_ago days_ago : ℕ → Ago

unfoldable pub relative_ago : ℕ → ℕ → Ago
relative_ago now instant =
    let seconds = (now - instant) / 1000 in
    let minutes = seconds / 60 in
    let hours = minutes / 60 in
    let days = hours / 24 in
    if ltb seconds 5
    then just_now
    else if ltb seconds 60
    then seconds_ago seconds
    else if ltb minutes 60
    then minutes_ago minutes
    else if ltb hours 24
    then hours_ago hours
    else days_ago days

unfoldable pub ago_label : Ago → Text
unfolding decimal
ago_label just_now = codes "agora"
ago_label (seconds_ago n) = codes "há " ++ decimal n ++ codes "s"
ago_label (minutes_ago n) = codes "há " ++ decimal n ++ codes " min"
ago_label (hours_ago n) = codes "há " ++ decimal n ++ codes "h"
ago_label (days_ago n) =
    if n == 1 then codes "há 1 dia" else codes "há " ++ decimal n ++ codes " dias"

-- The milliseconds that a label stands for, from and before.
abbrev pub least_ms : Ago → ℕ
least_ms just_now = 0
least_ms (seconds_ago n) = n * 1000
least_ms (minutes_ago n) = n * 60_000
least_ms (hours_ago n) = n * 3_600_000
least_ms (days_ago n) = n * 86_400_000

abbrev pub unit_ms : Ago → ℕ
unit_ms just_now = 5000
unit_ms (seconds_ago n) = 1000
unit_ms (minutes_ago n) = 60_000
unit_ms (hours_ago n) = 3_600_000
unit_ms (days_ago n) = 86_400_000

-- A label says the time that has passed in whole units of its own, rounded down: never less than a
-- unit, fewer than sixty seconds or minutes, and fewer than 24 hours; an instant to come is now.
pub relative_ago-bounds :
    (now instant : ℕ)
    → let ago = relative_ago now instant in
      (least_ms ago ≤ now - instant)
      × (now - instant < least_ms ago + unit_ms ago)
      × ((ago ≡ just_now) ⊎ (unit_ms ago ≤ least_ms ago))
      × ((ago ≡ just_now) ⊎ (instant < now))
unfolding relative_ago
relative_ago-bounds now instant = ground arith

-- The two shapes of a moment: the day as a word with the time, or the full date.
pub data Moment : Type 0 where
  today yesterday : Text → Moment
  on_date : Text → Moment

module _ (instant : Text → ℕ) (local_day : ℕ → LocalDay) (day_before : ℕ → ℕ)
    (clock full : ℕ → Text) where
  -- `formatMatchedAt(iso, now)`, where `day_before` is `setDate(getDate() - 1)`.
  unfoldable pub format_matched_at : Text → ℕ → Moment
  unfolding is_same_local_day api_stamp
  format_matched_at iso now =
      let date = instant (api_stamp iso) in
      if is_same_local_day (local_day date) (local_day now)
      then today (clock date)
      else if is_same_local_day (local_day date) (local_day (day_before now))
      then yesterday (clock date)
      else on_date (full date)

-- ===== src/Dates/Stamp.antt =====
-- apps/web/src/utils/dates.ts: the text that `parseApiDate` hands to `new Date`, and the stamp of a local
-- day. What `Date` makes of a text, and the calendar of the viewer's zone, are parameters.
use teleyes.Common.{ℕ, Bool, true, false, ◌&&◌, ◌||◌, [], ◌∷◌, ◌++◌, ltb, ◌==◌, if◌then◌else◌}
use teleyes.Text.{Text, trim, is_digit}
use teleyes.Price.Format.{two_digits}
use teleyes.Setup.Decimal.{decimal}

-- `[\d:.,]`
abbrev pub is_time_unit : ℕ → Bool
is_time_unit c = is_digit c || c == b':' || c == b'.' || c == b','

abbrev pub is_sign : ℕ → Bool
is_sign c = c == b'+' || c == b'-'

-- `(?:[zZ]|[+-]\d{2}(?::?\d{2})?)$`
unfoldable pub is_zone : Text → Bool
is_zone (z ∷ []) = z == b'z' || z == b'Z'
is_zone (sign ∷ a ∷ b ∷ []) = is_sign sign && is_digit a && is_digit b
is_zone (sign ∷ a ∷ b ∷ c ∷ d ∷ []) =
    is_sign sign && is_digit a && is_digit b && is_digit c && is_digit d
is_zone (sign ∷ a ∷ b ∷ colon ∷ c ∷ d ∷ []) =
    is_sign sign && is_digit a && is_digit b && colon == b':' && is_digit c && is_digit d
is_zone _ = false

-- The units of `[\d:.,]+` end where the zone begins, since a zone begins with none of them; `begun` says
-- that there was one.
unfoldable pub time_then_zone : Bool → Text → Bool
unfolding is_zone
time_then_zone begun [] = false
time_then_zone begun (c ∷ cs) =
    let rest = time_then_zone true cs in if is_time_unit c then rest else begun && is_zone (c ∷ cs)

-- `ZONE_DESIGNATOR.test(text)`
unfoldable pub has_zone : Text → Bool
unfolding time_then_zone
has_zone [] = false
has_zone (c ∷ cs) = (c == b'T' && time_then_zone false cs) || has_zone cs

-- `text.replace(' ', 'T')`: the first blank.
unfoldable pub blank_to_t : Text → Text
blank_to_t [] = []
blank_to_t (c ∷ cs) = if c == b' ' then b'T' ∷ cs else c ∷ blank_to_t cs

-- The argument of `new Date` in `parseApiDate`.
unfoldable pub api_stamp : Text → Text
unfolding has_zone blank_to_t
api_stamp value =
    let iso_like = blank_to_t (trim value) in
    if has_zone iso_like then iso_like else iso_like ++ b'Z' ∷ []

-- `isLater`, where `instant` is `new Date(text).getTime()`.
unfoldable pub is_later : (Text → ℕ) → Text → Text → Bool
unfolding api_stamp
is_later instant a b = ltb (instant (api_stamp b)) (instant (api_stamp a))

-- A local calendar day: `getFullYear`, `getMonth` plus one, and `getDate`.
pub record LocalDay : Type 0 where
  pub year : ℕ
  pub month : ℕ
  pub day : ℕ

unfoldable pub is_same_local_day : LocalDay → LocalDay → Bool
is_same_local_day a b = a.year == b.year && a.month == b.month && a.day == b.day

-- `localDateStamp` and `toDateInputValue`: YYYY-MM-DD.
unfoldable pub local_date_stamp : LocalDay → Text
unfolding decimal
local_date_stamp d = decimal d.year ++ b'-' ∷ (two_digits d.month ++ b'-' ∷ two_digits d.day)

-- `a >= b` on texts.
unfoldable pub text_ge : Text → Text → Bool
text_ge text [] = true
text_ge [] (b ∷ bs) = false
text_ge (a ∷ rest) (b ∷ bs) = if a == b then text_ge rest bs else ltb b a

-- `isWithinLastDays` with the day that `setDate(getDate() - days)` gives.
unfoldable pub is_within_last_days : Text → LocalDay → Bool
unfolding local_date_stamp text_ge
is_within_last_days date_stamp cutoff = text_ge date_stamp (local_date_stamp cutoff)

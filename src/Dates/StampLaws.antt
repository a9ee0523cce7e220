-- ===== src/Dates/StampLaws.antt =====
-- A stamp without a zone is read as UTC, and the stamps of days are in the order of the days.
use teleyes.Common.{
  ℕ, ◌≡◌, ◌⊎◌, ◌∙◌, refl, ap, subst, ==_iff, inl, inr, Bool, true, false, ◌||◌, [], ◌∷◌, ◌++◌, ◌==◌,
  all, arith, Bool-cases,
}
use mathlib.Core.List.{append_assoc}
use teleyes.Text.{Text, trim, trim_start, trim_end, drop_if_last, is_digit, is_space}
use teleyes.Text.Laws.{is_solid, all_mono}
use teleyes.Dates.Stamp.{is_time_unit, is_zone, time_then_zone, has_zone, blank_to_t, api_stamp}

-- The units of a date: digits and dashes.
abbrev pub is_date_unit : ℕ → Bool
is_date_unit c = is_digit c || c == b'-'

-- A zone begins with no unit of a time.
time_then_zone-zone : (zone : Text) → is_zone zone ≡ true → time_then_zone true zone ≡ true
unfolding time_then_zone
time_then_zone-zone [] z = z
time_then_zone-zone (a ∷ []) z = ground arith
time_then_zone-zone (a ∷ b ∷ []) z = ground arith
time_then_zone-zone (a ∷ b ∷ c ∷ []) z = ground arith
time_then_zone-zone (a ∷ b ∷ c ∷ d ∷ []) z = ground arith
time_then_zone-zone (a ∷ b ∷ c ∷ d ∷ e ∷ []) z = ground arith
time_then_zone-zone (a ∷ b ∷ c ∷ d ∷ e ∷ f ∷ []) z = ground arith
time_then_zone-zone (a ∷ b ∷ c ∷ d ∷ e ∷ f ∷ g ∷ r) z = cc

time_then_zone-append :
    (begun : Bool) (c : ℕ) (time zone : Text)
    → all is_time_unit (c ∷ time) ≡ true
    → is_zone zone ≡ true
    → time_then_zone begun (c ∷ time ++ zone) ≡ true
unfolding time_then_zone
time_then_zone-append begun c [] zone t z = ground (arith, time_then_zone-zone zone z)
time_then_zone-append begun c (d ∷ time) zone t z =
    ground (arith, time_then_zone-append true d time zone)

time_then_zone-bare :
    (begun : Bool) (time : Text) → all is_time_unit time ≡ true → time_then_zone begun time ≡ false
unfolding time_then_zone
time_then_zone-bare begun [] t = refl
time_then_zone-bare begun (c ∷ time) t = ground (arith, time_then_zone-bare true time)

-- In front of the T of a date there is no other.
has_zone-date :
    (date rest : Text)
    → all is_date_unit date ≡ true
    → has_zone (date ++ b'T' ∷ rest) ≡ (time_then_zone false rest || has_zone rest)
unfolding has_zone
has_zone-date [] rest d = refl
has_zone-date (c ∷ date) rest d = ground (arith, has_zone-date date rest)

has_zone-time : (time : Text) → all is_time_unit time ≡ true → has_zone time ≡ false
unfolding has_zone
has_zone-time [] t = refl
has_zone-time (c ∷ time) t = ground (arith, has_zone-time time)

drop_if_last-append :
    (b : ℕ) (before after : Text) (c : ℕ)
    → drop_if_last b (before ++ c ∷ after) ≡ b ∷ before ++ c ∷ after
drop_if_last-append b [] after c = refl
drop_if_last-append b (e ∷ before) after c = refl

-- `trim` keeps a text that begins with a solid unit and ends with a text that it keeps.
trim_end-append :
    (before after : Text) (c : ℕ)
    → trim_end (c ∷ after) ≡ c ∷ after
    → trim_end (before ++ c ∷ after) ≡ before ++ c ∷ after
unfolding trim_end
trim_end-append [] after c k = k
trim_end-append (b ∷ before) after c k =
    ap (drop_if_last b) (trim_end-append before after c k) ∙ drop_if_last-append b before after c

trim-between :
    (a c : ℕ) (before after : Text)
    → is_space a ≡ false
    → trim_end (c ∷ after) ≡ c ∷ after
    → trim (a ∷ before ++ c ∷ after) ≡ a ∷ before ++ c ∷ after
unfolding trim trim_start
trim-between a c before after h k = rw h (trim_end-append (a ∷ before) after c k)

-- The first blank becomes a T.
blank_to_t-date :
    (sep : ℕ) (date rest : Text)
    → all is_date_unit date ≡ true
    → blank_to_t (date ++ sep ∷ rest) ≡ date ++ blank_to_t (sep ∷ rest)
unfolding blank_to_t
blank_to_t-date sep [] rest d = refl
blank_to_t-date sep (c ∷ date) rest d = ground (arith, blank_to_t-date sep date rest)

not_blank : (c : ℕ) → is_space c ≡ false → (c == b' ') ≡ false
unfolding is_space
not_blank c h = elim (Bool-cases (c == b' ')) [
  | inl e ↦
      let blank : is_space b' ' ≡ false =
        subst (λ (d : ℕ). is_space d ≡ false) ((==_iff c b' ').0 e) h in
      cc blank
  | inr e ↦ e
]

blank_to_t-solid : (text : Text) → all is_solid text ≡ true → blank_to_t text ≡ text
unfolding blank_to_t
blank_to_t-solid [] s = refl
blank_to_t-solid (c ∷ text) s = ground (arith, not_blank c, blank_to_t-solid text)

trim_end-all_solid : (text : Text) → all is_solid text ≡ true → trim_end text ≡ text
unfolding trim_end
trim_end-all_solid [] s = refl
trim_end-all_solid (c ∷ text) s = rw (trim_end-all_solid text (ground arith)) (keeps c text s)
  where
    keeps : (c : ℕ) (text : Text) → all is_solid (c ∷ text) ≡ true → drop_if_last c text ≡ c ∷ text
    keeps c [] s = ground arith
    keeps c (d ∷ text) s = refl

date_solid : (c : ℕ) → is_date_unit c ≡ true → is_space c ≡ false
unfolding is_space
date_solid c h = ground arith

-- A date, a separator and the rest of a stamp, as `parseApiDate` reads it.
api_stamp-parts :
    (a sep t : ℕ) (date rest : Text)
    → all is_date_unit (a ∷ date) ≡ true
    → all is_solid (t ∷ rest) ≡ true
    → (sep ≡ b' ') ⊎ (sep ≡ b'T')
    → blank_to_t (trim (a ∷ date ++ sep ∷ t ∷ rest)) ≡ a ∷ date ++ b'T' ∷ t ∷ rest
unfolding blank_to_t
api_stamp-parts a sep t date rest d s k =
    let kept =
      trim-between a t (date ++ sep ∷ []) rest (date_solid a (ground arith))
        (trim_end-all_solid (t ∷ rest) s) in
    let whole : (date ++ sep ∷ []) ++ t ∷ rest ≡ date ++ sep ∷ t ∷ rest =
      append_assoc date (sep ∷ []) (t ∷ rest) in
    let trimmed : trim (a ∷ date ++ sep ∷ t ∷ rest) ≡ a ∷ date ++ sep ∷ t ∷ rest =
      subst (λ (r : Text). trim (a ∷ r) ≡ a ∷ r) whole kept in
    rw trimmed
      (blank_to_t-date sep (a ∷ date) (t ∷ rest) d ∙ ap (λ (r : Text). a ∷ date ++ r) (separated k))
  where
    separated : (sep ≡ b' ') ⊎ (sep ≡ b'T') → blank_to_t (sep ∷ t ∷ rest) ≡ b'T' ∷ t ∷ rest
    separated (inl e) = rw e refl
    separated (inr e) = rw e (ap (λ (r : Text). b'T' ∷ r) (blank_to_t-solid (t ∷ rest) s))

has_zone-solid_time :
    (a : ℕ) (date : Text) (c : ℕ) (time zone : Text)
    → all is_date_unit (a ∷ date) ≡ true
    → all is_time_unit (c ∷ time) ≡ true
    → is_zone zone ≡ true
    → has_zone (a ∷ date ++ b'T' ∷ (c ∷ time ++ zone)) ≡ true
has_zone-solid_time a date c time zone d t z =
    has_zone-date (a ∷ date) (c ∷ time ++ zone) d
    ∙ rw (time_then_zone-append false c time zone t z) refl

has_zone-bare_time :
    (a : ℕ) (date : Text) (c : ℕ) (time : Text)
    → all is_date_unit (a ∷ date) ≡ true
    → all is_time_unit (c ∷ time) ≡ true
    → has_zone (a ∷ date ++ b'T' ∷ c ∷ time) ≡ false
has_zone-bare_time a date c time d t =
    has_zone-date (a ∷ date) (c ∷ time) d
    ∙ rw (time_then_zone-bare false (c ∷ time) t) (has_zone-time (c ∷ time) t)

time_solid : (c : ℕ) → is_time_unit c ≡ true → is_solid c ≡ true
unfolding is_space
time_solid c h = ground arith

-- A date and a time, with a T or a blank between them: without a zone they are read as UTC, as if a Z
-- stood behind them; with a zone they are read as they are written.
pub api_stamp-zone :
    (a sep c : ℕ) (date time zone : Text)
    → all is_date_unit (a ∷ date) ≡ true
    → (sep ≡ b' ') ⊎ (sep ≡ b'T')
    → all is_time_unit (c ∷ time) ≡ true
    → all is_solid (c ∷ time ++ zone) ≡ true
    → is_zone zone ≡ true
    → (api_stamp (a ∷ date ++ sep ∷ c ∷ time) ≡ a ∷ date ++ b'T' ∷ (c ∷ time ++ b'Z' ∷ []))
      × (api_stamp (a ∷ date ++ sep ∷ (c ∷ time ++ zone)) ≡ a ∷ date ++ b'T' ∷ (c ∷ time ++ zone))
unfolding api_stamp
api_stamp-zone a sep c date time zone d k t s z = (
  rw
      (
        api_stamp-parts a sep c date time d (all_mono is_time_unit is_solid (c ∷ time) time_solid t)
            k,
        has_zone-bare_time a date c time d t,
      )
      (append_assoc (a ∷ date) (b'T' ∷ c ∷ time) (b'Z' ∷ [])),
  rw
      (
        api_stamp-parts a sep c date (time ++ zone) d s k,
        has_zone-solid_time a date c time zone d t z,
      )
      refl,
)

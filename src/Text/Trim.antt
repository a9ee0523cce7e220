-- ===== src/Text/Trim.antt =====
-- What `trim` does to a text.
use teleyes.Common.{ℕ, ◌≡◌, refl, ap, Bool, true, false, [], ◌∷◌, if◌then◌else◌, all, arith, ◌∙◌}
use teleyes.Text.{Text, is_space, trim_start, trim_end, trim, drop_if_last}

drop_if_last-fixed :
    (c : ℕ) (rest : Text)
    → trim_end rest ≡ rest
    → trim_end (drop_if_last c rest) ≡ drop_if_last c rest
unfolding trim_end
drop_if_last-fixed c [] h = ground arith
drop_if_last-fixed c (d ∷ ds) h = ap (drop_if_last c) h

pub trim_end-trim_end : (t : Text) → trim_end (trim_end t) ≡ trim_end t
unfolding trim_end
trim_end-trim_end [] = refl
trim_end-trim_end (c ∷ cs) = drop_if_last-fixed c (trim_end cs) (trim_end-trim_end cs)

pub all-trim_end : (p : ℕ → Bool) (t : Text) → all p t ≡ true → all p (trim_end t) ≡ true
unfolding trim_end
all-trim_end p [] h = refl
all-trim_end p (c ∷ cs) h = ground (arith, all-trim_end p cs)

all-trim_start : (p : ℕ → Bool) (t : Text) → all p t ≡ true → all p (trim_start t) ≡ true
unfolding trim_start
all-trim_start p [] h = refl
all-trim_start p (c ∷ cs) h = ground (arith, all-trim_start p cs)

pub all-trim : (p : ℕ → Bool) (t : Text) → all p t ≡ true → all p (trim t) ≡ true
unfolding trim
all-trim p t h = all-trim_end p (trim_start t) (all-trim_start p t h)

-- A text that begins with no white space keeps its first unit.
abbrev starts_solid : Text → Bool
starts_solid [] = true
starts_solid (c ∷ cs) = if is_space c then false else true

trim_start-solid : (t : Text) → starts_solid (trim_start t) ≡ true
unfolding trim_start
trim_start-solid [] = refl
trim_start-solid (c ∷ cs) = ground (arith, trim_start-solid cs)

trim_end-solid_start : (t : Text) → starts_solid t ≡ true → starts_solid (trim_end t) ≡ true
unfolding trim_end
trim_end-solid_start [] h = refl
trim_end-solid_start (c ∷ cs) h = ground arith

trim_start_of_solid : (t : Text) → starts_solid t ≡ true → trim_start t ≡ t
unfolding trim_start
trim_start_of_solid [] h = refl
trim_start_of_solid (c ∷ cs) h = ground arith

pub trim-trim : (t : Text) → trim (trim t) ≡ trim t
unfolding trim
trim-trim t =
    ap trim_end (trim_start_of_solid _ (trim_end-solid_start _ (trim_start-solid t)))
    ∙ trim_end-trim_end (trim_start t)

pub trim-blank : (t : Text) → trim (b' ' ∷ t) ≡ trim t
unfolding trim trim_start is_space
trim-blank t = refl

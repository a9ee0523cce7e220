-- ===== src/Price/Shape.antt =====
-- The form of a printed number: which of the parser's patterns it fits.
use teleyes.Common.{
  ℕ, suc, zero, ◌*◌, ◌/◌, ◌%◌, ◌≤◌, ◌<◌, ◌≡◌, refl, sym, ◌∙◌, [], ◌∷◌, ◌++◌, true, false, ltb, all,
  keep, not, arith, Bool-cases, inl, inr, ltb→lt, lt→ltb, Bool, ◌==◌,
}
use mathlib.Core.List.{append_assoc, append-nil}
use teleyes.Text.{Text, is_digit}
use teleyes.Text.Laws.{all_mono}
use teleyes.Price.Input.{groups, some_groups, is_thousands, without_dots}
use teleyes.Price.Format.{digit, small_digits, three_digits, grouped}
use teleyes.Price.Digits.{value, value-append, value-small_digits, value-three_digits}

pub all-append :
    (p : ℕ → Bool) (xs ys : Text) → all p xs ≡ true → all p ys ≡ true → all p (xs ++ ys) ≡ true
all-append p [] ys h k = k
all-append p (x ∷ xs) ys h k = ground (arith, all-append p xs ys)

keep-append : (p : ℕ → Bool) (xs ys : Text) → keep p (xs ++ ys) ≡ keep p xs ++ keep p ys
keep-append p [] ys = refl
keep-append p (x ∷ xs) ys = ground (arith, keep-append p xs ys)

pub keep-all : (xs : Text) → all is_digit xs ≡ true → without_dots xs ≡ xs
keep-all [] h = refl
keep-all (x ∷ xs) h = ground (arith, keep-all xs)

pub small_digits-all : (n : ℕ) → all is_digit (small_digits n) ≡ true
small_digits-all n = ground arith

three_digits-all : (n : ℕ) → all is_digit (three_digits n) ≡ true
three_digits-all n = ground arith

groups-append :
    (xs : Text) (a b c : ℕ)
    → groups xs ≡ true
    → all is_digit (a ∷ b ∷ c ∷ []) ≡ true
    → groups (xs ++ b'.' ∷ a ∷ b ∷ c ∷ []) ≡ true
groups-append [] a b c h k = ground arith
groups-append (x ∷ y ∷ z ∷ w ∷ rest) a b c h k = ground (arith, groups-append rest a b c)
groups-append (x ∷ []) a b c h k = cc
groups-append (x ∷ y ∷ []) a b c h k = cc
groups-append (x ∷ y ∷ z ∷ []) a b c h k = cc

groups-digit : (d : ℕ) (rest : Text) → is_digit d ≡ true → groups (d ∷ rest) ≡ false
groups-digit d [] h = refl
groups-digit d (a ∷ []) h = refl
groups-digit d (a ∷ b ∷ []) h = refl
groups-digit d (a ∷ b ∷ c ∷ rest) h = ground arith

-- Three digits and then groups are groups with their dot.
is_thousands-small :
    (n : ℕ) (tail : Text) → some_groups tail ≡ true → is_thousands (small_digits n ++ tail) ≡ true
unfolding is_thousands
is_thousands-small n [] h = cc
is_thousands-small n (t ∷ []) h = cc
is_thousands-small n (t ∷ a ∷ []) h = cc
is_thousands-small n (t ∷ a ∷ b ∷ []) h = cc
is_thousands-small n (t ∷ a ∷ b ∷ c ∷ rest) h = ground arith

-- What stands behind the leading digits: nothing, or a text that begins with no digit.
abbrev pub digit_first : Text → Bool
digit_first [] = false
digit_first (c ∷ cs) = is_digit c

pub is_thousands-digits :
    (xs rest : Text)
    → all is_digit xs ≡ true
    → digit_first rest ≡ false
    → some_groups rest ≡ false
    → is_thousands (xs ++ rest) ≡ false
unfolding is_thousands
is_thousands-digits [] [] h k l = refl
is_thousands-digits [] (a ∷ []) h k l = refl
is_thousands-digits [] (a ∷ b ∷ []) h k l = refl
is_thousands-digits [] (a ∷ b ∷ c ∷ []) h k l = refl
is_thousands-digits [] (a ∷ b ∷ c ∷ d ∷ r) h k l = ground arith
is_thousands-digits (x ∷ []) [] h k l = refl
is_thousands-digits (x ∷ []) (a ∷ []) h k l = refl
is_thousands-digits (x ∷ []) (a ∷ b ∷ []) h k l = refl
is_thousands-digits (x ∷ []) (a ∷ b ∷ c ∷ r) h k l = rw (l, k) (ground arith)
is_thousands-digits (x ∷ y ∷ []) [] h k l = refl
is_thousands-digits (x ∷ y ∷ []) (a ∷ []) h k l = refl
is_thousands-digits (x ∷ y ∷ []) (a ∷ b ∷ r) h k l = ground (arith, groups-digit y (a ∷ b ∷ r))
is_thousands-digits (x ∷ y ∷ z ∷ []) [] h k l = refl
is_thousands-digits (x ∷ y ∷ z ∷ []) (a ∷ r) h k l =
    ground (arith, groups-digit y (z ∷ a ∷ r), groups-digit z (a ∷ r))
is_thousands-digits (x ∷ y ∷ z ∷ w ∷ xs) rest h k l = ground (
  arith,
  groups-digit y (z ∷ w ∷ (xs ++ rest)),
  groups-digit z (w ∷ (xs ++ rest)),
  groups-digit w (xs ++ rest),
)

pub is_thousands-none : (xs : Text) → all is_digit xs ≡ true → is_thousands xs ≡ false
is_thousands-none xs h = rw append-nil at (is_thousands-digits xs [] h refl refl)

-- One, two or three digits and then groups.
record IsGrouped (text : Text) : Type 0 where
  small : ℕ
  tail : Text
  joined : text ≡ small_digits small ++ tail
  grouped_tail : groups tail ≡ true

IsGrouped-append :
    (text : Text) (n : ℕ) → IsGrouped text → IsGrouped (text ++ b'.' ∷ three_digits n)
IsGrouped-append text n g = record {
  small = g.small;
  tail = g.tail ++ b'.' ∷ three_digits n;
  joined = rw (g.joined, append_assoc);
  grouped_tail = groups-append g.tail _ _ _ g.grouped_tail (three_digits-all n);
}

grouped-IsGrouped : (rounds n : ℕ) → IsGrouped (grouped (b'.' ∷ []) rounds n)
unfolding grouped
grouped-IsGrouped zero n = record {
  small = n;
  tail = [];
  joined = sym (append-nil _);
  grouped_tail = refl;
}
grouped-IsGrouped (suc rounds) n = elim (Bool-cases (ltb n 1000)) [
  | inl low ↦
      rw low (record { small = n; tail = []; joined = sym (append-nil _); grouped_tail = refl })
  | inr high ↦ rw high (IsGrouped-append _ (n % 1000) (grouped-IsGrouped rounds (n / 1000)))
]

some_groups-append :
    (tail : Text) (n : ℕ) → groups tail ≡ true → some_groups (tail ++ b'.' ∷ three_digits n) ≡ true
some_groups-append [] n h =
    groups-append [] (digit (n / 100)) (digit (n / 10)) (digit n) refl (three_digits-all n)
some_groups-append (t ∷ tail) n h =
    groups-append (t ∷ tail) (digit (n / 100)) (digit (n / 10)) (digit n) h (three_digits-all n)

pub grouped-is_thousands :
    (rounds n : ℕ) → 1000 ≤ n → is_thousands (grouped (b'.' ∷ []) (suc rounds) n) ≡ true
unfolding grouped
grouped-is_thousands rounds n h =
    let g = grouped-IsGrouped rounds (n / 1000) in
    let high : ltb n 1000 ≡ false = ground arith in
    rw (high, g.joined, append_assoc)
      (is_thousands-small g.small _ (some_groups-append g.tail (n % 1000) g.grouped_tail))

pub grouped-low : (dot : Text) (rounds n : ℕ) → n < 1000 → grouped dot rounds n ≡ small_digits n
unfolding grouped
grouped-low dot zero n h = refl
grouped-low dot (suc rounds) n h = rw (lt→ltb _ _ h)

-- Every unit of a printed number is a digit or stands in the separator.
pub grouped-all :
    (p : ℕ → Bool) (dot : Text)
    → ((c : ℕ) → is_digit c ≡ true → p c ≡ true)
    → all p dot ≡ true
    → (rounds n : ℕ) → all p (grouped dot rounds n) ≡ true
unfolding grouped
grouped-all p dot d h zero n = all_mono is_digit p _ d (small_digits-all n)
grouped-all p dot d h (suc rounds) n = elim (Bool-cases (ltb n 1000)) [
  | inl low ↦ rw low (all_mono is_digit p _ d (small_digits-all n))
  | inr high ↦ rw high (
      all-append p (grouped dot rounds (n / 1000)) (dot ++ three_digits (n % 1000))
        (grouped-all p dot d h rounds (n / 1000))
        (all-append p dot (three_digits (n % 1000)) h
          (all_mono is_digit p (three_digits (n % 1000)) d (three_digits-all (n % 1000)))))
]

-- The first number that needs more than `rounds` groups behind its first.
abbrev pub group_limit : ℕ → ℕ
group_limit zero = 1000
group_limit (suc rounds) = group_limit rounds * 1000

without_dots-three :
    (dot : Text) (n : ℕ)
    → without_dots dot ≡ []
    → without_dots (dot ++ three_digits n) ≡ three_digits n
without_dots-three dot n d =
    keep-append (λ c. not (c == b'.')) dot (three_digits n)
    ∙ rw d (keep-all (three_digits n) (three_digits-all n))

-- Without its dots, a printed number stands for the number.
pub value-grouped :
    (dot : Text) (rounds n : ℕ)
    → without_dots dot ≡ []
    → n < group_limit rounds
    → value 0 (without_dots (grouped dot rounds n)) ≡ n
unfolding grouped
value-grouped dot zero n d h = rw (keep-all _ (small_digits-all n)) (value-small_digits n h)
value-grouped dot (suc rounds) n d h = elim (Bool-cases (ltb n 1000)) [
  | inl low ↦ rw (low, keep-all _ (small_digits-all n)) (value-small_digits n (ltb→lt _ _ low))
  | inr high ↦
      rw (high, keep-append, without_dots-three dot (n % 1000) d, value-append)
        (omega (
          arith,
          value-three_digits (value 0 (without_dots (grouped dot rounds (n / 1000)))) (n % 1000),
          value-grouped dot rounds (n / 1000) d (omega arith),
        ))
]

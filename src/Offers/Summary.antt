-- ===== src/Offers/Summary.antt =====
-- apps/web/src/economia/summary.ts: the numbers behind the cards of the Economia page. A percentage is a `Share`: the part of a whole, times a hundred.
use teleyes.Common.{
  ℕ, zero, suc, ◌+◌, ◌≡◌, ◌≤◌, ◌<◌, ◌⊎◌, refl, subst, Bool, false, Option, none, some, List, [],
  ◌∷◌, map, leb, max, if◌then◌else◌, arith, sort, insert, IsSorted, IsOrder, sort-IsSorted,
  sort-All, All, ◌∙◌,
}
use teleyes.Text.{Text}
use teleyes.Offers.Report.{ok, no_data, ItemSavings, ReportItem}

pub record Share : Type 0 where
  pub part : ℕ
  pub whole : ℕ

pub record SavingsBars : Type 0 where
  pub median_cents : ℕ
  pub paid_cents : ℕ
  pub median_width : Share
  pub paid_width : Share

-- The reference of a purchase that counts.
abbrev pub median_of_savings : Option ItemSavings → Option ℕ
median_of_savings none = none
median_of_savings (some savings) = elim savings.status [
  | ok ↦ savings.median_90d_cents
  | no_data ↦ none
]

-- The loop: the sum of the medians, the sum paid and the count.
unfoldable pub sum_counted : ℕ → ℕ → ℕ → List ReportItem → ℕ × ℕ × ℕ
sum_counted median paid counted [] = (median, paid, counted)
sum_counted median paid counted (item ∷ items) = elim (median_of_savings item.savings) [
  | none ↦ sum_counted median paid counted items
  | some cents ↦ sum_counted (median + cents) (paid + item.price_cents) (suc counted) items
]

abbrev pub fitted_bars : ℕ → ℕ → SavingsBars
fitted_bars median paid =
    let widest = max (max median paid) 1 in
    record {
      median_cents = median;
      paid_cents = paid;
      median_width = record { part = median; whole = widest };
      paid_width = record { part = paid; whole = widest };
    }

abbrev pub bars_of : ℕ × ℕ × ℕ → Option SavingsBars
bars_of (median, paid, zero) = none
bars_of (median, paid, suc counted) = some (fitted_bars median paid)

unfoldable pub savings_bars : List ReportItem → Option SavingsBars
savings_bars items = bars_of (sum_counted 0 0 0 items)

-- No bar is wider than the whole, the whole is not zero, and one of the bars fills it unless
-- nothing was paid at a median of nothing.
pub record IsFitted (bars : SavingsBars) : Type 0 where
  pub positive : 0 < bars.median_width.whole
  pub same : bars.paid_width.whole ≡ bars.median_width.whole
  pub median_fits : bars.median_width.part ≤ bars.median_width.whole
  pub paid_fits : bars.paid_width.part ≤ bars.paid_width.whole
  pub filled :
      (bars.median_width.part ≡ bars.median_width.whole)
      ⊎ ((bars.paid_width.part ≡ bars.paid_width.whole)
          ⊎ ((bars.median_cents ≡ 0) × (bars.paid_cents ≡ 0)))

fitted_bars-IsFitted : (median paid : ℕ) → IsFitted (fitted_bars median paid)
fitted_bars-IsFitted median paid = ground arith

pub some_injective : {A : Type 0} {a b : A} → some a ≡ some b → a ≡ b
some_injective h = cc

bars_of-IsFitted :
    (sums : ℕ × ℕ × ℕ) (bars : SavingsBars) → bars_of sums ≡ some bars → IsFitted bars
bars_of-IsFitted (median, paid, zero) bars h = cc
bars_of-IsFitted (median, paid, suc counted) bars h =
    subst IsFitted (some_injective h) (fitted_bars-IsFitted median paid)

-- The widths of the two bars fit, and one of them fills the whole unless both amounts are zero.
pub savings_bars-IsFitted :
    (items : List ReportItem) (bars : SavingsBars) → savings_bars items ≡ some bars → IsFitted bars
unfolding savings_bars
savings_bars-IsFitted items bars h = bars_of-IsFitted (sum_counted 0 0 0 items) bars h

pub record PaidShare : Type 0 where
  pub id : ℕ
  pub name : Text
  pub share : Share

abbrev pub total_paid : List ReportItem → ℕ
total_paid [] = 0
total_paid (item ∷ items) = item.price_cents + total_paid items

-- `b.share - a.share` is not positive: the shares have one whole.
abbrev pub not_smaller : PaidShare → PaidShare → Bool
not_smaller a b = leb b.share.part a.share.part

abbrev pub share_of : ℕ → ReportItem → PaidShare
share_of total item = record {
  id = item.id;
  name = item.name;
  share = record { part = item.price_cents; whole = total };
}

unfoldable pub paid_shares : List ReportItem → List PaidShare
paid_shares items =
    let total = total_paid items in
    if leb total 0 then [] else sort not_smaller (map (share_of total) items)

-- The parts of the shares.
abbrev pub sum_parts : List PaidShare → ℕ
sum_parts [] = 0
sum_parts (s ∷ shares) = s.share.part + sum_parts shares

sum_parts-insert :
    (s : PaidShare) (shares : List PaidShare)
    → sum_parts (insert not_smaller s shares) ≡ s.share.part + sum_parts shares
sum_parts-insert s [] = refl
sum_parts-insert s (t ∷ shares) = ground (arith, sum_parts-insert s shares)

sum_parts-sort : (shares : List PaidShare) → sum_parts (sort not_smaller shares) ≡ sum_parts shares
sum_parts-sort [] = refl
sum_parts-sort (s ∷ shares) =
    omega (arith, sum_parts-insert s (sort not_smaller shares), sum_parts-sort shares)

sum_parts-total :
    (total : ℕ) (items : List ReportItem)
    → sum_parts (map (share_of total) items) ≡ total_paid items
sum_parts-total total [] = refl
sum_parts-total total (item ∷ items) = omega (arith, sum_parts-total total items)

not_smaller-IsOrder : IsOrder not_smaller
not_smaller-IsOrder = record {
  total = λ x y h. ground arith;
  transitive = λ x y z h k. ground arith;
}

shares-whole :
    (total : ℕ) (items : List ReportItem)
    → All (λ s. s.share.whole ≡ total) (map (share_of total) items)
shares-whole total [] = tt
shares-whole total (item ∷ items) = (refl, shares-whole total items)

-- Where something was paid, the shares are of the total, add up to it, and stand largest first.
pub paid_shares-sum :
    (items : List ReportItem)
    → 0 < total_paid items
    → (sum_parts (paid_shares items) ≡ total_paid items)
      × IsSorted not_smaller (paid_shares items)
      × All (λ s. s.share.whole ≡ total_paid items) (paid_shares items)
unfolding paid_shares
paid_shares-sum items h =
    let total = total_paid items in
    let shares = map (share_of total) items in
    rw (positive total h) (
      sum_parts-sort shares ∙ sum_parts-total total items,
      sort-IsSorted not_smaller not_smaller-IsOrder shares,
      sort-All not_smaller (λ s. s.share.whole ≡ total) shares (shares-whole total items),
    )
  where
    positive : (n : ℕ) → 0 < n → leb n 0 ≡ false
    positive n p = ground arith

-- ===== src/Offers/Lowest.antt =====
-- apps/web/src/utils/robustLowestPrice.ts: the lowest price that is not far below the median of its
-- rule. The median of an even number of prices can end in a half, so it is kept doubled; the price that
-- is compared with a fifth of it is compared times ten.
use native.Mathlib.Decide.{ℕ_discrete, dec_le}
use teleyes.Common.{
  ◌∙◌, ℕ, zero, suc, ◌+◌, ◌-◌, ◌*◌, ◌/◌, ◌%◌, ◌≤◌, ◌≡◌, ◌≢◌, ◌⊎◌, refl, inl, inr, Bool, true,
  Option, none, some, List, [], ◌∷◌, map, leb, ◌==◌, if◌then◌else◌, min, arith, length, keep, any,
  All, sort, sort-All,
}

pub record RobustPriceInput : Type 0 where
  pub rule_id : ℕ
  pub price_cents : ℕ

-- `sorted[index]`, which is inside `sorted` here.
abbrev pub at : ℕ → List ℕ → ℕ
at index [] = 0
at zero (x ∷ xs) = x
at (suc index) (x ∷ xs) = at index xs

-- `medianOf`, doubled.
unfoldable pub twice_median_of : List ℕ → ℕ
twice_median_of prices =
    let sorted = sort leb prices in
    let mid = length sorted / 2 in
    if length sorted % 2 == 0 then at (mid - 1) sorted + at mid sorted else 2 * at mid sorted

-- `byRule.get(ruleId)`
unfoldable pub prices_of_rule : ℕ → List RobustPriceInput → List ℕ
prices_of_rule rule_id prices = map (λ p. p.price_cents) (keep (λ p. p.rule_id == rule_id) prices)

-- `priceCents >= medianByRule.get(ruleId)! * 0.2`
unfoldable pub is_plausible : List RobustPriceInput → RobustPriceInput → Bool
unfolding twice_median_of prices_of_rule
is_plausible prices p = leb (twice_median_of (prices_of_rule p.rule_id prices)) (p.price_cents * 10)

-- `Math.min(...valid.map(…))`
abbrev pub least_of : ℕ → List RobustPriceInput → ℕ
least_of found [] = found
least_of found (p ∷ ps) = least_of (min found p.price_cents) ps

abbrev pub least_price : List RobustPriceInput → Option ℕ
least_price [] = none
least_price (p ∷ ps) = some (least_of p.price_cents ps)

unfoldable pub robust_lowest_price_cents : List RobustPriceInput → Option ℕ
robust_lowest_price_cents prices = least_price (keep (is_plausible prices) prices)

-- The least price is one of the prices, and at most every one of them.
least_of-bound :
    (found : ℕ) (ps : List RobustPriceInput)
    → (least_of found ps ≤ found) × All (λ p. least_of found ps ≤ p.price_cents) ps
least_of-bound found [] = (omega arith, tt)
least_of-bound found (p ∷ ps) =
    let (first, rest) = least_of-bound (min found p.price_cents) ps in
    (omega (arith, first), (omega (arith, first), rest))

least_of-attained :
    (found : ℕ) (ps : List RobustPriceInput)
    → (least_of found ps ≡ found) ⊎ (any (λ p. p.price_cents == least_of found ps) ps ≡ true)
least_of-attained found [] = inl refl
least_of-attained found (p ∷ ps) = ground (arith, least_of-attained (min found p.price_cents) ps)

pub record IsLeast (ps : List RobustPriceInput) (lowest : ℕ) : Type 0 where
  pub attained : any (λ p. p.price_cents == lowest) ps ≡ true
  pub bound : All (λ p. lowest ≤ p.price_cents) ps

least_price-IsLeast :
    (ps : List RobustPriceInput)
    → any (λ p. true) ps ≡ true
    → (lowest : ℕ) × (least_price ps ≡ some lowest) × IsLeast ps lowest
least_price-IsLeast [] h = ground arith
least_price-IsLeast (p ∷ ps) h =
    let (first, rest) = least_of-bound p.price_cents ps in
    (
      least_of p.price_cents ps,
      refl,
      record {
        attained = ground (arith, least_of-attained p.price_cents ps);
        bound = (first, rest);
      },
    )

-- The median is at most any bound of the prices.
at-le : (index bound : ℕ) (xs : List ℕ) → All (λ x. x ≤ bound) xs → at index xs ≤ bound
at-le index bound [] k = omega arith
at-le zero bound (x ∷ xs) (p, k) = p
at-le (suc index) bound (x ∷ xs) (p, k) = at-le index bound xs k

twice_median_of-le :
    (bound : ℕ) (xs : List ℕ) → All (λ x. x ≤ bound) xs → twice_median_of xs ≤ 2 * bound
unfolding twice_median_of
twice_median_of-le bound xs k =
    let sorted = sort leb xs in
    let mid = length sorted / 2 in
    let all = sort-All leb (λ x. x ≤ bound) xs k in
    ground (arith, at-le (mid - 1) bound sorted all, at-le mid bound sorted all)

-- An offer of a list, in that every test it passes is passed by some offer of the list.
abbrev Among : RobustPriceInput → List RobustPriceInput → Type 0
Among p ps = (test : RobustPriceInput → Bool) → test p ≡ true → any test ps ≡ true

-- The highest price of a rule.
record Highest (rule_id : ℕ) (ps : List RobustPriceInput) : Type 0 where
  offer : RobustPriceInput
  of_rule : offer.rule_id ≡ rule_id
  among : Among offer ps
  highest : All (λ x. x ≤ offer.price_cents) (prices_of_rule rule_id ps)

All-le : (a b : ℕ) (xs : List ℕ) → a ≤ b → All (λ x. x ≤ a) xs → All (λ x. x ≤ b) xs
All-le a b [] h k = tt
All-le a b (x ∷ xs) h (p, k) = (omega (arith, h, p), All-le a b xs h k)

Among-first : (p : RobustPriceInput) (ps : List RobustPriceInput) → Among p (p ∷ ps)
Among-first p ps test h = rw h refl

Among-later : (p q : RobustPriceInput) (ps : List RobustPriceInput) → Among q ps → Among q (p ∷ ps)
Among-later p q ps a test h = ground (arith, a test h)

prices_of_rule-first :
    (rule_id : ℕ) (p : RobustPriceInput) (ps : List RobustPriceInput)
    → p.rule_id ≡ rule_id
    → prices_of_rule rule_id (p ∷ ps) ≡ p.price_cents ∷ prices_of_rule rule_id ps
unfolding prices_of_rule
prices_of_rule-first rule_id p ps h = ground arith

prices_of_rule-later :
    (rule_id : ℕ) (p : RobustPriceInput) (ps : List RobustPriceInput)
    → p.rule_id ≢ rule_id
    → prices_of_rule rule_id (p ∷ ps) ≡ prices_of_rule rule_id ps
unfolding prices_of_rule
prices_of_rule-later rule_id p ps h = ground arith

no_prices : (rule_id : ℕ) → prices_of_rule rule_id [] ≡ []
unfolding prices_of_rule
no_prices rule_id = refl

Highest-of_rule :
    (rule_id : ℕ) (ps : List RobustPriceInput)
    → Highest rule_id ps ⊎ (prices_of_rule rule_id ps ≡ [])
Highest-of_rule rule_id [] = inr (no_prices rule_id)
Highest-of_rule rule_id (p ∷ ps) = elim (ℕ_discrete p.rule_id rule_id) [
  | no other ↦ elim (Highest-of_rule rule_id ps) [
    | inl h ↦ inl (record {
      offer = h.offer;
      of_rule = h.of_rule;
      among = Among-later p h.offer ps h.among;
      highest = rw (prices_of_rule-later rule_id p ps other) h.highest;
    })
    | inr e ↦ inr (prices_of_rule-later rule_id p ps other ∙ e)
  ]
  | yes same ↦ elim (Highest-of_rule rule_id ps) [
    | inr e ↦ inl (record {
      offer = p;
      of_rule = same;
      among = Among-first p ps;
      highest = rw (prices_of_rule-first rule_id p ps same, e) (omega arith, tt);
    })
    | inl h ↦ elim (dec_le h.offer.price_cents p.price_cents) [
      | yes higher ↦ inl (record {
        offer = p;
        of_rule = same;
        among = Among-first p ps;
        highest = rw (prices_of_rule-first rule_id p ps same) (
          omega arith,
          All-le h.offer.price_cents p.price_cents (prices_of_rule rule_id ps) higher h.highest,
        );
      })
      | no lower ↦ inl (record {
        offer = h.offer;
        of_rule = h.of_rule;
        among = Among-later p h.offer ps h.among;
        highest = rw (prices_of_rule-first rule_id p ps same) (omega (arith, lower), h.highest);
      })
    ]
  ]
]

any-keep :
    (test : RobustPriceInput → Bool) (ps : List RobustPriceInput)
    → any test ps ≡ true
    → any (λ p. true) (keep test ps) ≡ true
any-keep test [] h = h
any-keep test (p ∷ ps) h = ground (arith, any-keep test ps)

plausible-Highest :
    (rule_id : ℕ) (ps : List RobustPriceInput) (h : Highest rule_id ps)
    → is_plausible ps h.offer ≡ true
unfolding is_plausible
plausible-Highest rule_id ps h =
    let k = twice_median_of-le h.offer.price_cents (prices_of_rule rule_id ps) h.highest in
    rw h.of_rule (ground (arith, k))

-- With at least one offer there is a lowest price: the least of the plausible ones.
pub robust_lowest_price_cents-IsLeast :
    (p : RobustPriceInput) (ps : List RobustPriceInput)
    → (lowest : ℕ) × (robust_lowest_price_cents (p ∷ ps) ≡ some lowest)
      × IsLeast (keep (is_plausible (p ∷ ps)) (p ∷ ps)) lowest
unfolding robust_lowest_price_cents
robust_lowest_price_cents-IsLeast p ps =
    least_price-IsLeast (keep (is_plausible (p ∷ ps)) (p ∷ ps)) (
      any-keep (is_plausible (p ∷ ps)) (p ∷ ps) (elim (Highest-of_rule p.rule_id (p ∷ ps)) [
        | inl h ↦ h.among (is_plausible (p ∷ ps)) (plausible-Highest p.rule_id (p ∷ ps) h)
        | inr e ↦ cc (e, prices_of_rule-first p.rule_id p ps refl)
      ]))

-- ===== src/Offers/Target.antt =====
-- apps/web/src/utils/target.ts: where a price stands against the target of its rule. Prices and targets
-- are numbers of cents.
use native.Mathlib.Omega.{div_any}
use native.Mathlib.Nat.{mod-lt}
use native.Mathlib.Decide.{dec_lt}
use teleyes.Common.{
  ℕ, zero, suc, ◌+◌, ◌-◌, ◌*◌, ◌/◌, ◌≤◌, ◌<◌, ◌≡◌, ◌⊎◌, refl, inl, inr, Bool, false, Option, none,
  some, leb, if◌then◌else◌, max, arith,
}

unfoldable pub target_hit : Option ℕ → Option ℕ → Bool
target_hit (some price) (some target) = leb price target
target_hit _ _ = false

unfoldable pub target_gap_pct : Option ℕ → Option ℕ → Option ℕ
target_gap_pct (some price) (some target) =
    if leb target 0
    then none
    else if leb price target
    then some 0
    else some (((price - target) * 100) / target)
target_gap_pct _ _ = none

pub data RuleTargetState : Type 0 where
  no_target : RuleTargetState
  no_offer : ℕ → RuleTargetState
  hit : ℕ → ℕ → RuleTargetState
  gap : ℕ → ℕ → ℕ → RuleTargetState

pub record RulePrices : Type 0 where
  pub target_price_cents : Option ℕ
  -- `none` for a missing field too.
  pub lowest_price_24h_cents : Option ℕ

abbrev pub or_one : Option ℕ → ℕ
or_one none = 1
or_one (some n) = n

unfoldable pub rule_target_state : RulePrices → RuleTargetState
unfolding target_hit target_gap_pct
rule_target_state rule = elim rule.target_price_cents [
  | none ↦ no_target
  | some target ↦ elim rule.lowest_price_24h_cents [
    | none ↦ no_offer target
    | some price ↦
        if target_hit (some price) (some target)
        then hit target price
        else gap target price (max 1 (or_one (target_gap_pct (some price) (some target))))
  ]
]

-- The whole part of a quotient.
quotient_bounds : (n d : ℕ) → 0 < d → ((n / d) * d ≤ n) × (n < (n / d + 1) * d)
quotient_bounds n d h = (grind (arith, div_any n d), grind (arith, div_any n d, mod-lt n h))

max-suc : (q : ℕ) → max 1 (suc q) ≡ suc q
max-suc q = omega arith

-- A quotient that is shown as at least one.
max_bounds :
    (n d q : ℕ)
    → q * d ≤ n
    → n < (q + 1) * d
    → (1 ≤ max 1 q) × (n < (max 1 q + 1) * d) × ((max 1 q ≡ 1) ⊎ (max 1 q * d ≤ n))
max_bounds n d zero low high = (omega arith, grind (arith, high), inl refl)
max_bounds n d (suc q) low high =
    let shown = max-suc q in (omega arith, rw shown high, rw shown (inr low))

-- Against a positive target, a live offer is a hit where it does not exceed the target. Otherwise
-- it is a gap of at least 1 percent, which is the whole percents that the offer exceeds the target
-- by whenever there are any.
pub rule_target_state_offer :
    (target price : ℕ)
    → 0 < target
    → let state =
        rule_target_state
          (record { target_price_cents = some target; lowest_price_24h_cents = some price }) in
      ((state ≡ hit target price) × (price ≤ target))
      ⊎ ((percent : ℕ) × (state ≡ gap target price percent)
          × (target < price)
          × (1 ≤ percent)
          × ((price - target) * 100 < (percent + 1) * target)
          × ((percent ≡ 1) ⊎ (percent * target ≤ (price - target) * 100)))
unfolding rule_target_state
rule_target_state_offer target price h = elim (dec_lt target price) [
  | yes above ↦
      let n = (price - target) * 100 in
      let (low, high) = quotient_bounds n target h in
      let (least, under, exact) = max_bounds n target (n / target) low high in
      inr (max 1 (n / target), ground (arith, above), above, least, under, exact)
  | no within ↦ inl (ground (arith, within), ground (arith, within))
]

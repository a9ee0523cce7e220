-- ===== src/Demo/Preview.antt =====
-- apps/web/src/demo-static/mockApi.ts: `previewRecipient`, the alerts that a recipient would get in a
-- week, counted from the recorded offers.
use teleyes.Common.{
  ℕ, suc, ◌+◌, ◌≡◌, refl, ap, ◌∙◌, Bool, true, not, ◌&&◌, ◌||◌, List, [], ◌∷◌, ◌==◌, if◌then◌else◌,
  keep, any, length, arith, Bool-cases, inl, inr,
}
use teleyes.Demo.Matches.{Match}

pub record Rule : Type 0 where
  pub id : ℕ
  pub active : Bool

-- The parameters of the request, read; `rule_ids` is the set `chosen`.
pub record PreviewParams : Type 0 where
  pub all_rules : Bool
  pub rule_ids : List ℕ
  pub notify_target : Bool
  pub notify_common : Bool

-- The map `counts`, in the order of its insertions.
abbrev pub has_rule : ℕ → List (ℕ × ℕ) → Bool
has_rule id counts = any (λ entry. entry.0 == id) counts

-- `counts.set(id, 0)`
abbrev pub set_zero : ℕ → List (ℕ × ℕ) → List (ℕ × ℕ)
set_zero id [] = (id, 0) ∷ []
set_zero id ((key, count) ∷ counts) =
    let rest = set_zero id counts in if key == id then (key, 0) ∷ counts else (key, count) ∷ rest

-- `counts.set(id, (counts.get(id) ?? 0) + 1)`, for an id of the map.
abbrev pub bump : ℕ → List (ℕ × ℕ) → List (ℕ × ℕ)
bump id [] = []
bump id ((key, count) ∷ counts) =
    let rest = bump id counts in
    if key == id then (key, suc count) ∷ counts else (key, count) ∷ rest

abbrev pub is_chosen : PreviewParams → Rule → Bool
is_chosen params rule =
    rule.active && (params.all_rules || any (λ id. id == rule.id) params.rule_ids)

-- The first loop.
unfoldable pub start_counts : PreviewParams → List (ℕ × ℕ) → List Rule → List (ℕ × ℕ)
start_counts params counts [] = counts
start_counts params counts (rule ∷ rules) =
    start_counts params (if is_chosen params rule then set_zero rule.id counts else counts) rules

abbrev pub is_notified : PreviewParams → Match → Bool
is_notified params match =
    (match.target_hit && params.notify_target) || (not match.target_hit && params.notify_common)

-- The second loop.
unfoldable pub count_matches : PreviewParams → List (ℕ × ℕ) → List Match → List (ℕ × ℕ)
count_matches params counts [] = counts
count_matches params counts (match ∷ matches) =
    count_matches params
      (if has_rule match.rule_id counts && is_notified params match
        then bump match.rule_id counts
        else counts)
      matches

abbrev pub sum_counts : List (ℕ × ℕ) → ℕ
sum_counts [] = 0
sum_counts ((key, count) ∷ counts) = count + sum_counts counts

-- `alerts_per_week` and `per_rule`.
unfoldable pub preview_recipient : List Rule → List Match → PreviewParams → ℕ × List (ℕ × ℕ)
unfolding start_counts count_matches
preview_recipient rules matches params =
    let counts = count_matches params (start_counts params [] rules) matches in
    (sum_counts counts, counts)

-- Whether a rule of an id is active and chosen.
abbrev pub is_counted : PreviewParams → List Rule → ℕ → Bool
is_counted params rules id = any (λ rule. is_chosen params rule && rule.id == id) rules

has_rule-set_zero :
    (id key : ℕ) (counts : List (ℕ × ℕ))
    → has_rule key (set_zero id counts) ≡ ((id == key) || has_rule key counts)
has_rule-set_zero id key [] = ground arith
has_rule-set_zero id key ((k, c) ∷ counts) = ground (arith, has_rule-set_zero id key counts)

has_rule-bump :
    (id key : ℕ) (counts : List (ℕ × ℕ)) → has_rule key (bump id counts) ≡ has_rule key counts
has_rule-bump id key [] = refl
has_rule-bump id key ((k, c) ∷ counts) = ground (arith, has_rule-bump id key counts)

sum_counts-bump :
    (id : ℕ) (counts : List (ℕ × ℕ))
    → has_rule id counts ≡ true
    → sum_counts (bump id counts) ≡ suc (sum_counts counts)
sum_counts-bump id [] h = ground arith
sum_counts-bump id ((k, c) ∷ counts) h = ground (arith, sum_counts-bump id counts)

sum_counts-set_zero :
    (id : ℕ) (counts : List (ℕ × ℕ)) → sum_counts counts ≡ 0 → sum_counts (set_zero id counts) ≡ 0
sum_counts-set_zero id [] h = refl
sum_counts-set_zero id ((k, c) ∷ counts) h = ground (arith, sum_counts-set_zero id counts)

sum_counts-start :
    (params : PreviewParams) (counts : List (ℕ × ℕ)) (rules : List Rule)
    → sum_counts counts ≡ 0
    → sum_counts (start_counts params counts rules) ≡ 0
unfolding start_counts
sum_counts-start params counts [] h = h
sum_counts-start params counts (rule ∷ rules) h = elim (Bool-cases (is_chosen params rule)) [
  | inl e ↦ rw e (
      sum_counts-start params (set_zero rule.id counts) rules
        (sum_counts-set_zero rule.id counts h))
  | inr e ↦ rw e (sum_counts-start params counts rules h)
]

has_rule-start :
    (params : PreviewParams) (counts : List (ℕ × ℕ)) (rules : List Rule) (key : ℕ)
    → has_rule key (start_counts params counts rules)
      ≡ (has_rule key counts || is_counted params rules key)
unfolding start_counts
has_rule-start params counts [] key = ground arith
has_rule-start params counts (rule ∷ rules) key = elim (Bool-cases (is_chosen params rule)) [
  | inl e ↦ ground (
    arith,
    e,
    has_rule-start params (set_zero rule.id counts) rules key,
    has_rule-set_zero rule.id key counts,
  )
  | inr e ↦ ground (arith, e, has_rule-start params counts rules key)
]

keep-ext :
    (p q : Match → Bool) (matches : List Match)
    → ((m : Match) → p m ≡ q m)
    → keep p matches ≡ keep q matches
keep-ext p q [] e = refl
keep-ext p q (m ∷ matches) e = rw (e m, keep-ext p q matches e) refl

-- The matches that a map of counts takes.
abbrev pub taken : PreviewParams → List (ℕ × ℕ) → Match → Bool
taken params counts match = has_rule match.rule_id counts && is_notified params match

taken-bump :
    (params : PreviewParams) (id : ℕ) (counts : List (ℕ × ℕ)) (m : Match)
    → taken params (bump id counts) m ≡ taken params counts m
taken-bump params id counts m = rw (has_rule-bump id m.rule_id counts) refl

sum_counts-count :
    (params : PreviewParams) (counts : List (ℕ × ℕ)) (matches : List Match)
    → sum_counts (count_matches params counts matches)
      ≡ sum_counts counts + length (keep (taken params counts) matches)
unfolding count_matches
sum_counts-count params counts [] = omega arith
sum_counts-count params counts (m ∷ matches) = elim (Bool-cases (taken params counts m)) [
  | inl e ↦ rw e (
      let after = sum_counts-count params (bump m.rule_id counts) matches in
      let same =
        keep-ext (taken params (bump m.rule_id counts)) (taken params counts) matches
          (taken-bump params m.rule_id counts) in
      let one = sum_counts-bump m.rule_id counts (ground arith) in
      omega (arith, after, ap length same, one))
  | inr e ↦ rw e (sum_counts-count params counts matches)
]

-- The alerts of a week are the recorded matches whose rule is active and chosen and whose kind,
-- target or common, the recipient is notified of: each one once.
pub preview_recipient-alerts :
    (rules : List Rule) (matches : List Match) (params : PreviewParams)
    → (preview_recipient rules matches params).0
      ≡ length (keep (λ m. is_counted params rules m.rule_id && is_notified params m) matches)
unfolding preview_recipient
preview_recipient-alerts rules matches params =
    let counts = start_counts params [] rules in
    sum_counts-count params counts matches
    ∙ total counts (sum_counts-start params [] rules refl)
        (λ m. rw (has_rule-start params [] rules m.rule_id) refl)
  where
    total :
        (counts : List (ℕ × ℕ))
        → sum_counts counts ≡ 0
        → ((m : Match)
            → taken params counts m ≡ (is_counted params rules m.rule_id && is_notified params m))
        → sum_counts counts + length (keep (taken params counts) matches)
          ≡ length (keep (λ m. is_counted params rules m.rule_id && is_notified params m) matches)
    total counts none_yet same = omega (
      arith,
      none_yet,
      ap length (
          keep-ext (taken params counts)
            (λ m. is_counted params rules m.rule_id && is_notified params m) matches same),
    )

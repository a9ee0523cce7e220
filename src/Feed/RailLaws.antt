-- ===== src/Feed/RailLaws.antt =====
-- The rules that the collapsed rail of the feed shows.
use mathlib.Core.List.{append-nil}
use teleyes.Common.{
  ℕ, zero, suc, ◌+◌, ◌≤◌, ◌≡◌, ◌⊎◌, ◌∙◌, refl, sym, subst, inl, inr, Bool, true, false, Option,
  none, some, List, [], ◌∷◌, ◌++◌, ◌==◌, any, All, length, insert, sort, IsOrder, IsSorted,
  sort-IsSorted, arith, Bool-cases,
}
use teleyes.Feed.Board.{
  Match, Rule, Counts, rule_counts, busier, sorted_rules, take, drop, find_rule, visible_rules,
  rail_rules_visible,
}

length-take : {A : Type 0} (n : ℕ) (xs : List A) → length (take n xs) ≤ n
length-take zero xs = omega arith
length-take (suc n) [] = omega arith
length-take (suc n) (x ∷ xs) = omega (arith, length-take n xs)

any-append :
    (p : Rule → Bool) (xs : List Rule) (r : Rule) → p r ≡ true → any p (xs ++ r ∷ []) ≡ true
any-append p [] r h = ground arith
any-append p (x ∷ xs) r h = ground (arith, any-append p xs r)

find_rule-any :
    (id : ℕ) (rules : List Rule)
    → any (λ r. r.id == id) rules ≡ true
    → (rule : Rule) × (find_rule id rules ≡ some rule) × ((rule.id == id) ≡ true)
unfolding find_rule
find_rule-any id [] h = absurd (cc)
find_rule-any id (r ∷ rs) h = elim (Bool-cases (r.id == id)) [
  | inl e ↦ (r, rw e refl, e)
  | inr e ↦ let (rule, found, same) = find_rule-any id rs (ground arith) in (rule, rw e found, same)
]

-- Every rule of a second list comes behind every rule of a first.
abbrev pub AllBefore : Counts → List Rule → List Rule → Type 0
AllBefore counts [] hidden = Unit
AllBefore counts (r ∷ rs) hidden =
    All (λ h. busier counts r h ≡ true) hidden × AllBefore counts rs hidden

busier-IsOrder : (counts : Counts) → IsOrder (busier counts)
busier-IsOrder counts = record {
  total = λ x y h. ground arith;
  transitive = λ x y z h k. ground arith;
}

All-drop : {A : Type 0} (P : A → Type 0) (n : ℕ) (xs : List A) → All P xs → All P (drop n xs)
All-drop P zero xs h = h
All-drop P (suc n) [] h = h
All-drop P (suc n) (x ∷ xs) (p, h) = All-drop P n xs h

take_before_drop :
    (counts : Counts) (n : ℕ) (rules : List Rule)
    → IsSorted (busier counts) rules
    → AllBefore counts (take n rules) (drop n rules)
take_before_drop counts zero rules s = tt
take_before_drop counts (suc n) [] s = tt
take_before_drop counts (suc n) (r ∷ rs) (h, s) =
    (All-drop (λ h. busier counts r h ≡ true) n rs h, take_before_drop counts n rs s)

any-insert :
    (le : Rule → Rule → Bool) (p : Rule → Bool) (x : Rule) (xs : List Rule)
    → any p (insert le x xs) ≡ any p (x ∷ xs)
any-insert le p x [] = refl
any-insert le p x (y ∷ ys) = ground (arith, any-insert le p x ys)

any-sort :
    (le : Rule → Rule → Bool) (p : Rule → Bool) (xs : List Rule) → any p (sort le xs) ≡ any p xs
any-sort le p [] = refl
any-sort le p (x ∷ xs) = ground (arith, any-insert le p x (sort le xs), any-sort le p xs)

-- What the collapsed rail shows of a sorted list.
record IsCollapsed (selected : Option ℕ) (rules shown : List Rule) : Type 0 where
  pub short : length shown ≤ rail_rules_visible + 1
  pub begins : (rest : List Rule) × (shown ≡ take rail_rules_visible rules ++ rest)
  pub keeps :
      (id : ℕ)
      → selected ≡ some id
      → any (λ r. r.id == id) rules ≡ true
      → any (λ r. r.id == id) shown ≡ true

same_id :
    (id other : ℕ) (shown : List Rule)
    → some id ≡ some other
    → any (λ r. r.id == id) shown ≡ true
    → any (λ r. r.id == other) shown ≡ true
same_id id other shown e h =
    let ids : id ≡ other = cc in subst (λ (j : ℕ). any (λ r. r.id == j) shown ≡ true) ids h

in_top :
    (id : ℕ) (rules : List Rule)
    → any (λ r. r.id == id) (take rail_rules_visible rules) ≡ true
    → IsCollapsed (some id) rules (take rail_rules_visible rules)
in_top id rules h =
    let top = take rail_rules_visible rules in
    record {
      short = omega (arith, length-take rail_rules_visible rules);
      begins = ([], sym (append-nil top));
      keeps = λ other e k. same_id id other top e h;
    }

length-snoc : {A : Type 0} (xs : List A) (x : A) → length (xs ++ x ∷ []) ≡ length xs + 1
length-snoc [] x = refl
length-snoc (y ∷ xs) x = omega (arith, length-snoc xs x)

appended :
    (id : ℕ) (rules : List Rule) (rule : Rule)
    → (rule.id == id) ≡ true
    → IsCollapsed (some id) rules (take rail_rules_visible rules ++ rule ∷ [])
appended id rules rule h =
    let top = take rail_rules_visible rules in
    record {
      short = omega (arith, length-take rail_rules_visible rules, length-snoc top rule);
      begins = (rule ∷ [], refl);
      keeps = λ other e k.
          same_id id other (top ++ rule ∷ []) e (any-append (λ r. r.id == id) top rule h);
    }

absent :
    (id : ℕ) (rules : List Rule)
    → any (λ r. r.id == id) rules ≡ false
    → IsCollapsed (some id) rules (take rail_rules_visible rules)
absent id rules h =
    let top = take rail_rules_visible rules in
    record {
      short = omega (arith, length-take rail_rules_visible rules);
      begins = ([], sym (append-nil top));
      keeps = λ other e k. absurd (ground (arith, same_id other id rules (sym e) k, h));
    }

find_rule-none :
    (id : ℕ) (rules : List Rule) → any (λ r. r.id == id) rules ≡ false → find_rule id rules ≡ none
unfolding find_rule
find_rule-none id [] h = refl
find_rule-none id (r ∷ rs) h = ground (arith, find_rule-none id rs)

visible_rules-IsCollapsed :
    (selected : Option ℕ) (rules : List Rule)
    → IsCollapsed selected rules (visible_rules false selected rules)
unfolding visible_rules
visible_rules-IsCollapsed none rules =
    let top = take rail_rules_visible rules in
    record {
      short = omega (arith, length-take rail_rules_visible rules);
      begins = ([], sym (append-nil top));
      keeps = λ id h k. absurd (cc);
    }
visible_rules-IsCollapsed (some id) rules =
    elim (Bool-cases (any (λ r. r.id == id) (take rail_rules_visible rules))) [
      | inl top ↦ rw top (in_top id rules top)
      | inr below ↦ elim (Bool-cases (any (λ r. r.id == id) rules)) [
        | inl there ↦
            let (rule, found, same) = find_rule-any id rules there in
            rw (below, found) (appended id rules rule same)
        | inr gone ↦ rw (below, find_rule-none id rules gone) (absent id rules gone)
      ]
    ]

-- Whether the chosen rule is one of the list.
abbrev pub is_chosen_in : Option ℕ → List Rule → Bool
is_chosen_in none rules = false
is_chosen_in (some id) rules = any (λ r. r.id == id) rules

kept :
    (selected : Option ℕ) (rules sorted shown : List Rule)
    → IsCollapsed selected sorted shown
    → ((id : ℕ) → any (λ r. r.id == id) sorted ≡ any (λ r. r.id == id) rules)
    → (is_chosen_in selected rules ≡ false) ⊎ (is_chosen_in selected shown ≡ true)
kept none rules sorted shown c same = inl refl
kept (some id) rules sorted shown c same = elim (Bool-cases (any (λ r. r.id == id) rules)) [
  | inl there ↦ inr (c.keeps id refl (same id ∙ there))
  | inr gone ↦ inl gone
]

-- The collapsed rail shows at most seven rules: the six busiest, so that no rule behind them has more
-- offers than one of them, and the chosen rule wherever it is one of the rules.
pub visible_rules-sorted_rules :
    (matches : List Match) (selected : Option ℕ) (rules : List Rule)
    → let counts = rule_counts matches in
      let sorted = sorted_rules counts rules in
      let shown = visible_rules false selected sorted in
      (length shown ≤ 7)
      × ((rest : List Rule) × (shown ≡ take 6 sorted ++ rest))
      × AllBefore counts (take 6 sorted) (drop 6 sorted)
      × ((is_chosen_in selected rules ≡ false) ⊎ (is_chosen_in selected shown ≡ true))
unfolding sorted_rules
visible_rules-sorted_rules matches selected rules =
    let counts = rule_counts matches in
    let sorted = sort (busier counts) rules in
    let c = visible_rules-IsCollapsed selected sorted in
    let order = sort-IsSorted (busier counts) (busier-IsOrder counts) rules in
    (
      c.short,
      c.begins,
      take_before_drop counts 6 sorted order,
      kept selected rules sorted (visible_rules false selected sorted) c
          (λ id. any-sort (busier counts) (λ r. r.id == id) rules),
    )

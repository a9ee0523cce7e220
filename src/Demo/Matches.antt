-- ===== src/Demo/Matches.antt =====
-- apps/web/src/demo-static/mockApi.ts: `filterMatches`, the list of recorded offers as the filters and the
-- sort of a request choose it. The parameters of the request are the numbers already read from it, and
-- `normalize` is the folding of accents and case.
use teleyes.Common.{
  ℕ, ◌≡◌, Bool, true, false, ◌&&◌, Option, none, some, List, [], ◌∷◌, leb, ◌==◌, keep, any, sort,
  IsSorted, IsOrder, sort-IsSorted, keep-sort, arith,
}
use teleyes.Text.{Text, includes, trim, text_eq}

pub record Delivery : Type 0 where
  pub id : ℕ
  pub recipient_id : ℕ
  pub status : Text
  pub created_at : ℕ
  pub delivered_at : ℕ

-- The fields of a row that the API of the demo reads. `searched` is the text that a search looks in: the
-- name, the product's key and the message, those that are texts, joined by blanks.
pub record Match : Type 0 where
  pub id : ℕ
  pub rule_id : ℕ
  pub source_id : ℕ
  pub price_cents : Option ℕ
  pub product_key : Option Text
  pub target_hit : Bool
  pub searched : Text
  pub matched_at : ℕ
  pub deliveries : List Delivery

pub data Sort : Type 0 where
  price_asc price_desc : Sort

pub record MatchParams : Type 0 where
  pub rule_id : Option ℕ
  pub source_id : Option ℕ
  pub recipient_id : Option ℕ
  pub min_price_cents : Option ℕ
  pub max_price_cents : Option ℕ
  pub delivery_status : Option Text
  pub q : Option Text
  pub sort : Option Sort

-- A filter that is not set lets every row pass.
abbrev pub passes {ℓ} : {A : Type ℓ} → Option A → (A → Bool) → Bool
passes none test = true
passes (some a) test = test a

abbrev pub has_price : (ℕ → Bool) → Option ℕ → Bool
has_price test none = false
has_price test (some price) = test price

abbrev pub or_empty : Option Text → Text
or_empty none = []
or_empty (some text) = text

abbrev pub found_in : Text → Text → Bool
found_in [] haystack = true
found_in (c ∷ query) haystack = includes (c ∷ query) haystack

-- The sign of the comparison is not positive.
abbrev pub not_after : Sort → Option ℕ → Option ℕ → Bool
not_after direction none none = true
not_after direction none (some right) = false
not_after direction (some left) none = true
not_after price_asc (some left) (some right) = leb left right
not_after price_desc (some left) (some right) = leb right left

abbrev pub row_not_after : Sort → Match → Match → Bool
row_not_after direction a b = not_after direction a.price_cents b.price_cents

module _ (normalize : Text → Text) where
  unfoldable pub is_kept : MatchParams → Match → Bool
  is_kept params match =
      passes params.rule_id (λ id. match.rule_id == id)
      && (passes params.source_id (λ id. match.source_id == id)
          && (passes params.recipient_id (λ id. any (λ d. d.recipient_id == id) match.deliveries)
              && (passes params.min_price_cents
                    (λ least. has_price (λ price. leb least price) match.price_cents)
                  && (passes params.max_price_cents
                        (λ most. has_price (λ price. leb price most) match.price_cents)
                      && (passes params.delivery_status
                            (λ status. any (λ d. text_eq d.status status) match.deliveries)
                          && found_in (trim (normalize (or_empty params.q)))
                              (normalize match.searched))))))

  unfoldable pub filter_matches : List Match → MatchParams → List Match
  filter_matches matches params =
      let kept = keep (is_kept params) matches in
      elim params.sort [ none ↦ kept | some direction ↦ sort (row_not_after direction) kept ]

  row_not_after-IsOrder : (direction : Sort) → IsOrder (row_not_after direction)
  row_not_after-IsOrder price_asc = record {
    total = λ x y h. ground arith;
    transitive = λ x y z h k. ground arith;
  }
  row_not_after-IsOrder price_desc = record {
    total = λ x y h. ground arith;
    transitive = λ x y z h k. ground arith;
  }

  abbrev pub priced_at : Option ℕ → Match → Bool
  priced_at none match = elim match.price_cents [ none ↦ true | some price ↦ false ]
  priced_at (some cents) match = has_price (λ price. price == cents) match.price_cents

  equal_prices :
      (direction : Sort) (cents : Option ℕ) (x y : Match)
      → priced_at cents x ≡ true
      → priced_at cents y ≡ true
      → row_not_after direction x y ≡ true
  equal_prices price_asc none x y h k = ground arith
  equal_prices price_asc (some c) x y h k = ground arith
  equal_prices price_desc none x y h k = ground arith
  equal_prices price_desc (some c) x y h k = ground arith

  -- A sorted request answers with the rows that pass the filters: by their price, those without one
  -- last, and those of one price in their recorded order.
  pub filter_matches-IsSorted :
      (matches : List Match) (params : MatchParams) (direction : Sort) (cents : Option ℕ)
      → params.sort ≡ some direction
      → IsSorted (row_not_after direction) (filter_matches matches params)
        × (keep (priced_at cents) (filter_matches matches params)
            ≡ keep (priced_at cents) (keep (is_kept params) matches))
  unfolding filter_matches is_kept
  filter_matches-IsSorted matches params direction cents h = rw h (
    sort-IsSorted (row_not_after direction) (row_not_after-IsOrder direction)
        (keep (is_kept params) matches),
    keep-sort (row_not_after direction) (priced_at cents) (equal_prices direction cents)
        (keep (is_kept params) matches),
  )

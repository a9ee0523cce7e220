-- ===== src/Terms/Edits.antt =====
-- Adding and removing chips.
use teleyes.Common.{
  ◌≡◌, refl, ap, ◌∙◌, Bool, false, not, ◌||◌, List, [], ◌∷◌, ◌++◌, ◌==◌, keep, arith, Bool-cases,
  inl, inr, ℕ,
}
use teleyes.Text.{Text, trim, split, grow, text_eq}
use teleyes.Terms.TermList.{is_empty, has, terms_from, parse_term_list, add_terms, remove_term}
use teleyes.Terms.RoundTrip.{IsTermList, parse-serialize, parse-IsTermList}

-- `split` returns at least one part.
record IsSplit (parts : List Text) : Type 0 where
  first : Text
  others : List Text
  shape : parts ≡ first ∷ others

grow-IsSplit : (c : ℕ) (parts : List Text) → IsSplit (grow c parts)
grow-IsSplit c [] = record { first = c ∷ []; others = []; shape = refl }
grow-IsSplit c (p ∷ ps) = record { first = c ∷ p; others = ps; shape = refl }

split-IsSplit : (t : Text) → IsSplit (split b',' t)
unfolding split
split-IsSplit [] = record { first = []; others = []; shape = refl }
split-IsSplit (c ∷ cs) = elim (Bool-cases (c == b',')) [
  | inl comma ↦ rw comma (record { first = []; others = split b',' cs; shape = refl })
  | inr other ↦ rw other (grow-IsSplit c (split b',' cs))
]

grow-append :
    (c : ℕ) (parts more : List Text) → IsSplit parts → grow c (parts ++ more) ≡ grow c parts ++ more
grow-append c parts more s = rw s.shape

split-append_comma : (x y : Text) → split b',' (x ++ b',' ∷ y) ≡ split b',' x ++ split b',' y
unfolding split
split-append_comma [] y = refl
split-append_comma (c ∷ x) y = elim (Bool-cases (c == b',')) [
  | inl comma ↦ rw comma (ap (λ r. [] ∷ r) (split-append_comma x y))
  | inr other ↦
      rw other (ap (grow c) (split-append_comma x y) ∙ grow-append c _ _ (split-IsSplit x))
]

module _ (lower : Text → Text) where
  terms_from-append :
      (seen xs ys : List Text)
      → (more : List Text) × (terms_from lower seen (xs ++ ys) ≡ terms_from lower seen xs ++ more)
  unfolding terms_from
  terms_from-append seen [] ys = (terms_from lower seen ys, refl)
  terms_from-append seen (x ∷ xs) ys =
      elim (Bool-cases (is_empty (trim x) || has (lower (trim x)) seen)) [
        | inl skipped ↦ rw skipped (terms_from-append seen xs ys)
        | inr new ↦
            let (more, e) = terms_from-append (lower (trim x) ∷ seen) xs ys in
            (more, rw new (ap (λ r. trim x ∷ r) e))
      ]

  parse-append_comma :
      (current additions : Text)
      → (more : List Text) × (parse_term_list lower (current ++ b',' ∷ additions)
          ≡ parse_term_list lower current ++ more)
  unfolding parse_term_list
  parse-append_comma current additions =
      rw (split-append_comma current additions)
        (terms_from-append [] (split b',' current) (split b',' additions))

  -- The terms of `additions` are put behind those of `current`, which stay as they are, and the
  -- stored text lists terms of different keys.
  pub parse-add_terms :
      (current additions : Text)
      → (more : List Text) × (parse_term_list lower (add_terms lower current additions)
          ≡ parse_term_list lower current ++ more)
        × IsTermList lower [] (parse_term_list lower current ++ more)
  unfolding add_terms
  parse-add_terms current additions =
      let (more, e) = parse-append_comma current additions in
      let valid = parse-IsTermList lower (current ++ b',' ∷ additions) in
      (more, parse-serialize lower _ valid ∙ e, rw e at valid)

  -- A longer set of keys refuses more terms.
  abbrev IsWithin : List Text → List Text → Type 0
  IsWithin seen larger = (key : Text) → has key larger ≡ false → has key seen ≡ false

  IsWithin-cons :
      (k : Text) (seen larger : List Text) → IsWithin seen larger → IsWithin (k ∷ seen) (k ∷ larger)
  unfolding has
  IsWithin-cons k seen larger w key h = ground (arith, w key)

  IsWithin-skip : (k : Text) (seen : List Text) → IsWithin seen (k ∷ seen)
  unfolding has
  IsWithin-skip k seen key h = ground arith

  IsTermList-weaken :
      (seen larger ts : List Text)
      → IsWithin seen larger
      → IsTermList lower larger ts
      → IsTermList lower seen ts
  IsTermList-weaken seen larger [] w h = tt
  IsTermList-weaken seen larger (t ∷ ts) w (h, new, k) = (
    h,
    w (lower t) new,
    IsTermList-weaken (lower t ∷ seen) (lower t ∷ larger) ts (IsWithin-cons (lower t) seen larger w)
        k,
  )

  keep-IsTermList :
      (p : Text → Bool) (seen ts : List Text)
      → IsTermList lower seen ts
      → IsTermList lower seen (keep p ts)
  keep-IsTermList p seen [] h = tt
  keep-IsTermList p seen (t ∷ ts) (h, new, k) = elim (Bool-cases (p t)) [
    | inl kept ↦ rw kept (h, new, keep-IsTermList p (lower t ∷ seen) ts k)
    | inr dropped ↦ rw dropped (
        keep-IsTermList p seen ts
          (IsTermList-weaken seen (lower t ∷ seen) ts (IsWithin-skip (lower t) seen) k))
  ]

  -- After a removal the stored text holds the former terms, in order, but those with the key.
  pub parse-remove_term :
      (current term : Text)
      → parse_term_list lower (remove_term lower current term)
        ≡ keep (λ t. not (text_eq (lower t) (lower term))) (parse_term_list lower current)
  unfolding remove_term
  parse-remove_term current term =
      parse-serialize lower _ (keep-IsTermList _ [] _ (parse-IsTermList lower current))

-- ===== src/Terms/RoundTrip.antt =====
-- The chip list and the stored text determine each other.
use teleyes.Common.{
  ℕ, ◌≡◌, refl, ap, ◌∙◌, Bool, true, false, not, ◌||◌, List, [], ◌∷◌, ◌++◌, ◌==◌, all, All, arith,
  Bool-cases, inl, inr,
}
use teleyes.Text.{Text, trim, trim_start, trim_end, split, grow, join_comma}
use teleyes.Text.Trim.{all-trim, trim-trim, trim-blank}
use teleyes.Terms.TermList.{is_empty, has, terms_from, parse_term_list, serialize_term_list}

abbrev no_comma : ℕ → Bool
no_comma c = not (c == b',')

-- A term that a chip shows: not blank, without white space at its ends, without a comma.
pub record IsTerm (term : Text) : Type 0 where
  pub trimmed : trim term ≡ term
  pub filled : is_empty term ≡ false
  pub free : all no_comma term ≡ true

grow-free :
    (c : ℕ) (parts : List Text)
    → no_comma c ≡ true
    → All (λ t. all no_comma t ≡ true) parts
    → All (λ t. all no_comma t ≡ true) (grow c parts)
grow-free c [] h k = (rw h, tt)
grow-free c (part ∷ parts) h (p, k) = (rw (h, p), k)

split-free : (raw : Text) → All (λ t. all no_comma t ≡ true) (split b',' raw)
unfolding split
split-free [] = (refl, tt)
split-free (c ∷ cs) = elim (Bool-cases (c == b',')) [
  | inl comma ↦ rw comma (refl, split-free cs)
  | inr other ↦ rw other (grow-free c (split b',' cs) (rw other) (split-free cs))
]

split-append :
    (t rest : Text) → all no_comma t ≡ true → split b',' (t ++ b',' ∷ rest) ≡ t ∷ split b',' rest
unfolding split
split-append [] rest h = refl
split-append (c ∷ t) rest h = ground (arith, split-append t rest)

split-one : (t : Text) → all no_comma t ≡ true → split b',' t ≡ t ∷ []
unfolding split
split-one [] h = refl
split-one (c ∷ t) h = ground (arith, split-one t)

split-blank : (t : Text) → split b',' (b' ' ∷ t) ≡ grow b' ' (split b',' t)
unfolding split
split-blank t = refl

-- Behind the first term, a part of the joined text has a blank in front.
abbrev behind : List Text → List Text
behind [] = []
behind (t ∷ ts) = (b' ' ∷ t) ∷ behind ts

split-join :
    (t : Text) (ts : List Text)
    → All IsTerm (t ∷ ts)
    → split b',' (join_comma (t ∷ ts)) ≡ t ∷ behind ts
unfolding join_comma
split-join t [] (h, _) = split-one t h.free
split-join t (u ∷ ts) (h, k) =
    split-append t _ h.free
    ∙ ap (λ parts. t ∷ parts)
        (split-blank (join_comma (u ∷ ts)) ∙ ap (grow b' ') (split-join u ts k))

module _ (lower : Text → Text) where
  -- Terms of which no two have one key, nor one of the keys seen before.
  abbrev pub IsTermList : List Text → List Text → Type 0
  IsTermList seen [] = Unit
  IsTermList seen (t ∷ ts) =
      IsTerm t × (has (lower t) seen ≡ false) × IsTermList (lower t ∷ seen) ts

  terms_from-IsTermList :
      (seen parts : List Text)
      → All (λ t. all no_comma t ≡ true) parts
      → IsTermList seen (terms_from lower seen parts)
  unfolding terms_from
  terms_from-IsTermList seen [] h = tt
  terms_from-IsTermList seen (part ∷ parts) (free, h) =
      elim (Bool-cases (is_empty (trim part) || has (lower (trim part)) seen)) [
        | inl skipped ↦ rw skipped (terms_from-IsTermList seen parts h)
        | inr new ↦ rw new (
          record {
            trimmed = trim-trim part;
            filled = ground arith;
            free = all-trim no_comma part free;
          },
          ground arith,
          terms_from-IsTermList (lower (trim part) ∷ seen) parts h,
        )
      ]

  IsTermList-All : (seen ts : List Text) → IsTermList seen ts → All IsTerm ts
  IsTermList-All seen [] h = tt
  IsTermList-All seen (t ∷ ts) (h, _, k) = (h, IsTermList-All (lower t ∷ seen) ts k)

  terms_from-behind :
      (seen ts : List Text) → IsTermList seen ts → terms_from lower seen (behind ts) ≡ ts
  unfolding terms_from
  terms_from-behind seen [] h = refl
  terms_from-behind seen (t ∷ ts) (h, new, k) =
      rw (trim-blank, h.trimmed, h.filled, new)
        (ap (λ r. t ∷ r) (terms_from-behind (lower t ∷ seen) ts k))

  terms_from-first :
      (t : Text) (ts : List Text)
      → IsTerm t
      → IsTermList (lower t ∷ []) ts
      → terms_from lower [] (t ∷ behind ts) ≡ t ∷ ts
  unfolding terms_from has
  terms_from-first t ts h k =
      rw (h.trimmed, h.filled) (ap (λ r. t ∷ r) (terms_from-behind (lower t ∷ []) ts k))

  no_terms : terms_from lower [] (split b',' (join_comma [])) ≡ []
  unfolding terms_from split join_comma trim trim_start trim_end
  no_terms = refl

  -- Reading the text that is stored for a list of filled, trimmed and comma-free terms of
  -- different keys gives the list back.
  pub parse-serialize :
      (ts : List Text)
      → IsTermList [] ts
      → parse_term_list lower (serialize_term_list lower ts) ≡ ts
  unfolding parse_term_list serialize_term_list
  parse-serialize [] h = no_terms
  parse-serialize (t ∷ ts) (h, new, k) =
      rw (split-join t ts (h, IsTermList-All (lower t ∷ []) ts k)) (terms_from-first t ts h k)

  -- Whatever text is stored, its terms are filled, trimmed, without commas and of different keys.
  pub parse-IsTermList : (raw : Text) → IsTermList [] (parse_term_list lower raw)
  unfolding parse_term_list
  parse-IsTermList raw = terms_from-IsTermList [] (split b',' raw) (split-free raw)

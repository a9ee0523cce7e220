-- ===== src/Terms/Meaning.antt =====
-- What the preview of the matching means.
use teleyes.Common.{
  ℕ, ◌≡◌, ◌↔◌, ◌⊎◌, refl, ap, inl, inr, Bool, true, not, Option, some, List, [], ◌∷◌, ◌++◌, map,
  any, all, keep, All, arith, Bool-cases,
}
use teleyes.Text.{Text, starts_with, includes}
use teleyes.Terms.TermList.{is_empty}
use teleyes.Terms.Preview.{
  split_term_parts, parse_terms, normalize_text, all_parts, term_matches, preview_rule_match,
}

-- Some member of a list has a property.
abbrev pub Some : {A : Type 0} → (A → Type 0) → List A → Type 0
Some P [] = ⊥
Some P (x ∷ xs) = P x ⊎ Some P xs

any_iff :
    {A : Type 0} (f : A → Bool) (P : A → Type 0)
    → ((x : A) → (f x ≡ true) ↔ P x)
    → (xs : List A) → (any f xs ≡ true) ↔ Some P xs
any_iff f P h [] = (λ e. cc, λ e. absurd e)
any_iff f P h (x ∷ xs) = ground (arith, h x, any_iff f P h xs)

-- One text stands within another.
pub record Occurs (part text : Text) : Type 0 where
  pub before : Text
  pub after : Text
  pub joined : text ≡ before ++ (part ++ after)

starts_with_sound :
    (part text : Text) → starts_with part text ≡ true → (after : Text) × (text ≡ part ++ after)
unfolding starts_with
starts_with_sound [] text h = (text, refl)
starts_with_sound (p ∷ part) [] h = cc
starts_with_sound (p ∷ part) (c ∷ text) h =
    let (after, e) = starts_with_sound part text (ground arith) in (after, ground arith)

starts_with-append : (part after : Text) → starts_with part (part ++ after) ≡ true
unfolding starts_with
starts_with-append [] after = refl
starts_with-append (p ∷ part) after = ground (arith, starts_with-append part after)

includes_sound : (part text : Text) → includes part text ≡ true → Occurs part text
unfolding includes
includes_sound part [] h =
    let (after, e) = starts_with_sound part [] h in
    record { before = []; after = after; joined = e }
includes_sound part (c ∷ text) h = elim (Bool-cases (starts_with part (c ∷ text))) [
  | inl here ↦
      let (after, e) = starts_with_sound part (c ∷ text) here in
      record { before = []; after = after; joined = e }
  | inr later ↦
      let o = includes_sound part text (rw later at h) in
      record { before = c ∷ o.before; after = o.after; joined = ap (λ t. c ∷ t) o.joined }
]

includes-here : (part text : Text) → starts_with part text ≡ true → includes part text ≡ true
unfolding includes
includes-here part [] h = h
includes-here part (c ∷ text) h = rw h

includes-later :
    (part : Text) (c : ℕ) (text : Text)
    → includes part text ≡ true
    → includes part (c ∷ text) ≡ true
unfolding includes
includes-later part c text h = ground arith

includes-append : (part before after : Text) → includes part (before ++ (part ++ after)) ≡ true
includes-append part [] after = includes-here part _ (starts_with-append part after)
includes-append part (c ∷ before) after =
    includes-later part c _ (includes-append part before after)

includes_iff : (part text : Text) → (includes part text ≡ true) ↔ Occurs part text
includes_iff part text =
    (includes_sound part text, λ o. rw o.joined (includes-append part o.before o.after))

module _ (nfkd lower : Text → Text) (is_word : ℕ → Bool) where
  -- Every part that normalization leaves stands in the message, in any order; a term of which
  -- nothing is left by parts stands there as a whole.
  abbrev pub Holds : Text → Text → Type 0
  Holds message term =
      All
        (λ part.
          (is_empty (normalize_text nfkd lower is_word part) ≡ true)
          ⊎ Occurs (normalize_text nfkd lower is_word part) message)
        (split_term_parts term)
      × (All (λ part. is_empty (normalize_text nfkd lower is_word part) ≡ true)
            (split_term_parts term)
          → Occurs (normalize_text nfkd lower is_word term) message)

  abbrev kept : List Text → List Text
  kept parts = keep (λ part. not (is_empty part)) (map (normalize_text nfkd lower is_word) parts)

  all-kept_iff :
      (message : Text) (parts : List Text)
      → (all (λ p. includes p message) (kept parts) ≡ true)
        ↔ All
            (λ part.
              (is_empty (normalize_text nfkd lower is_word part) ≡ true)
              ⊎ Occurs (normalize_text nfkd lower is_word part) message)
            parts
  all-kept_iff message [] = (λ _. tt, λ _. refl)
  all-kept_iff message (part ∷ parts) = ground (
    arith,
    all-kept_iff message parts,
    includes_iff (normalize_text nfkd lower is_word part) message,
  )

  kept-nil_iff :
      (parts : List Text)
      → (kept parts ≡ [])
        ↔ All (λ part. is_empty (normalize_text nfkd lower is_word part) ≡ true) parts
  kept-nil_iff [] = (λ _. tt, λ _. refl)
  kept-nil_iff (part ∷ parts) = ground (arith, kept-nil_iff parts)

  all_parts_iff :
      (parts : List Text) (term message : Text)
      → (all_parts nfkd lower is_word parts term message ≡ true) ↔ (
          (all (λ p. includes p message) parts ≡ true)
          × (parts ≡ [] → includes (normalize_text nfkd lower is_word term) message ≡ true))
  unfolding all_parts
  all_parts_iff [] term message = (λ h. (refl, λ _. h), λ h. h.1 refl)
  all_parts_iff (part ∷ parts) term message = (λ h. (h, λ e. cc), λ h. h.0)

  term_matches_iff :
      (message term : Text)
      → (term_matches nfkd lower is_word term message ≡ true) ↔ Holds message term
  unfolding term_matches
  term_matches_iff message term =
      let parts = split_term_parts term in
      let whole = all_parts_iff (kept parts) term message in
      let each = all-kept_iff message parts in
      let none_left = kept-nil_iff parts in
      let found = includes_iff (normalize_text nfkd lower is_word term) message in
      (
        λ h. (each.0 (whole.0 h).0, λ e. found.0 ((whole.0 h).1 (none_left.1 e))),
        λ h. whole.1 (each.1 h.0, λ e. found.1 (h.1 (none_left.0 e))),
      )

  -- The preview says yes exactly when some include term holds of the normalized message and no
  -- exclude term does.
  pub preview_rule_match_iff :
      (message_text include_terms : Text) (exclude_terms : Option Text)
      → (preview_rule_match nfkd lower is_word message_text include_terms exclude_terms ≡ true) ↔ (
          Some
            (Holds (normalize_text nfkd lower is_word message_text))
            (parse_terms (some include_terms))
          × (¬ Some
              (Holds (normalize_text nfkd lower is_word message_text))
              (parse_terms exclude_terms)))
  unfolding preview_rule_match
  preview_rule_match_iff message_text include_terms exclude_terms =
      let message = normalize_text nfkd lower is_word message_text in
      ground (
        arith,
        any_iff _ _ (term_matches_iff message) (parse_terms (some include_terms)),
        any_iff _ _ (term_matches_iff message) (parse_terms exclude_terms),
      )

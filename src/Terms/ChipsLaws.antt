-- ===== src/Terms/ChipsLaws.antt =====
-- What is typed into the chips is neither lost nor mixed up.
use teleyes.Common.{
  ℕ, ◌≡◌, ◌∙◌, refl, ap, sym, subst, inl, inr, true, false, not, Option, none, some, List, [], ◌∷◌,
  ◌++◌, ◌==◌, ==_iff, if◌then◌else◌, all, keep, arith, Bool-cases,
}
use mathlib.Core.List.{append-nil}
use teleyes.Text.{Text, trim, text_eq}
use teleyes.Text.Laws.{text_eq_iff}
use teleyes.Terms.TermList.{is_empty, has, parse_term_list, add_terms}
use teleyes.Terms.RoundTrip.{IsTermList, parse-IsTermList}
use teleyes.Terms.Edits.{parse-add_terms, parse-remove_term}
use teleyes.Terms.Chips.{
  Chips, split_last, last_of, no_comma, commit_draft, change_to, drop_chip, press_enter, Event,
  changed, entered, backspaced, blurred, step, run,
}

-- The parts around the last comma are the text, and no comma stands behind it.
abbrev IsSplit : Text → Option (Text × Text) → Type 0
IsSplit text none = all no_comma text ≡ true
IsSplit text (some (before, after)) = (text ≡ before ++ b',' ∷ after) × (all no_comma after ≡ true)

IsSplit-cons :
    (c : ℕ) (cs : Text) (parts : Option (Text × Text))
    → IsSplit cs parts
    → IsSplit (c ∷ cs) (elim parts [
      | some (before, after) ↦ some (c ∷ before, after)
      | none ↦ if c == b',' then some ([], cs) else none
    ])
IsSplit-cons c cs (some (before, after)) (e, h) = (ap (λ (r : Text). c ∷ r) e, h)
IsSplit-cons c cs none h = elim (Bool-cases (c == b',')) [
  | inl comma ↦ rw comma (ap (λ (n : ℕ). n ∷ cs) ((==_iff c b',').0 comma), h)
  | inr other ↦ rw other (ground (arith, other, h))
]

split_last-IsSplit : (text : Text) → IsSplit text (split_last text)
unfolding split_last
split_last-IsSplit [] = refl
split_last-IsSplit (c ∷ cs) = IsSplit-cons c cs (split_last cs) (split_last-IsSplit cs)

module _ (lower : Text → Text) where
  abbrev IsDraft : Chips → Type 0
  IsDraft s = all no_comma s.draft ≡ true

  change_to-IsDraft :
      (typed : Text) (parts : Option (Text × Text)) (s : Chips)
      → IsSplit typed parts
      → IsDraft (change_to lower typed parts s)
  change_to-IsDraft typed none s h = h
  change_to-IsDraft typed (some (before, after)) s (e, h) = h

  drop_chip-draft : (term : Option Text) (s : Chips) → (drop_chip lower term s).draft ≡ s.draft
  drop_chip-draft none s = refl
  drop_chip-draft (some term) s = refl

  step-IsDraft : (e : Event) (s : Chips) → IsDraft s → IsDraft (step lower e s)
  unfolding step
  step-IsDraft (changed typed) s v =
      change_to-IsDraft typed (split_last typed) s (split_last-IsSplit typed)
  step-IsDraft backspaced s v =
      ground (arith, drop_chip-draft (last_of (parse_term_list lower s.value)) s)
  step-IsDraft e s v = ground arith

  run-IsDraft : (es : List Event) (s : Chips) → IsDraft s → IsDraft (run lower es s)
  unfolding run
  run-IsDraft [] s v = v
  run-IsDraft (e ∷ es) s v = run-IsDraft es (step lower e s) (step-IsDraft e s v)

  -- The key of the last of different terms is that of no other.
  last-new :
      (seen ts : List Text) (t : Text)
      → IsTermList lower seen (ts ++ t ∷ [])
      → has (lower t) seen ≡ false
  unfolding has
  last-new seen [] t h = h.1
  last-new seen (x ∷ xs) t (_, _, k) = ground (arith, last-new (lower x ∷ seen) xs t k)

  first_differs :
      (seen ts : List Text) (x t : Text)
      → IsTermList lower (lower x ∷ seen) (ts ++ t ∷ [])
      → text_eq (lower x) (lower t) ≡ false
  unfolding has
  first_differs seen ts x t h = ground (
    arith,
    last-new (lower x ∷ seen) ts t h,
    text_eq_iff (lower x) (lower t),
    text_eq_iff (lower t) (lower x),
  )

  keep-last :
      (seen ts : List Text) (t : Text)
      → IsTermList lower seen (ts ++ t ∷ [])
      → keep (λ c. not (text_eq (lower c) (lower t))) (ts ++ t ∷ []) ≡ ts
  keep-last seen [] t h = ground (arith, text_eq_iff (lower t) (lower t))
  keep-last seen (x ∷ xs) t (_, _, k) =
      rw (first_differs seen xs x t k)
        (ap (λ (r : List Text). x ∷ r) (keep-last (lower x ∷ seen) xs t k))

  last_of-snoc : (ts : List Text) (t : Text) → last_of (ts ++ t ∷ []) ≡ some t
  last_of-snoc [] t = refl
  last_of-snoc (x ∷ []) t = refl
  last_of-snoc (x ∷ y ∷ ts) t = last_of-snoc (y ∷ ts) t

  -- The chips of one value go on with those of another.
  abbrev Extends : Text → Text → Type 0
  Extends later value =
      (more : List Text) × (parse_term_list lower later ≡ parse_term_list lower value ++ more)

  Extends-refl : (value : Text) → Extends value value
  Extends-refl value = ([], sym (append-nil (parse_term_list lower value)))

  Extends-add : (value additions : Text) → Extends (add_terms lower value additions) value
  Extends-add value additions =
      let (more, e, _) = parse-add_terms lower value additions in (more, e)

  change_to-Extends :
      (typed : Text) (parts : Option (Text × Text)) (s : Chips)
      → Extends (change_to lower typed parts s).value s.value
  change_to-Extends typed none s = Extends-refl s.value
  change_to-Extends typed (some (before, after)) s = Extends-add s.value before

  commit_draft-Extends : (s : Chips) → Extends (commit_draft lower s).value s.value
  unfolding commit_draft
  commit_draft-Extends s = elim (Bool-cases (is_empty (trim s.draft))) [
    | inl e ↦ rw e (Extends-refl s.value)
    | inr e ↦ rw e (Extends-add s.value s.draft)
  ]

  press_enter-Extends : (s : Chips) → Extends (press_enter lower s).value s.value
  unfolding press_enter
  press_enter-Extends s = elim (Bool-cases (is_empty (trim s.draft))) [
    | inl e ↦ rw e (Extends-refl s.value)
    | inr e ↦ rw e (Extends-add s.value s.draft)
  ]

  -- Typing, Enter and leaving the field put chips behind those that are there and change none of
  -- them, and whatever happens a draft without a comma stays one, so that no chip stays half typed.
  pub step_chips :
      (s : Chips) (typed : Text) (e : Event)
      → all no_comma s.draft ≡ true
      → Extends (step lower (changed typed) s).value s.value
        × Extends (step lower entered s).value s.value
        × Extends (step lower blurred s).value s.value
        × (all no_comma (step lower e s).draft ≡ true)
  unfolding step
  step_chips s typed e v = (
    change_to-Extends typed (split_last typed) s,
    press_enter-Extends s,
    commit_draft-Extends s,
    step-IsDraft e s v,
  )

  -- Backspace on an empty field takes away the last chip and no other.
  pub backspaced_last :
      (value : Text) (ts : List Text) (t : Text)
      → parse_term_list lower value ≡ ts ++ t ∷ []
      → parse_term_list lower (step lower backspaced (record { value = value; draft = [] })).value
        ≡ ts
  unfolding step
  backspaced_last value ts t k =
      let valid = subst (IsTermList lower []) k (parse-IsTermList lower value) in
      let dropped = parse-remove_term lower value t in
      rw (k, last_of-snoc ts t) (dropped ∙ rw k (keep-last [] ts t valid))

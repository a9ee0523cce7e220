-- ===== src/Purchases/FormLaws.antt =====
-- What the form of a purchase hands over, and what it searches for.
use teleyes.Common.{
  ◌<◌, ◌≤◌, ◌≡◌, ◌≢◌, refl, inl, inr, true, false, Option, none, some, List, [], ◌∷◌, length, All,
  arith, Bool-cases, ltb, ◌==◌, subst, ℕ, ap, ◌∙◌,
}
use teleyes.Text.{Text, trim, text_eq}
use teleyes.Text.Trim.{trim-trim}
use teleyes.Price.Input.{PriceInputResult, success, failure, max_safe, parse_price_input}
use teleyes.Price.Bounds.{parse_price_input-bounds}
use teleyes.Terms.TermList.{is_empty}
use teleyes.Dates.Stamp.{text_ge}
use teleyes.Purchases.Form.{
  LinkOption, FormValues, PurchaseInput, Search, idle, debouncing, looking, Form, opened, set_query,
  non_empty, submit_cents, submit, rerun, picked_values, pick_at, fire, take_found, asked_by, Event,
  query_typed, timer_fired, searcher_changed, picked, found, submitted, step, run, option_at, pick,
  is_linked,
}

-- A run of the effect is about what the field of the query holds now, without the white space around
-- it, and that has two units at least.
abbrev pub IsAbout : Text → Search → Type 0
IsAbout query idle = Unit
IsAbout query (debouncing asked) = (asked ≡ trim query) × (2 ≤ length asked)
IsAbout query (looking asked) = (asked ≡ trim query) × (2 ≤ length asked)

-- The run that waits for an answer has asked for it.
abbrev pub IsAsked : ℕ → List (ℕ × Text) → Search → Type 0
IsAsked effect asked (looking query) = asked_by effect asked ≡ some query
IsAsked effect asked _ = Unit

-- Each answer that was taken was one to the text that the field held then.
abbrev pub IsFresh : List (Option Text × Text) → Type 0
IsFresh shown = All (λ p. p.0 ≡ some p.1) shown

non_empty-filled : (text : Text) → non_empty text ≢ some []
non_empty-filled [] = ground arith
non_empty-filled (c ∷ text) = ground arith

asked_by-first :
    (effect : ℕ) (query : Text) (asked : List (ℕ × Text))
    → asked_by effect ((effect, query) ∷ asked) ≡ some query
asked_by-first effect query asked = ground arith

module _ (input_date_to_api : Text → Text) where
  -- A purchase that is handed over on the day `today`.
  pub record IsComplete (today : Text) (input : PurchaseInput) : Type 0 where
    pub named : (trim input.name ≡ input.name) × (is_empty input.name ≡ false)
    pub priced : (0 < input.price_cents) × (input.price_cents ≤ max_safe)
    pub past :
        (day : Text) × (input.purchased_at ≡ input_date_to_api day)
        × (is_empty day ≡ false)
        × (text_ge today day ≡ true)
    pub stored : input.store ≢ some []

  pub record IsFilled (s : Form) : Type 0 where
    pub about : IsAbout s.query s.search
    pub out : IsAsked s.effect s.asked s.search
    pub fresh : IsFresh s.shown
    pub complete : All (λ h. IsComplete h.0 h.1) s.handed

  submit_cents-IsFilled :
      (today raw : Text) (result : PriceInputResult) (s : Form)
      → parse_price_input raw ≡ result
      → is_empty (trim s.values.name) ≡ false
      → IsFilled s
      → IsFilled (submit_cents input_date_to_api today (trim s.values.name) result s)
  unfolding submit_cents
  submit_cents-IsFilled today raw (failure error) s e n v = ground arith
  submit_cents-IsFilled today raw (success cents) s e n v =
      let (low, high) = parse_price_input-bounds raw cents e in
      elim (Bool-cases (is_empty s.values.day)) [
        | inl d ↦
            rw d (record { about = v.about; out = v.out; fresh = v.fresh; complete = v.complete })
        | inr d ↦ elim (Bool-cases (text_ge today s.values.day)) [
          | inr f ↦
              rw (d, f)
                (record { about = v.about; out = v.out; fresh = v.fresh; complete = v.complete })
          | inl f ↦
              rw (d, f)
                (record {
                  about = v.about;
                  out = v.out;
                  fresh = v.fresh;
                  complete = (
                    record {
                      named = (trim-trim s.values.name, n);
                      priced = (low, high);
                      past = (s.values.day, refl, d, f);
                      stored = non_empty-filled (trim s.values.store);
                    },
                    v.complete,
                  );
                })
        ]
      ]

  submit-IsFilled :
      (today : Text) (s : Form) → IsFilled s → IsFilled (submit input_date_to_api today s)
  unfolding submit
  submit-IsFilled today s v = elim (Bool-cases (is_empty (trim s.values.name))) [
    | inl e ↦ rw e (record { about = v.about; out = v.out; fresh = v.fresh; complete = v.complete })
    | inr e ↦
        rw e
          (submit_cents-IsFilled today s.values.price (parse_price_input s.values.price) s refl e v)
  ]

  rerun-IsFilled :
      (s : Form) → IsFresh s.shown → All (λ h. IsComplete h.0 h.1) s.handed → IsFilled (rerun s)
  unfolding rerun
  rerun-IsFilled s f h = elim (Bool-cases (ltb (length (trim s.query)) 2)) [
    | inl e ↦ rw e (record { about = tt; out = tt; fresh = f; complete = h })
    | inr e ↦ rw e (record { about = (refl, ground (arith, e)); out = tt; fresh = f; complete = h })
  ]

  set_query-IsFilled : (text : Text) (s : Form) → IsFilled s → IsFilled (set_query text s)
  unfolding set_query
  set_query-IsFilled text s v = elim (Bool-cases (text_eq text s.query)) [
    | inl e ↦ rw e v
    | inr e ↦ rw e (rerun-IsFilled (record s { query = text }) v.fresh v.complete)
  ]

  pick_at-IsFilled :
      (option : Option LinkOption) (s : Form) → IsFilled s → IsFilled (pick_at option s)
  unfolding pick
  pick_at-IsFilled none s v = v
  pick_at-IsFilled (some option) s v =
      let w =
        set_query-IsFilled [] (record s { values = picked_values option s.values })
          (record { about = v.about; out = v.out; fresh = v.fresh; complete = v.complete }) in
      record { about = w.about; out = w.out; fresh = w.fresh; complete = w.complete }

  fire-IsFilled :
      (search : Search) (s : Form) → s.search ≡ search → IsFilled s → IsFilled (fire search s)
  fire-IsFilled idle s e v = v
  fire-IsFilled (debouncing asked) s e v = record {
    about = subst (IsAbout s.query) e v.about;
    out = asked_by-first s.effect asked s.asked;
    fresh = v.fresh;
    complete = v.complete;
  }
  fire-IsFilled (looking asked) s e v = v

  take_found-IsFilled :
      (search : Search) (answer : Option (List LinkOption)) (s : Form)
      → s.search ≡ search
      → IsFilled s
      → IsFilled (take_found search s.effect answer s)
  take_found-IsFilled idle answer s e v = v
  take_found-IsFilled (debouncing asked) answer s e v = v
  take_found-IsFilled (looking asked) answer s e v =
      let here = (subst (IsAbout s.query) e v.about).0 in
      let sent = subst (IsAsked s.effect s.asked) e v.out in
      record {
        about = tt;
        out = tt;
        fresh = (sent ∙ ap (λ q. some q) here, v.fresh);
        complete = v.complete;
      }

  step-IsFilled : (e : Event) (s : Form) → IsFilled s → IsFilled (step input_date_to_api e s)
  unfolding step
  step-IsFilled (query_typed text) s v = elim (Bool-cases (is_linked s.values)) [
    | inl e ↦ rw e v
    | inr e ↦ rw e (set_query-IsFilled text s v)
  ]
  step-IsFilled timer_fired s v = fire-IsFilled s.search s refl v
  step-IsFilled searcher_changed s v = rerun-IsFilled s v.fresh v.complete
  step-IsFilled (found effect answer) s v = elim (Bool-cases (effect == s.effect)) [
    | inl e ↦
        let same : s.effect ≡ effect = ground (arith, e) in
        rw e (
          subst (λ run. IsFilled (take_found s.search run answer s)) same
            (take_found-IsFilled s.search answer s refl v))
    | inr e ↦ rw e v
  ]
  step-IsFilled (picked n) s v = pick_at-IsFilled (option_at n s.options) s v
  step-IsFilled (submitted true today) s v = v
  step-IsFilled (submitted false today) s v = submit-IsFilled today s v
  step-IsFilled e s v = ground arith

  run_from : (es : List Event) (s : Form) → IsFilled s → IsFilled (run input_date_to_api es s)
  unfolding run
  run_from [] s v = v
  run_from (e ∷ es) s v = run_from es (step input_date_to_api e s) (step-IsFilled e s v)

  opened-IsFilled : (initial : FormValues) → IsFilled (opened initial)
  unfolding opened
  opened-IsFilled initial = record { about = tt; out = tt; fresh = tt; complete = tt }

  -- After every sequence of events, each purchase that was handed over has a name without white space
  -- around it, a price that is positive and exact, a day that was not in the future then, and no store
  -- that is an empty text. A search that is out or waits for its timer is one for the text that the
  -- field holds now, and each answer that was taken answers the query that the field held at that time,
  -- without the white space around it.
  pub run-IsFilled :
      (initial : FormValues) (es : List Event)
      → IsFilled (run input_date_to_api es (opened initial))
  run-IsFilled initial es = run_from es (opened initial) (opened-IsFilled initial)

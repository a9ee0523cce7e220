-- ===== src/Rules/TesterLaws.antt =====
-- The tester of the rules shows the answer to its newest request only, and never waits for nothing.
use teleyes.Common.{
  ℕ, suc, ◌≡◌, ◌⊎◌, ◌≤◌, refl, inl, inr, Bool, true, false, not, ◌&&◌, Option, none, some, List, [],
  ◌∷◌, ◌==◌, keep, any, All, arith, Bool-cases,
}
use teleyes.Text.{Text}
use teleyes.Session.Http.{Outcome}
use teleyes.Terms.TermList.{parse_term_list}
use teleyes.Terms.RuleForm.{RuleTestInput}
use teleyes.Rules.Rail.{Rule, Rail, TesterContext, tester_context, effective_terms}
use teleyes.Rules.Steps.{
  fetch_preview, ask_test, effect_for, rendered, option_eq, bool_eq, is_nothing,
}

abbrev pub is_out : ℕ → List ℕ → Bool
is_out id ids = any (λ i. i == id) ids

abbrev pub is_open : Option ℕ → Bool → Bool
is_open none shown = shown
is_open (some id) shown = true

abbrev pub IsOf : ℕ → Option (ℕ × Outcome) → Type 0
IsOf id none = Unit
IsOf id (some (answered, outcome)) = answered ≡ id

-- No request is newer than `request_id`, the busy panel waits for that one, and a closed panel for none.
pub record IsReady (s : Rail) : Type 0 where
  pub numbered : All (λ i. i ≤ s.request_id) s.testing_out
  pub busy : (s.testing ≡ false) ⊎ (is_out s.request_id s.testing_out ≡ true)
  pub idle :
      (is_open s.tester_id s.create_tester_open ≡ true)
      ⊎ (is_out s.request_id s.testing_out ≡ false)

-- Besides, what is shown answers that request, and a closed panel holds nothing.
pub record IsNewest (s : Rail) : Type 0 where
  pub ready : IsReady s
  pub newest : IsOf s.request_id s.result
  pub nothing : (is_open s.tester_id s.create_tester_open ≡ true) ⊎ (s.result ≡ none)

pub next-absent : (n : ℕ) (ids : List ℕ) → All (λ i. i ≤ n) ids → is_out (suc n) ids ≡ false
next-absent n [] h = refl
next-absent n (i ∷ ids) (q, h) = ground (arith, next-absent n ids h)

pub later : (n : ℕ) (ids : List ℕ) → All (λ i. i ≤ n) ids → All (λ i. i ≤ suc n) ids
later n [] h = tt
later n (i ∷ ids) (q, h) = (omega (arith, q), later n ids h)

pub keep-numbered :
    (n : ℕ) (p : ℕ → Bool) (ids : List ℕ) → All (λ i. i ≤ n) ids → All (λ i. i ≤ n) (keep p ids)
keep-numbered n p [] h = tt
keep-numbered n p (i ∷ ids) (q, h) = elim (Bool-cases (p i)) [
  | inl e ↦ rw e (q, keep-numbered n p ids h)
  | inr e ↦ rw e (keep-numbered n p ids h)
]

pub is_out-keep :
    (a id : ℕ) (ids : List ℕ)
    → (id == a) ≡ false
    → is_out a (keep (λ i. not (i == id)) ids) ≡ is_out a ids
is_out-keep a id [] h = refl
is_out-keep a id (i ∷ ids) h = elim (Bool-cases (i == id)) [
  | inl e ↦ rw e (ground (arith, e, h, is_out-keep a id ids h))
  | inr e ↦ rw e (ground (arith, is_out-keep a id ids h))
]

module _ (lower : Text → Text) (has_problem : Text → Bool) where
  pub fetch_preview-IsNewest :
      (terms : RuleTestInput) (s : Rail)
      → is_open s.tester_id s.create_tester_open ≡ true
      → All (λ i. i ≤ s.request_id) s.testing_out
      → IsNewest (fetch_preview lower has_problem (some terms) s)
  unfolding fetch_preview
  fetch_preview-IsNewest terms s o h =
      asked s.csrf (is_nothing (parse_term_list lower terms.include_terms))
    where
      asked :
          (csrf : Option ℕ) (without : Bool)
          → IsNewest
              (ask_test lower has_problem csrf without (record s { request_id = suc s.request_id }))
      asked none without = record {
        ready = record {
          numbered = later s.request_id s.testing_out h;
          busy = inl refl;
          idle = inl o;
        };
        newest = tt;
        nothing = inl o;
      }
      asked (some token) true = record {
        ready = record {
          numbered = later s.request_id s.testing_out h;
          busy = inl refl;
          idle = inl o;
        };
        newest = tt;
        nothing = inl o;
      }
      asked (some token) false = record {
        ready = record {
          numbered = (omega arith, later s.request_id s.testing_out h);
          busy = inr (ground arith);
          idle = inl o;
        };
        newest = tt;
        nothing = inl o;
      }

  effect_for-IsNewest :
      (context : Option TesterContext) (s : Rail)
      → (context ≡ none) ⊎ (is_open s.tester_id s.create_tester_open ≡ true)
      → IsReady s
      → IsNewest (effect_for lower has_problem context s)
  unfolding effect_for
  effect_for-IsNewest none s o v = record {
    ready = record { numbered = v.numbered; busy = v.busy; idle = v.idle };
    newest = tt;
    nothing = inr refl;
  }
  effect_for-IsNewest (some context) s (inr o) v =
      fetch_preview-IsNewest (effective_terms context s.target s.form) s o v.numbered
  effect_for-IsNewest (some context) s (inl e) v = ground (arith, e)

  pub tester_context-open :
      (id : Option ℕ) (shown : Bool) (rules : List Rule)
      → (tester_context id shown rules ≡ none) ⊎ (is_open id shown ≡ true)
  unfolding tester_context
  tester_context-open (some id) shown rules = inr refl
  tester_context-open none true rules = inr refl
  tester_context-open none false rules = inl refl

  -- What a handler leaves for the render: all of it, or another panel.
  abbrev pub IsHandled : Rail → Rail → Type 0
  IsHandled s t =
      IsReady t
      × (IsNewest t
          ⊎ ((option_eq s.tester_id t.tester_id
                && bool_eq s.create_tester_open t.create_tester_open)
              ≡ false))

  pub rendered-IsNewest :
      (s t : Rail)
      → IsHandled s t
      → IsNewest (rendered lower has_problem s.tester_id s.create_tester_open t)
  unfolding rendered
  rendered-IsNewest s t (ready, h) =
      elim (Bool-cases
        (option_eq s.tester_id t.tester_id && bool_eq s.create_tester_open t.create_tester_open)) [
          | inr e ↦ rw e (
              effect_for-IsNewest (tester_context t.tester_id t.create_tester_open t.rules) t
                (tester_context-open t.tester_id t.create_tester_open t.rules) ready)
          | inl e ↦ elim h [ inl v ↦ rw e v | inr changed ↦ ground (arith, e, changed) ]
        ]

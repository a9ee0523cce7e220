-- ===== src/Rules/HandlerLaws.antt =====
-- What the handlers of the form and of the tester of a rule leave for the next render.
use teleyes.Common.{
  ℕ, suc, ◌≡◌, ◌⊎◌, ◌≤◌, refl, inl, inr, Bool, true, false, not, ◌&&◌, Option, none, some, List,
  ◌==◌, if◌then◌else◌, keep, All, arith, Bool-cases, sym, subst, ==_iff,
}
use teleyes.Text.{Text}
use teleyes.Session.Http.{Outcome, returned}
use teleyes.Terms.RuleForm.{RuleForm}
use teleyes.Rules.Rail.{
  FormTarget, Rail, load_form, close_tester, toggle_row_tester, toggle_create_tester, keeps_tester,
  tests_rule, show_tester,
}
use teleyes.Rules.Steps.{answer_test, take_test, option_eq, bool_eq}
use teleyes.Rules.TesterLaws.{
  is_out, is_open, IsOf, IsNewest, next-absent, later, keep-numbered, is_out-keep, IsHandled,
}

pub either_branch :
    (P : Rail → Type 0) (b : Bool) (t u : Rail)
    → (b ≡ true → P t)
    → (b ≡ false → P u)
    → P (if b then t else u)
either_branch P true t u h k = h refl
either_branch P false t u h k = k refl

-- What the tester has of the state: a handler that leaves it alone keeps the invariant.
abbrev pub Panel : Type 0
Panel = ℕ × (Bool × (List ℕ × (Option (ℕ × Outcome) × (Option ℕ × Bool))))

abbrev pub panel : Rail → Panel
panel s =
    (s.request_id, (s.testing, (s.testing_out, (s.result, (s.tester_id, s.create_tester_open)))))

pub same-IsNewest : (s t : Rail) → panel s ≡ panel t → IsNewest s → IsNewest t
same-IsNewest s t e v = record {
  ready = record {
    numbered = subst (λ (p : Panel). All (λ i. i ≤ p.0) p.1.1.0) e v.ready.numbered;
    busy = subst (λ (p : Panel). (p.1.0 ≡ false) ⊎ (is_out p.0 p.1.1.0 ≡ true)) e v.ready.busy;
    idle =
        subst
          (λ (p : Panel). (is_open p.1.1.1.1.0 p.1.1.1.1.1 ≡ true) ⊎ (is_out p.0 p.1.1.0 ≡ false)) e
          v.ready.idle;
  };
  newest = subst (λ (p : Panel). IsOf p.0 p.1.1.1.0) e v.newest;
  nothing =
      subst (λ (p : Panel). (is_open p.1.1.1.1.0 p.1.1.1.1.1 ≡ true) ⊎ (p.1.1.1.0 ≡ none)) e
        v.nothing;
}

-- A taken answer is shown in a panel that is open.
take_test-IsNewest :
    (outcome : Outcome) (id : ℕ) (s : Rail)
    → id ≡ s.request_id
    → is_open s.tester_id s.create_tester_open ≡ true
    → All (λ i. i ≤ s.request_id) s.testing_out
    → IsNewest (take_test outcome id s)
unfolding take_test
take_test-IsNewest (returned body) id s same o h = record {
  ready = record { numbered = h; busy = inl refl; idle = inl o };
  newest = same;
  nothing = inl o;
}
take_test-IsNewest outcome id s same o h = record {
  ready = record { numbered = h; busy = inl refl; idle = inl o };
  newest = tt;
  nothing = inl o;
}

module _ (lower : Text → Text) (has_problem : Text → Bool) where
  show_tester-IsHandled :
      (id : Option ℕ) (shown : Bool) (s : Rail)
      → IsNewest s
      → (option_eq s.tester_id id && bool_eq s.create_tester_open shown) ≡ false
      → IsHandled lower has_problem s (show_tester id shown s)
  show_tester-IsHandled id shown s v changed = (
    record {
      numbered = later s.request_id s.testing_out v.ready.numbered;
      busy = inl refl;
      idle = inr (next-absent s.request_id s.testing_out v.ready.numbered);
    },
    inr changed,
  )

  pub toggle_row_tester-IsHandled :
      (id : ℕ) (s : Rail) → IsNewest s → IsHandled lower has_problem s (toggle_row_tester id s)
  unfolding toggle_row_tester
  toggle_row_tester-IsHandled id s v = elim (Bool-cases (tests_rule s.tester_id id)) [
    | inl e ↦ rw e (show_tester-IsHandled none false s v (ground (arith, e)))
    | inr e ↦ rw e (show_tester-IsHandled (some id) false s v (ground (arith, e)))
  ]

  pub toggle_create_tester-IsHandled :
      (s : Rail) → IsNewest s → IsHandled lower has_problem s (toggle_create_tester s)
  unfolding toggle_create_tester
  toggle_create_tester-IsHandled s v =
      either_branch (IsHandled lower has_problem s) s.create_tester_open (close_tester s)
        (show_tester none true s) (λ e. show_tester-IsHandled none false s v (ground (arith, e)))
        (λ e. show_tester-IsHandled none true s v (ground (arith, e)))

  pub load_form-IsHandled :
      (target : FormTarget) (next : RuleForm) (s : Rail)
      → IsNewest s
      → IsHandled lower has_problem s (load_form target next s)
  unfolding load_form
  load_form-IsHandled target next s v = elim (Bool-cases (keeps_tester target s.tester_id)) [
    | inl e ↦
        let o : is_open s.tester_id false ≡ true = ground (arith, e) in
        let ready = v.ready in
        rw e (
          record { numbered = ready.numbered; busy = ready.busy; idle = inl o },
          inl (record {
            ready = record { numbered = ready.numbered; busy = ready.busy; idle = inl o };
            newest = v.newest;
            nothing = inl o;
          }),
        )
    | inr e ↦ rw e (
      record {
        numbered = later s.request_id s.testing_out v.ready.numbered;
        busy = inl refl;
        idle = inr (next-absent s.request_id s.testing_out v.ready.numbered);
      },
      elim (Bool-cases (is_open s.tester_id s.create_tester_open)) [
        | inl o ↦ inr (ground (arith, o))
        | inr o ↦
            let nothing : s.result ≡ none = ground (arith, o, v.nothing) in
            inl (record {
              ready = record {
                numbered = later s.request_id s.testing_out v.ready.numbered;
                busy = inl refl;
                idle = inr (next-absent s.request_id s.testing_out v.ready.numbered);
              };
              newest = subst (IsOf (suc s.request_id)) (sym nothing) tt;
              nothing = inr nothing;
            })
      ],
    )
  ]

  pub answer_test-IsNewest :
      (id : ℕ) (outcome : Outcome) (s : Rail) → IsNewest s → IsNewest (answer_test id outcome s)
  unfolding answer_test
  answer_test-IsNewest id outcome s v = elim (Bool-cases (is_out id s.testing_out)) [
    | inr e ↦ rw e v
    | inl e ↦ elim (Bool-cases (id == s.request_id)) [
      | inl same ↦
          rw (e, same)
            (let this : id ≡ s.request_id = (==_iff id s.request_id).0 same in
              let out : is_out s.request_id s.testing_out ≡ true =
                subst (λ i. is_out i s.testing_out ≡ true) this e in
              take_test-IsNewest outcome id
                (record s { testing_out = keep (λ i. not (i == id)) s.testing_out }) this
                (ground (arith, out, v.ready.idle))
                (keep-numbered s.request_id (λ i. not (i == id)) s.testing_out v.ready.numbered))
      | inr other ↦
          rw (e, other)
            (let kept = is_out-keep s.request_id id s.testing_out other in
              record {
                ready = record {
                  numbered =
                      keep-numbered s.request_id (λ i. not (i == id)) s.testing_out
                        v.ready.numbered;
                  busy = ground (arith, kept, v.ready.busy);
                  idle = ground (arith, kept, v.ready.idle);
                };
                newest = v.newest;
                nothing = v.nothing;
              })
    ]
  ]

-- ===== src/Rules/RunLaws.antt =====
-- Every run of the form and of the tester keeps the panel at its newest request.
use teleyes.Common.{
  ℕ, suc, ◌≡◌, ◌⊎◌, refl, inl, inr, Bool, true, false, Option, none, some, List, [], ◌∷◌, arith,
}
use teleyes.Text.{Text}
use teleyes.Session.Http.{Outcome, returned}
use teleyes.Price.Input.{PriceInputResult, success, failure}
use teleyes.Rules.Rail.{
  FormTarget, create, Rail, mount, tester_context, empty_form, effective_terms, TesterContext,
}
use teleyes.Rules.Steps.{
  Event, create_clicked, reset_clicked, edit_clicked, duplicate_clicked, form_submitted,
  save_answered, row_tester_toggled, create_tester_toggled, refresh_clicked, test_answered,
  refresh_for, submit_form, handle, step, run, answer_test, answer_save, submit_terms,
  submit_checked,
}
use teleyes.Rules.TesterLaws.{
  is_open, IsNewest, fetch_preview-IsNewest, tester_context-open, rendered-IsNewest, IsHandled,
}
use teleyes.Rules.HandlerLaws.{
  panel, same-IsNewest, either_branch, load_form-IsHandled, toggle_row_tester-IsHandled,
  toggle_create_tester-IsHandled, answer_test-IsNewest,
}

module _ (lower : Text → Text) (has_problem : Text → Bool) where
  newest-IsHandled : (s t : Rail) → IsNewest t → IsHandled lower has_problem s t
  newest-IsHandled s t v = (v.ready, inl v)

  refresh_for-IsNewest :
      (context : Option TesterContext) (s : Rail)
      → (context ≡ none) ⊎ (is_open s.tester_id s.create_tester_open ≡ true)
      → IsNewest s
      → IsNewest (refresh_for lower has_problem context s)
  unfolding refresh_for
  refresh_for-IsNewest none s o v = v
  refresh_for-IsNewest (some context) s (inr o) v =
      fetch_preview-IsNewest lower has_problem (effective_terms context s.target s.form) s o
        v.ready.numbered
  refresh_for-IsNewest (some context) s (inl e) v = ground (arith, e)

  answer_save-IsHandled :
      (saving : Option FormTarget) (outcome : Outcome) (s : Rail)
      → IsNewest s
      → IsHandled lower has_problem s (answer_save saving outcome s)
  unfolding answer_save
  answer_save-IsHandled none outcome s v = newest-IsHandled s s v
  answer_save-IsHandled (some target) (returned body) s v =
      let t : Rail = record s {
        submitting = false;
        saving = none;
        config_changes = suc s.config_changes;
      } in
      load_form-IsHandled lower has_problem create empty_form t (same-IsNewest s t refl v)
  answer_save-IsHandled (some target) outcome s v = newest-IsHandled s _ (same-IsNewest s _ refl v)

  submit_checked-panel :
      (limit price : Option PriceInputResult) (s : Rail)
      → panel s ≡ panel (submit_checked lower has_problem limit price s)
  submit_checked-panel (some (failure error)) price s = refl
  submit_checked-panel (some (success cents)) (some (failure error)) s = refl
  submit_checked-panel (some (success cents)) (some (success target)) s = refl
  submit_checked-panel (some (success cents)) none s = refl
  submit_checked-panel none (some (failure error)) s = refl
  submit_checked-panel none (some (success target)) s = refl
  submit_checked-panel none none s = refl

  submit_terms-panel :
      (without problem : Bool) (s : Rail)
      → panel s ≡ panel (submit_terms lower has_problem without problem s)
  submit_terms-panel true problem s = refl
  submit_terms-panel false true s = refl
  submit_terms-panel false false s = submit_checked-panel _ _ s

  submit_form-panel :
      (csrf : Option ℕ) (s : Rail) → panel s ≡ panel (submit_form lower has_problem csrf s)
  unfolding submit_form
  submit_form-panel none s = refl
  submit_form-panel (some token) s = submit_terms-panel _ _ s

  handle-IsHandled :
      (e : Event) (s : Rail)
      → IsNewest s
      → IsHandled lower has_problem s (handle lower has_problem e s)
  unfolding handle
  handle-IsHandled (edit_clicked rule) s v = load_form-IsHandled lower has_problem _ _ s v
  handle-IsHandled (duplicate_clicked rule) s v = load_form-IsHandled lower has_problem _ _ s v
  handle-IsHandled create_clicked s v = load_form-IsHandled lower has_problem _ _ s v
  handle-IsHandled reset_clicked s v = load_form-IsHandled lower has_problem _ _ s v
  handle-IsHandled (row_tester_toggled id) s v =
      toggle_row_tester-IsHandled lower has_problem id s v
  handle-IsHandled create_tester_toggled s v = toggle_create_tester-IsHandled lower has_problem s v
  handle-IsHandled (save_answered outcome) s v = answer_save-IsHandled s.saving outcome s v
  handle-IsHandled (test_answered id outcome) s v =
      newest-IsHandled s (answer_test id outcome s)
        (answer_test-IsNewest lower has_problem id outcome s v)
  handle-IsHandled refresh_clicked s v =
      let context = tester_context s.tester_id s.create_tester_open s.rules in
      either_branch (IsHandled lower has_problem s) s.testing s
        (refresh_for lower has_problem context s) (λ e. newest-IsHandled s s v)
        (λ e. newest-IsHandled s _ (
          refresh_for-IsNewest context s
            (tester_context-open lower has_problem s.tester_id s.create_tester_open s.rules) v))
  handle-IsHandled form_submitted s v =
      either_branch (IsHandled lower has_problem s) s.submitting s
        (submit_form lower has_problem s.csrf s) (λ e. newest-IsHandled s s v)
        (λ e. newest-IsHandled s _ (same-IsNewest s _ (submit_form-panel s.csrf s) v))
  handle-IsHandled e s v =
      newest-IsHandled s (handle lower has_problem e s) (same-IsNewest s _ refl v)

  step-IsNewest : (e : Event) (s : Rail) → IsNewest s → IsNewest (step lower has_problem e s)
  unfolding step
  step-IsNewest e s v =
      rendered-IsNewest lower has_problem s (handle lower has_problem e s) (handle-IsHandled e s v)

  run_from : (es : List Event) (s : Rail) → IsNewest s → IsNewest (run lower has_problem es s)
  unfolding run
  run_from [] s v = v
  run_from (e ∷ es) s v = run_from es (step lower has_problem e s) (step-IsNewest e s v)

  mount-IsNewest : (csrf : Option ℕ) → IsNewest (mount csrf)
  unfolding mount
  mount-IsNewest csrf = ground arith

  -- After every sequence of events, a result that the tester shows answers its newest request; while it
  -- says that it is busy, the answer to that request is still out, so it never waits for nothing; and a
  -- closed panel holds no result and waits for none.
  pub run-IsNewest :
      (csrf : Option ℕ) (es : List Event) → IsNewest (run lower has_problem es (mount csrf))
  run-IsNewest csrf es = run_from es (mount csrf) (mount-IsNewest csrf)

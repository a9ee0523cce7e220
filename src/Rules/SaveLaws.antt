-- ===== src/Rules/SaveLaws.antt =====
-- The answer to a save empties the form, whatever the form is about since.
use teleyes.Common.{ℕ, suc, ◌≡◌, refl, Bool, true, false, Option, none, some, List, ap, ◌∙◌}
use teleyes.Text.{Text}
use teleyes.Session.Http.{returned}
use teleyes.Json.{Json}
use teleyes.Terms.RuleForm.{RuleInput, RuleForm, rule_to_form}
use teleyes.Rules.Rail.{
  Rule, FormTarget, create, edit, Rail, tester_context, empty_form, TesterContext,
}
use teleyes.Rules.Steps.{
  Event, form_changed, edit_clicked, save_answered, rendered, handle, step, answer_save,
  refuse_test,
}
use teleyes.Rules.Steps.{ask_test, effect_for}
use teleyes.Rules.HandlerLaws.{either_branch}

-- What the form has of the state.
abbrev FormView : Type 0
FormView = FormTarget × (RuleForm × (List RuleInput × Option FormTarget))

abbrev form_view : Rail → FormView
form_view s = (s.target, (s.form, (s.sent, s.saving)))

module _ (lower : Text → Text) (has_problem : Text → Bool) where
  ask_test-view :
      (csrf : Option ℕ) (without : Bool) (s : Rail)
      → form_view (ask_test lower has_problem csrf without s) ≡ form_view s
  unfolding refuse_test
  ask_test-view none without s = refl
  ask_test-view (some token) true s = refl
  ask_test-view (some token) false s = refl

  effect_for-view :
      (context : Option TesterContext) (s : Rail)
      → form_view (effect_for lower has_problem context s) ≡ form_view s
  unfolding effect_for
  effect_for-view none s = refl
  effect_for-view (some context) s = ask_test-view _ _ (record s { request_id = suc s.request_id })

  -- A render leaves the form alone.
  step-view :
      (e : Event) (s : Rail)
      → form_view (step lower has_problem e s) ≡ form_view (handle lower has_problem e s)
  unfolding step rendered
  step-view e s =
      let t = handle lower has_problem e s in
      either_branch (λ u. form_view u ≡ form_view t) _ t
        (effect_for lower has_problem (tester_context t.tester_id t.create_tester_open t.rules) t)
        (λ same. refl)
        (λ other. effect_for-view (tester_context t.tester_id t.create_tester_open t.rules) t)

  edit-view :
      (other : Rule) (s : Rail)
      → form_view (step lower has_problem (edit_clicked other) s)
        ≡ (edit other, (rule_to_form other.input false, (s.sent, s.saving)))
  unfolding handle
  edit-view other s = step-view (edit_clicked other) s

  changed-view :
      (typed : RuleForm) (s : Rail)
      → form_view (step lower has_problem (form_changed typed) s)
        ≡ (s.target, (typed, (s.sent, s.saving)))
  unfolding handle
  changed-view typed s = step-view (form_changed typed) s

  saved-view :
      (target : FormTarget) (body : Option Json) (s : Rail)
      → s.saving ≡ some target
      → form_view (step lower has_problem (save_answered (returned body)) s)
        ≡ (create, (empty_form, (s.sent, none)))
  unfolding handle
  saved-view target body s out =
      step-view (save_answered (returned body)) s
      ∙ ap (λ saving. form_view (answer_save saving (returned body) s)) out

  -- Where another rule is loaded into the form while a save is out, the success of the save empties the
  -- form, and what was typed for the other rule was not sent.
  pub late_save_resets :
      (s : Rail) (target : FormTarget) (other : Rule) (typed : RuleForm) (body : Option Json)
      → s.saving ≡ some target
      → let loaded =
          step lower has_problem
            (form_changed typed)
            (step lower has_problem (edit_clicked other) s) in
        let t = step lower has_problem (save_answered (returned body)) loaded in
        (loaded.target ≡ edit other)
        × (loaded.form ≡ typed)
        × (t.target ≡ create)
        × (t.form ≡ empty_form)
        × (t.sent ≡ s.sent)
  late_save_resets s target other typed body out =
      let opened = step lower has_problem (edit_clicked other) s in
      let loaded = step lower has_problem (form_changed typed) opened in
      let a = edit-view other s in
      let b = changed-view typed opened in
      let saving : loaded.saving ≡ some target =
        ap (λ (w : FormView). w.1.1.1) b ∙ ap (λ (w : FormView). w.1.1.1) a ∙ out in
      let c = saved-view target body loaded saving in
      (
        ap (λ (w : FormView). w.0) b ∙ ap (λ (w : FormView). w.0) a,
        ap (λ (w : FormView). w.1.0) b,
        ap (λ (w : FormView). w.0) c,
        ap (λ (w : FormView). w.1.0) c,
        ap (λ (w : FormView). w.1.1.0) c
            ∙ ap (λ (w : FormView). w.1.1.0) b
            ∙ ap (λ (w : FormView). w.1.1.0) a,
      )

-- ===== src/Purchases/PageLaws.antt =====
-- The calls of the economy page, what their answers do, and a form that the answer of another closes.
use teleyes.Common.{
  ℕ, suc, ◌≡◌, ◌≢◌, ◌⊎◌, refl, Bool, true, false, Option, none, some, List, [], ◌∷◌, arith, zero,
  inl, inr, call_at, without_at,
}
use teleyes.Text.{Text}
use teleyes.Json.{Json}
use teleyes.Session.Http.{Outcome, returned}
use teleyes.Writes.Actions.{is_ok}
use teleyes.Purchases.Form.{PurchaseInput}
use teleyes.Purchases.Page.{
  Purchase, FormTarget, edit, Call, create_purchase, update_purchase, delete_purchase, save_goal,
  delete_goal, Page, mount, report, save_call,
}
use teleyes.Purchases.Steps.{
  Event, edit_clicked, save_answered, form_submitted, delete_confirmed, delete_answered,
  goal_submitted, goal_removed, goal_answered, label_read, loaded, step, run,
}

abbrev IsSave : Call → Type 0
IsSave (create_purchase input) = Unit
IsSave (update_purchase id input) = Unit
IsSave _ = ⊥

abbrev IsRemoval : Call → Type 0
IsRemoval (delete_purchase id) = Unit
IsRemoval _ = ⊥

abbrev IsGoal : Call → Type 0
IsGoal (save_goal input) = Unit
IsGoal delete_goal = Unit
IsGoal _ = ⊥

-- One call at most is out, it is of its kind, and the flag is set exactly while one is.
abbrev pub IsFlag : (Call → Type 0) → Bool → List Call → Type 0
IsFlag kind flag [] = flag ≡ false
IsFlag kind flag (call ∷ []) = (flag ≡ true) × kind call
IsFlag kind flag (call ∷ other ∷ calls) = ⊥

IsFlag-add :
    (kind : Call → Type 0) (call : Call) (flag : Bool) (calls : List Call)
    → IsFlag kind flag calls
    → flag ≡ false
    → kind call
    → IsFlag kind true (call ∷ calls)
IsFlag-add kind call flag [] h f k = (refl, k)
IsFlag-add kind call flag (other ∷ []) h f k = cc
IsFlag-add kind call flag (other ∷ another ∷ calls) h f k = absurd h

-- What an answer finds: no call in its place, or the only one that is out.
IsFlag-cases :
    (kind : Call → Type 0) (n : ℕ) (flag : Bool) (calls : List Call)
    → IsFlag kind flag calls
    → (call_at n calls ≡ none)
      ⊎ ((call : Call) × (call_at n calls ≡ some call) × (without_at n calls ≡ []))
IsFlag-cases kind n flag [] h = inl refl
IsFlag-cases kind zero flag (call ∷ []) h = inr (call, refl, refl)
IsFlag-cases kind (suc n) flag (call ∷ []) h = inl refl
IsFlag-cases kind n flag (call ∷ other ∷ calls) h = absurd h

-- The dialogs stay open while their call is out.
pub record IsLocked (s : Page) : Type 0 where
  pub save : IsFlag IsSave s.submitting s.saving
  pub removal : IsFlag IsRemoval s.deleting s.removing
  pub goal : IsFlag IsGoal s.goal_saving s.goal_calls
  pub form : (s.submitting ≡ false) ⊎ (s.form_target ≢ none)
  pub removal_dialog : (s.deleting ≡ false) ⊎ (s.pending_delete ≢ none)
  pub goal_open : (s.goal_saving ≡ false) ⊎ (s.goal_dialog ≡ true)

step-IsLocked : (e : Event) (s : Page) → IsLocked s → IsLocked (step e s)
unfolding step
step-IsLocked (form_submitted input) s v =
    let more = λ (call : Call). IsFlag-add IsSave call s.submitting s.saving v.save in
    ground (arith, more)
step-IsLocked (save_answered n outcome) s v =
    elim (IsFlag-cases IsSave n s.submitting s.saving v.save) [
      | inl e ↦ rw e v
      | inr (call, e, rest) ↦ rw e (ground (arith, rest))
    ]
step-IsLocked delete_confirmed s v =
    let more = λ (call : Call). IsFlag-add IsRemoval call s.deleting s.removing v.removal in
    ground (arith, more)
step-IsLocked (delete_answered n outcome) s v =
    elim (IsFlag-cases IsRemoval n s.deleting s.removing v.removal) [
      | inl e ↦ rw e v
      | inr (call, e, rest) ↦ rw e (ground (arith, rest))
    ]
step-IsLocked (goal_submitted input) s v =
    let more = IsFlag-add IsGoal (save_goal input) s.goal_saving s.goal_calls v.goal in
    ground (arith, more)
step-IsLocked goal_removed s v =
    let more = IsFlag-add IsGoal delete_goal s.goal_saving s.goal_calls v.goal in
    ground (arith, more)
step-IsLocked (goal_answered n outcome) s v =
    elim (IsFlag-cases IsGoal n s.goal_saving s.goal_calls v.goal) [
      | inl e ↦ rw e v
      | inr (call, e, rest) ↦ rw e (ground (arith, rest))
    ]
step-IsLocked (label_read id title) s v = ground arith
step-IsLocked (loaded answer) s v = ground arith
step-IsLocked e s v = ground arith

run_from : (es : List Event) (s : Page) → IsLocked s → IsLocked (run es s)
unfolding run
run_from [] s v = v
run_from (e ∷ es) s v = run_from es (step e s) (step-IsLocked e s v)

mount-IsLocked : (csrf : Option ℕ) → IsLocked (mount csrf)
unfolding mount
mount-IsLocked csrf = ground arith

-- After every sequence of events at most one call of each kind is out (a purchase saved, one deleted, the
-- goal), each of the three busy flags is set exactly while one of its kind is, and a form or a dialog is open as long as its flag
-- is set.
pub run-IsLocked : (csrf : Option ℕ) (es : List Event) → IsLocked (run es (mount csrf))
run-IsLocked csrf es = run_from es (mount csrf) (mount-IsLocked csrf)

-- The answer to a save frees the form. A success closes it and reads the list again; any other answer
-- keeps what it is about and reads nothing, and its error is what `reportFailure` sets.
pub save_told :
    (s : Page) (n : ℕ) (call : Call) (outcome : Outcome)
    → call_at n s.saving ≡ some call
    → let t = step (save_answered n outcome) s in
      (t.submitting ≡ false)
      × (t.saving ≡ without_at n s.saving)
      × (((is_ok outcome ≡ true)
            × (t.form_target ≡ none)
            × (t.form_error ≡ none)
            × (t.loads ≡ suc s.loads))
          ⊎ ((is_ok outcome ≡ false)
              × (t.form_target ≡ s.form_target)
              × (t.form_error ≡ report outcome s.form_error)
              × (t.loads ≡ s.loads)))
unfolding step
save_told s n call outcome out = ground (arith, out)

-- Where a form whose save is not out yet is submitted in a session with a token, and another purchase is
-- opened before the answer, a successful answer to the save closes the form of the other purchase, of
-- which nothing was sent.
pub late_save_closes :
    (s : Page) (target : FormTarget) (token : ℕ) (input : PurchaseInput) (other : Purchase)
    (body : Option Json)
    → s.form_target ≡ some target
    → s.csrf ≡ some token
    → s.submitting ≡ false
    → let opened = step (edit_clicked other) (step (form_submitted input) s) in
      let t = step (save_answered 0 (returned body)) opened in
      ((label : Option Text) × (opened.form_target ≡ some (edit other label)))
      × (t.form_target ≡ none)
      × (t.sent ≡ save_call target input ∷ s.sent)
unfolding step
late_save_closes s target token input other body f c b = rw (f, c, b) ((_, refl), refl, refl)

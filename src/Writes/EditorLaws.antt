-- ===== src/Writes/EditorLaws.antt =====
-- What the correction form sends, and where it shows a failure; the target that its form saves.
use teleyes.Common.{
  ℕ, ◌≤◌, ◌<◌, ◌≡◌, ◌⊎◌, refl, inl, inr, Bool, true, false, Option, none, some, List, [], ◌∷◌, zero,
  suc, arith, Bool-cases, All, call_at, without_at,
}
use teleyes.Text.{Text, trim}
use teleyes.Text.Trim.{trim-trim}
use teleyes.Price.Input.{PriceInputResult, success, failure, max_safe, parse_price_input}
use teleyes.Price.Bounds.{parse_price_input-bounds}
use teleyes.Price.RoundTrip.{parse-format_price_input, parse-format_price_for_api}
use teleyes.Session.Http.{ErrorDetail, Outcome, thrown}
use teleyes.Writes.Target.{TargetEditor, show_target, take_target, submit_target}
use teleyes.Writes.Editor.{
  EditableMatch, MatchUpdate, Call, update_match, revert_match, Editor, opened, name_fits,
  submit_price, handle_submit, succeed, fail, Event, submitted, reverted, succeeded, failed, step,
  run, server_message, names_name, names_price,
}

-- The name has three to 120 units and no white space around it, and the price reads as one.
abbrev IsCorrect : Call → Type 0
IsCorrect (update_match id update) =
    (name_fits update.display_name ≡ true)
    × (trim update.display_name ≡ update.display_name)
    × ((cents : ℕ) × (parse_price_input update.price ≡ success cents))
IsCorrect (revert_match id) = Unit

-- One call at most is out, and the flags of the two buttons say of which kind it is.
abbrev HasFlags : List Call → Bool → Bool → Type 0
HasFlags [] submitting reverting = (submitting ≡ false) × (reverting ≡ false)
HasFlags (update_match id update ∷ []) submitting reverting =
    (submitting ≡ true) × (reverting ≡ false)
HasFlags (revert_match id ∷ []) submitting reverting = (submitting ≡ false) × (reverting ≡ true)
HasFlags (call ∷ other ∷ calls) submitting reverting = ⊥

-- At most one call is out, of the kind that its button shows, and all calls were correct.
pub record IsValid (s : Editor) : Type 0 where
  pub single : HasFlags s.out s.submitting s.reverting
  pub correct : All IsCorrect s.sent

HasFlags-free :
    (calls : List Call) (submitting reverting : Bool)
    → HasFlags calls submitting reverting
    → submitting ≡ false
    → reverting ≡ false
    → calls ≡ []
HasFlags-free [] submitting reverting h a b = refl
HasFlags-free (update_match id update ∷ []) submitting reverting h a b = cc
HasFlags-free (revert_match id ∷ []) submitting reverting h a b = cc
HasFlags-free (call ∷ other ∷ calls) submitting reverting h a b = absurd h

-- What an answer finds: no call in its place, or the only call that is out.
HasFlags-cases :
    (n : ℕ) (calls : List Call) (submitting reverting : Bool)
    → HasFlags calls submitting reverting
    → (call_at n calls ≡ none)
      ⊎ ((call : Call) × (call_at n calls ≡ some call)
          × (without_at n calls ≡ [])
          × HasFlags (call ∷ []) submitting reverting)
HasFlags-cases n [] submitting reverting h = inl refl
HasFlags-cases zero (call ∷ []) submitting reverting h = inr (call, refl, refl, h)
HasFlags-cases (suc n) (call ∷ []) submitting reverting h = inl refl
HasFlags-cases n (call ∷ other ∷ calls) submitting reverting h = absurd h

name_fits-trim : (name : Text) → name_fits (trim name) ≡ name_fits name
unfolding name_fits
name_fits-trim name = rw (trim-trim name) refl

submit_price-IsValid :
    (id : ℕ) (raw : Text) (result : PriceInputResult) (s : Editor)
    → parse_price_input raw ≡ result
    → IsValid s
    → IsValid (submit_price id result s)
unfolding submit_price
submit_price-IsValid id raw (failure error) s h v = v
submit_price-IsValid id raw (success cents) s h v =
    let (low, high) = parse_price_input-bounds raw cents h in
    let sent = parse-format_price_for_api cents low high in
    let free = HasFlags-free s.out s.submitting s.reverting v.single in
    ground (arith, name_fits-trim s.name, trim-trim s.name, sent, free)

handle_submit-IsValid : (id : ℕ) (s : Editor) → IsValid s → IsValid (handle_submit id s)
unfolding handle_submit
handle_submit-IsValid id s v =
    submit_price-IsValid id s.price (parse_price_input s.price) _ refl
      (record { single = v.single; correct = v.correct })

succeed-IsValid :
    (call : Call) (n : ℕ) (s : Editor)
    → without_at n s.out ≡ []
    → HasFlags (call ∷ []) s.submitting s.reverting
    → IsValid s
    → IsValid (succeed (some call) n s)
unfolding succeed
succeed-IsValid (update_match id update) n s rest h v = ground arith
succeed-IsValid (revert_match id) n s rest h v = ground arith

fail-IsValid :
    (call : Call) (n : ℕ) (outcome : Outcome) (s : Editor)
    → without_at n s.out ≡ []
    → HasFlags (call ∷ []) s.submitting s.reverting
    → IsValid s
    → IsValid (fail (some call) n outcome s)
unfolding fail
fail-IsValid (revert_match id) n outcome s rest h v = ground arith
fail-IsValid (update_match id update) n (thrown detail status) s rest h v =
    elim (Bool-cases (names_name detail.message)) [
      | inl a ↦ rw a (ground arith)
      | inr a ↦ elim (Bool-cases (names_price detail.message)) [
        | inl p ↦ rw (a, p) (ground arith)
        | inr p ↦ rw (a, p) (ground arith)
      ]
    ]
fail-IsValid (update_match id update) n outcome s rest h v = ground arith

step-IsValid : (m : EditableMatch) (e : Event) (s : Editor) → IsValid s → IsValid (step m e s)
unfolding step
step-IsValid m submitted s v = handle_submit-IsValid m.id s v
step-IsValid m reverted s v = ground (arith, HasFlags-free s.out s.submitting s.reverting v.single)
step-IsValid m (succeeded n) s v = elim (HasFlags-cases n s.out s.submitting s.reverting v.single) [
  | inl e ↦ rw e v
  | inr (call, e, rest, h) ↦ rw e (succeed-IsValid call n s rest h v)
]
step-IsValid m (failed n outcome) s v =
    elim (HasFlags-cases n s.out s.submitting s.reverting v.single) [
      | inl e ↦ rw e v
      | inr (call, e, rest, h) ↦ rw e (fail-IsValid call n outcome s rest h v)
    ]
step-IsValid m e s v = ground arith

run_from : (m : EditableMatch) (es : List Event) (s : Editor) → IsValid s → IsValid (run m es s)
unfolding run
run_from m [] s v = v
run_from m (e ∷ es) s v = run_from m es (step m e s) (step-IsValid m e s v)

opened-IsValid :
    (csrf : Option ℕ) (m : EditableMatch) (title : Text) → IsValid (opened csrf m title)
unfolding opened
opened-IsValid csrf m title = ground arith

-- After every sequence of events at most one call of the form is out, the one that its busy button
-- shows; and every correction that was sent has a name of three to 120 units without white space
-- around it, and a price that the parser of typed prices accepts.
pub run-IsValid :
    (csrf : Option ℕ) (m : EditableMatch) (title : Text) (es : List Event)
    → IsValid (run m es (opened csrf m title))
run-IsValid csrf m title es = run_from m es (opened csrf m title) (opened-IsValid csrf m title)

-- A save that the server refused is shown in exactly one place, the name, the price or the form, in
-- the server's words; what was typed stays, the form can be used again, and nothing counts as saved.
pub failed_save_shown :
    (m : EditableMatch) (s : Editor) (n id status : ℕ) (update : MatchUpdate) (detail : ErrorDetail)
    → call_at n s.out ≡ some (update_match id update)
    → s.name_error ≡ none
    → s.price_error ≡ none
    → s.form_error ≡ none
    → let t = step m (failed n (thrown detail status)) s in
      (t.name ≡ s.name)
      × (t.price ≡ s.price)
      × (t.submitting ≡ false)
      × (t.handed ≡ s.handed)
      × (((t.name_error ≡ some detail.message) × (t.price_error ≡ none) × (t.form_error ≡ none))
          ⊎ ((t.name_error ≡ none) × (t.price_error ≡ some detail.message) × (t.form_error ≡ none))
          ⊎ ((t.name_error ≡ none)
              × (t.price_error ≡ none)
              × (t.form_error ≡ some (server_message detail.message))))
unfolding step
failed_save_shown m s n id status update detail h a b c = ground arith

-- A target that the form shows is saved unchanged where nothing is typed, and whatever is typed, what
-- is saved is a positive safe amount; a text that is no price saves nothing.
pub submit_target_saves :
    (target : ℕ) (s : TargetEditor)
    → 0 < target
    → target ≤ max_safe
    → ((submit_target (show_target (some target) s)).saved ≡ target ∷ s.saved)
      × (((submit_target s).saved ≡ s.saved)
          ⊎ ((cents : ℕ) × ((submit_target s).saved ≡ cents ∷ s.saved)
              × (0 < cents)
              × (cents ≤ max_safe)))
unfolding submit_target show_target
submit_target_saves target s low high =
    (rw (parse-format_price_input target low high) refl, saved (parse_price_input s.value) refl)
  where
    saved :
        (result : PriceInputResult)
        → parse_price_input s.value ≡ result
        → ((take_target result s).saved ≡ s.saved)
          ⊎ ((cents : ℕ) × ((take_target result s).saved ≡ cents ∷ s.saved)
              × (0 < cents)
              × (cents ≤ max_safe))
    saved (failure error) h = inl refl
    saved (success cents) h =
        let (positive, safe) = parse_price_input-bounds s.value cents h in
        inr (cents, refl, positive, safe)

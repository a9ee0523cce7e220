-- ===== src/Writes/DeletionLaws.antt =====
-- What is deleted was asked for and confirmed, and each answer is told once.
use teleyes.Common.{
  ℕ, ◌≡◌, ◌⊎◌, refl, inl, inr, ◌==◌, Bool-cases, Bool, true, false, Option, none, some, List, [],
  ◌∷◌, ◌++◌, length, ◌+◌, ◌≤◌, arith, All, call_at, without_at, IsOnly, if_cases, call_cases,
  none_out, subst,
}
use teleyes.Session.Http.{Outcome, returned, thrown}
use teleyes.Writes.Failures.{report_failure}
use teleyes.Writes.Deletion.{
  Target, Deletion, opened, confirm_target, settle, answer_for, Event, asked, answered, step, run,
}

abbrev In : Target → List Target → Type 0
In t [] = ⊥
In t (u ∷ us) = (t ≡ u) ⊎ In t us

-- The dialog is busy exactly while a call is out, there is one at most, it is one of those that were
-- sent, and only sent targets count as deleted, each at most once for each time that it was sent.
pub record IsOrderly (s : Deletion) : Type 0 where
  pub single : IsOnly s.busy s.out
  pub requested : All (λ t. In t s.sent) s.out
  pub confirmed : All (λ t. In t s.sent) s.deleted
  pub counted : length s.deleted + length s.out ≤ length s.sent

All-later :
    (t : Target) (us sent : List Target) → All (λ u. In u sent) us → All (λ u. In u (t ∷ sent)) us
All-later t [] sent h = tt
All-later t (u ∷ us) sent (p, h) = (inr p, All-later t us sent h)

confirm_target-IsOrderly :
    (target : Option Target) (csrf : Option ℕ) (s : Deletion)
    → IsOrderly s
    → s.busy ≡ false
    → IsOrderly (confirm_target target csrf s)
unfolding confirm_target
confirm_target-IsOrderly none csrf s v b = v
confirm_target-IsOrderly (some t) none s v b = ground arith
confirm_target-IsOrderly (some t) (some token) s v b =
    let free = none_out s.busy s.out v.single b in
    record {
      single = rw free refl;
      requested = rw free (inl refl, tt);
      confirmed = All-later t s.deleted s.sent v.confirmed;
      counted = rw free (let c = v.counted in ground arith);
    }

settle-IsOrderly :
    (t : Target) (outcome : Outcome) (s : Deletion)
    → s.out ≡ []
    → In t s.sent
    → All (λ u. In u s.sent) s.deleted
    → length s.deleted + 1 ≤ length s.sent
    → IsOrderly (settle t outcome s)
unfolding settle
settle-IsOrderly t (returned body) s free sent known fewer = ground arith
settle-IsOrderly t (thrown detail status) s free sent known fewer =
    elim (Bool-cases (status == 404)) [ inl e ↦ rw e (ground arith) | inr e ↦ rw e (ground arith) ]
settle-IsOrderly t outcome s free sent known fewer = ground arith

answered-IsOrderly :
    (n : ℕ) (outcome : Outcome) (s : Deletion)
    → IsOrderly s
    → IsOrderly (answer_for (call_at n s.out) n outcome s)
unfolding answer_for
answered-IsOrderly n outcome s v = elim (call_cases n s.busy s.out v.single) [
  | inl e ↦ rw e v
  | inr (t, e, only, rest, b) ↦
      let sent = (subst (All (λ u. In u s.sent)) only v.requested).0 in
      let fewer = subst (λ us. length s.deleted + length us ≤ length s.sent) only v.counted in
      rw e (settle-IsOrderly t outcome _ rest sent v.confirmed fewer)
]

step-IsOrderly : (e : Event) (s : Deletion) → IsOrderly s → IsOrderly (step e s)
unfolding step
step-IsOrderly (asked target) s v = ground arith
step-IsOrderly Event.confirmed s v =
    if_cases IsOrderly s.busy (λ b. v) (confirm_target-IsOrderly s.target s.csrf s v)
step-IsOrderly (answered n outcome) s v = answered-IsOrderly n outcome s v
step-IsOrderly Event.cancelled s v =
    if_cases IsOrderly s.busy (λ b. v)
      λ _. record {
        single = v.single;
        requested = v.requested;
        confirmed = v.confirmed;
        counted = v.counted;
      }
step-IsOrderly (Event.csrf_changed csrf) s v = ground arith

run_from : (es : List Event) (s : Deletion) → IsOrderly s → IsOrderly (run es s)
unfolding run
run_from [] s v = v
run_from (e ∷ es) s v = run_from es (step e s) (step-IsOrderly e s v)

opened-IsOrderly : (csrf : Option ℕ) → IsOrderly (opened csrf)
unfolding opened
opened-IsOrderly csrf = ground arith

-- After every sequence of events one call at most is out and the dialog is busy exactly while it is;
-- that call and every deletion that was reported belong to a target that was confirmed and sent, and
-- the reported deletions and the call that is out are no more than the calls that were sent.
pub run-IsOrderly : (es : List Event) (csrf : Option ℕ) → IsOrderly (run es (opened csrf))
run-IsOrderly es csrf = run_from es (opened csrf) (opened-IsOrderly csrf)

abbrev pub is_gone : Outcome → Bool
is_gone (returned body) = true
is_gone (thrown detail status) = status == 404
is_gone _ = false

-- An answer to a call that is out ends that call. One that says that the target is gone, a 404 included, closes the dialog, is told by one toast
-- and runs `onDeleted` once, with the target that was sent whatever is asked for since. Any other
-- answer keeps the dialog for another try, and shows what `reportFailure` shows.
pub answer_told :
    (s : Deletion) (target : Target) (n : ℕ) (outcome : Outcome)
    → call_at n s.out ≡ some target
    → let t = step (answered n outcome) s in
      (t.busy ≡ false)
      × (t.out ≡ without_at n s.out)
      × (((is_gone outcome ≡ true)
            × (t.target ≡ none)
            × (t.deleted ≡ target ∷ s.deleted)
            × (length t.toasts ≡ length s.toasts + 1))
          ⊎ ((is_gone outcome ≡ false)
              × (t.target ≡ s.target)
              × (t.deleted ≡ s.deleted)
              × (t.toasts ≡ report_failure outcome ++ s.toasts)))
unfolding step
answer_told s target n (returned body) h = rw h (ground arith)
answer_told s target n (thrown detail status) h = rw h (ground arith)
answer_told s target n outcome h = rw h (ground arith)

-- ===== src/Setup/GroupsLaws.antt =====
-- The groups that are sent, and the polling of the list.
use teleyes.Common.{
  ℕ, ◌≡◌, refl, inl, inr, Bool, false, not, ◌||◌, Option, List, [], ◌∷◌, ◌++◌, ◌==◌, keep, All,
  arith, Bool-cases, IsOnly, call_cases, none_out,
}
use teleyes.Text.{Text}
use teleyes.Setup.Groups.{
  GroupsStep, opened, has, toggle, is_nothing, in_progress, Event, toggled, choice_saved,
  choice_refused, save_clicked, step, run,
}

-- No id twice.
abbrev pub IsChoice : List ℕ → Type 0
IsChoice [] = Unit
IsChoice (i ∷ ids) = (has i ids ≡ false) × IsChoice ids

has-keep : (p : ℕ → Bool) (i : ℕ) (ids : List ℕ) → has i ids ≡ false → has i (keep p ids) ≡ false
has-keep p i [] h = refl
has-keep p i (j ∷ ids) h = elim (Bool-cases (p j)) [
  | inl e ↦ rw e (ground (arith, h, has-keep p i ids))
  | inr e ↦ rw e (ground (arith, h, has-keep p i ids))
]

keep-IsChoice : (p : ℕ → Bool) (ids : List ℕ) → IsChoice ids → IsChoice (keep p ids)
keep-IsChoice p [] h = tt
keep-IsChoice p (i ∷ ids) (q, h) = elim (Bool-cases (p i)) [
  | inl e ↦ rw e (has-keep p i ids q, keep-IsChoice p ids h)
  | inr e ↦ rw e (keep-IsChoice p ids h)
]

has-append : (i id : ℕ) (ids : List ℕ) → has i (ids ++ id ∷ []) ≡ (has i ids || id == i)
has-append i id [] = ground arith
has-append i id (j ∷ ids) = ground (arith, has-append i id ids)

append-IsChoice :
    (id : ℕ) (ids : List ℕ) → has id ids ≡ false → IsChoice ids → IsChoice (ids ++ id ∷ [])
append-IsChoice id [] n h = (refl, tt)
append-IsChoice id (i ∷ ids) n (q, h) =
    (ground (arith, n, q, has-append i id ids), append-IsChoice id ids (ground (arith, n)) h)

toggle-IsChoice : (id : ℕ) (ids : List ℕ) → IsChoice ids → IsChoice (toggle id ids)
unfolding toggle
toggle-IsChoice id ids h = elim (Bool-cases (has id ids)) [
  | inl e ↦ rw e (keep-IsChoice (λ i. not (i == id)) ids h)
  | inr e ↦ rw e (append-IsChoice id ids e h)
]

-- One choice at most is out, the step is busy exactly while one is, no choice is empty or has a group twice, and the list
-- is read again by the timer exactly while it is being made.
pub record IsChosen (s : GroupsStep) : Type 0 where
  pub single : IsOnly s.busy s.out
  pub selected_once : IsChoice s.selected
  pub sent_once : All (λ ids. (is_nothing ids ≡ false) × IsChoice ids) s.sent
  pub polled : s.timer ≡ in_progress s.groups

module _ (lower : Text → Text) where
  step-IsChosen : (e : Event) (s : GroupsStep) → IsChosen s → IsChosen (step lower e s)
  unfolding step
  step-IsChosen (toggled id) s v = ground (arith, toggle-IsChoice id s.selected)
  step-IsChosen save_clicked s v = ground (arith, none_out s.busy s.out v.single)
  step-IsChosen (choice_saved n created) s v = elim (call_cases n s.busy s.out v.single) [
    | inl e ↦ rw e v
    | inr (ids, e, only, rest, b) ↦ rw (e, rest) (ground arith)
  ]
  step-IsChosen (choice_refused n failure) s v = elim (call_cases n s.busy s.out v.single) [
    | inl e ↦ rw e v
    | inr (ids, e, only, rest, b) ↦ rw (e, rest) (ground arith)
  ]
  step-IsChosen e s v = ground arith

  run_from : (es : List Event) (s : GroupsStep) → IsChosen s → IsChosen (run lower es s)
  unfolding run
  run_from [] s v = v
  run_from (e ∷ es) s v = run_from es (step lower e s) (step-IsChosen e s v)

  opened-IsChosen : (csrf : Option ℕ) (ready : Bool) → IsChosen (opened csrf ready)
  unfolding opened
  opened-IsChosen csrf ready = ground arith

  -- After every sequence of events one choice at most is out, and the step is busy exactly while one is; no choice that was
  -- sent is empty or names a group twice; and the timer that reads the list again runs exactly while the
  -- last list says that it is still being made.
  pub run-IsChosen :
      (csrf : Option ℕ) (ready : Bool) (es : List Event)
      → IsChosen (run lower es (opened csrf ready))
  run-IsChosen csrf ready es = run_from es (opened csrf ready) (opened-IsChosen csrf ready)

-- ===== src/Terms/Chips.antt =====
-- apps/web/src/components/TermChipsInput.tsx: the chips of a list of terms and the text typed behind them.
use teleyes.Common.{ℕ, Bool, not, Option, none, some, List, [], ◌∷◌, ◌==◌, if◌then◌else◌}
use teleyes.Text.{Text, trim}
use teleyes.Terms.TermList.{is_empty, parse_term_list, add_terms, remove_term}

-- `value` is the stored text, as the parent gives it back after `onChange`.
pub record Chips : Type 0 where
  pub value : Text
  pub draft : Text

-- The text before and behind the last comma, if there is one.
unfoldable pub split_last : Text → Option (Text × Text)
split_last [] = none
split_last (c ∷ cs) = elim (split_last cs) [
  | some (before, after) ↦ some (c ∷ before, after)
  | none ↦ if c == b',' then some ([], cs) else none
]

abbrev pub last_of : List Text → Option Text
last_of [] = none
last_of (t ∷ []) = some t
last_of (t ∷ u ∷ us) = last_of (u ∷ us)

abbrev pub no_comma : ℕ → Bool
no_comma c = not (c == b',')

pub data Event : Type 0 where
  changed : Text → Event
  entered backspaced blurred : Event
  -- The cross of a chip.
  removed : Text → Event

module _ (lower : Text → Text) where
  unfoldable pub commit_draft : Chips → Chips
  commit_draft s =
      if is_empty (trim s.draft)
      then record s { draft = [] }
      else record { value = add_terms lower s.value s.draft; draft = [] }

  -- `handleChange`: every segment before the last comma becomes a chip.
  abbrev pub change_to : Text → Option (Text × Text) → Chips → Chips
  change_to typed none s = record s { draft = typed }
  change_to typed (some (before, after)) s = record {
    value = add_terms lower s.value before;
    draft = after;
  }

  unfoldable pub handle_change : Text → Chips → Chips
  unfolding split_last
  handle_change typed s = change_to typed (split_last typed) s

  abbrev pub drop_chip : Option Text → Chips → Chips
  drop_chip none s = s
  drop_chip (some term) s = record s { value = remove_term lower s.value term }

  -- `handleKeyDown`: Enter on a filled draft, and Backspace on an empty one.
  unfoldable pub press_enter : Chips → Chips
  unfolding commit_draft
  press_enter s = if is_empty (trim s.draft) then s else commit_draft s

  unfoldable pub press_backspace : Chips → Chips
  press_backspace s =
      if is_empty s.draft then drop_chip (last_of (parse_term_list lower s.value)) s else s

  unfoldable pub step : Event → Chips → Chips
  unfolding handle_change press_enter press_backspace commit_draft
  step (changed typed) s = handle_change typed s
  step entered s = press_enter s
  step backspaced s = press_backspace s
  step blurred s = commit_draft s
  step (removed term) s = record s { value = remove_term lower s.value term }

  unfoldable pub run : List Event → Chips → Chips
  run [] s = s
  run (e ∷ es) s = run es (step e s)

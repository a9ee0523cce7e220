-- ===== src/Writes/Target.antt =====
-- `TargetEditor` of apps/web/src/components/ProductPanel.tsx: the form of a target.
use teleyes.Common.{ℕ, Option, none, some, List, ◌∷◌}
use teleyes.Text.{Text}
use teleyes.Price.Input.{PriceInputResult, success, failure, PriceError, parse_price_input}
use teleyes.Price.Format.{format_price_input}

-- `TargetEditor`: the field, its error, and the targets that were handed to `onSave`.
pub record TargetEditor : Type 0 where
  pub value : Text
  pub error : Option PriceError
  pub saved : List ℕ

-- The effect of `[targetPriceCents, ruleName]`, which the first render runs too.
unfoldable pub show_target : Option ℕ → TargetEditor → TargetEditor
show_target target s = record s { value = format_price_input target; error = none }

unfoldable pub take_target : PriceInputResult → TargetEditor → TargetEditor
take_target (success cents) s = record s { error = none; saved = cents ∷ s.saved }
take_target (failure error) s = record s { error = some error }

unfoldable pub submit_target : TargetEditor → TargetEditor
unfolding take_target
submit_target s = take_target (parse_price_input s.value) s

-- ===== src/Purchases/Form.antt =====
-- apps/web/src/economia/PurchaseForm.tsx: the fields of a purchase, and the search for the product or the
-- rule that it is linked to. `Date`, which makes an instant of a picked day, is a parameter.
use teleyes.Common.{
  ℕ, zero, suc, Bool, true, false, not, ◌||◌, Option, none, some, List, [], ◌∷◌, ltb, ◌==◌,
  if◌then◌else◌, length,
}
use teleyes.Text.{Text, trim, text_eq}
use teleyes.Price.Input.{PriceInputResult, PriceError, success, failure, parse_price_input}
use teleyes.Terms.TermList.{is_empty}
use teleyes.Dates.Stamp.{text_ge}

-- `LinkOption`
pub record LinkOption : Type 0 where
  pub product_key : Option Text
  pub rule_id : Option ℕ
  pub label : Text

-- `PurchaseFormValues`
pub record FormValues : Type 0 where
  pub name : Text
  pub price : Text
  pub day : Text
  pub store : Text
  pub product_key : Option Text
  pub rule_id : Option ℕ
  pub link_label : Option Text

pub record PurchaseInput : Type 0 where
  pub name : Text
  pub price_cents : ℕ
  pub purchased_at : Text
  pub store : Option Text
  pub product_key : Option Text
  pub rule_id : Option ℕ

pub data FieldError : Type 0 where
  name_missing day_missing day_in_future : FieldError
  price_wrong : PriceError → FieldError

-- What the last run of the effect waits for: its timer, or the answer to the query that it asked.
pub data Search : Type 0 where
  idle : Search
  debouncing looking : Text → Search

-- `effect` counts the runs of the effect. Three lists keep what happened, the latest first: `asked` the
-- calls of `onSearch`, each with the run that made it; `shown` the answers that were taken, by the query
-- that was asked and what the field held then, without the white space around it; `handed` what was
-- given to `onSubmit`, with the day on which it was.
pub record Form : Type 0 where
  pub values : FormValues
  pub field_error : Option FieldError
  pub query : Text
  pub options : List LinkOption
  pub searching : Bool
  pub effect : ℕ
  pub search : Search
  pub asked : List (ℕ × Text)
  pub shown : List (Option Text × Text)
  pub handed : List (Text × PurchaseInput)

unfoldable pub opened : FormValues → Form
opened initial = record {
  values = initial;
  field_error = none;
  query = [];
  options = [];
  searching = false;
  effect = 0;
  search = idle;
  asked = [];
  shown = [];
  handed = [];
}

-- The effect of `[query, onSearch]`, after the cleanup of the run before it.
unfoldable pub rerun : Form → Form
rerun s =
    if ltb (length (trim s.query)) 2
    then record s { effect = suc s.effect; options = []; search = idle }
    else record s { effect = suc s.effect; search = debouncing (trim s.query) }

-- `setQuery`: the effect depends on the text.
unfoldable pub set_query : Text → Form → Form
unfolding rerun
set_query text s = if text_eq text s.query then s else rerun (record s { query = text })

unfoldable pub picked_values : LinkOption → FormValues → FormValues
picked_values option values = record values {
  product_key = option.product_key;
  rule_id = option.rule_id;
  link_label = some option.label;
  name = if is_empty (trim values.name) then option.label else values.name;
}

unfoldable pub pick : LinkOption → Form → Form
unfolding set_query picked_values
pick option s = record (set_query [] (record s { values = picked_values option s.values })) {
  options = [];
}

abbrev pub option_at : ℕ → List LinkOption → Option LinkOption
option_at n [] = none
option_at zero (option ∷ options) = some option
option_at (suc n) (option ∷ options) = option_at n options

abbrev pub is_some {ℓ} : {A : Type ℓ} → Option A → Bool
is_some none = false
is_some (some x) = true

-- The field of the query gives way to the link.
unfoldable pub is_linked : FormValues → Bool
is_linked values = is_some values.link_label || is_some values.product_key || is_some values.rule_id

abbrev pub non_empty : Text → Option Text
non_empty text = if is_empty text then none else some text

pub data Event : Type 0 where
  name_typed price_typed day_chosen store_typed query_typed : Text → Event
  unlinked timer_fired searcher_changed : Event
  -- The answer to the search of a run of the effect; none is a failure.
  found : ℕ → Option (List LinkOption) → Event
  picked : ℕ → Event
  -- With `submitting`, and the day of the render.
  submitted : Bool → Text → Event

abbrev pub fire : Search → Form → Form
fire (debouncing query) s = record s {
  searching = true;
  search = looking query;
  asked = (s.effect, query) ∷ s.asked;
}
fire _ s = s

abbrev pub or_nothing : Option (List LinkOption) → List LinkOption
or_nothing none = []
or_nothing (some options) = options

-- The query that a run of the effect asked for.
abbrev pub asked_by : ℕ → List (ℕ × Text) → Option Text
asked_by effect [] = none
asked_by effect ((run, query) ∷ asked) = if run == effect then some query else asked_by effect asked

abbrev pub take_found : Search → ℕ → Option (List LinkOption) → Form → Form
take_found (looking query) effect answer s = record s {
  shown = (asked_by effect s.asked, trim s.query) ∷ s.shown;
  options = or_nothing answer;
  searching = false;
  search = idle;
}
take_found _ effect answer s = s

abbrev pub pick_at : Option LinkOption → Form → Form
pick_at none s = s
pick_at (some option) s = pick option s

module _ (input_date_to_api : Text → Text) where
  -- The checks of `submit` behind that of the price.
  unfoldable pub submit_cents : Text → Text → PriceInputResult → Form → Form
  submit_cents today name (failure error) s = record s { field_error = some (price_wrong error) }
  submit_cents today name (success cents) s =
      if is_empty s.values.day
      then record s { field_error = some day_missing }
      else if not (text_ge today s.values.day)
      then record s { field_error = some day_in_future }
      else record s {
        field_error = none;
        handed =
            (
              today,
              record {
                name = name;
                price_cents = cents;
                purchased_at = input_date_to_api s.values.day;
                store = non_empty (trim s.values.store);
                product_key = s.values.product_key;
                rule_id = s.values.rule_id;
              },
            )
            ∷ s.handed;
      }

  unfoldable pub submit : Text → Form → Form
  unfolding submit_cents
  submit today s =
      if is_empty (trim s.values.name)
      then record s { field_error = some name_missing }
      else submit_cents today (trim s.values.name) (parse_price_input s.values.price) s

  unfoldable pub step : Event → Form → Form
  unfolding rerun set_query pick is_linked submit
  step (name_typed text) s = record s { values = record s.values { name = text } }
  step (price_typed text) s = record s { values = record s.values { price = text } }
  step (day_chosen text) s = record s { values = record s.values { day = text } }
  step (store_typed text) s = record s { values = record s.values { store = text } }
  step (query_typed text) s = if is_linked s.values then s else set_query text s
  step unlinked s = record s {
    values = record s.values { product_key = none; rule_id = none; link_label = none };
  }
  step timer_fired s = fire s.search s
  step searcher_changed s = rerun s
  step (found effect answer) s =
      if effect == s.effect then take_found s.search effect answer s else s
  step (picked n) s = pick_at (option_at n s.options) s
  step (submitted submitting today) s = if submitting then s else submit today s

  unfoldable pub run : List Event → Form → Form
  run [] s = s
  run (e ∷ es) s = run es (step e s)

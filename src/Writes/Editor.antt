-- ===== src/Writes/Editor.antt =====
-- `ProductEditor` of apps/web/src/components/ProductPanel.tsx: the form that corrects a match.
use teleyes.Common.{
  ℕ, ◌+◌, Bool, true, false, not, ◌&&◌, ◌||◌, Option, none, some, List, [], ◌∷◌, map, leb, ◌==◌,
  if◌then◌else◌, length, call_at, without_at,
}
use teleyes.Text.{Text, codes, trim, includes}
use teleyes.Price.Input.{PriceInputResult, success, failure, parse_price_input}
use teleyes.Price.Format.{format_price_input, format_price_for_api}
use teleyes.Session.Http.{Outcome, thrown}

-- The fields of `EditableMatch` that the form reads.
pub record EditableMatch : Type 0 where
  pub id : ℕ
  pub price_cents : Option ℕ
  pub display_name : Option Text
  pub price_is_manual : Bool
  pub has_model_variant : Bool

pub record MatchUpdate : Type 0 where
  pub display_name : Text
  pub price : Text
  pub apply_name_to_product : Bool

pub data Call : Type 0 where
  update_match : ℕ → MatchUpdate → Call
  revert_match : ℕ → Call

pub data FormError : Type 0 where
  csrf_missing save_failed revert_failed : FormError
  server_message : Text → FormError

-- The state of the form; `out` lists the calls that are not answered, `sent` all calls, `handed` counts
--  the runs of `onSaved` and `onReverted`.
pub record Editor : Type 0 where
  pub csrf : Option ℕ
  pub name : Text
  pub price : Text
  pub apply_name : Bool
  pub name_touched : Bool
  pub price_touched : Bool
  pub submitting : Bool
  pub reverting : Bool
  pub name_error : Option Text
  pub price_error : Option Text
  pub form_error : Option FormError
  pub out : List Call
  pub sent : List Call
  pub handed : ℕ

abbrev pub or_title : Option Text → Text → Text
or_title none title = title
or_title (some name) title = name

-- The form of a match, for the product with the title given.
unfoldable pub opened : Option ℕ → EditableMatch → Text → Editor
opened csrf m title = record {
  csrf = csrf;
  name = or_title m.display_name title;
  price = format_price_input m.price_cents;
  apply_name = false;
  name_touched = false;
  price_touched = false;
  submitting = false;
  reverting = false;
  name_error = none;
  price_error = none;
  form_error = none;
  out = [];
  sent = [];
  handed = 0;
}

-- `nameError === null`
unfoldable pub name_fits : Text → Bool
name_fits name = leb 3 (length (trim name)) && leb (length (trim name)) 120

abbrev pub is_success : PriceInputResult → Bool
is_success (success cents) = true
is_success (failure error) = false

unfoldable pub can_submit : Editor → Bool
unfolding name_fits
can_submit s =
    name_fits s.name
    && is_success (parse_price_input s.price)
    && not s.submitting
    && not s.reverting

unfoldable pub can_revert : EditableMatch → Bool
can_revert m =
    m.price_is_manual || elim m.display_name [ none ↦ m.has_model_variant | some name ↦ true ]

-- The case folding of `/…/i` for the units of the two patterns.
abbrev pub fold_case : ℕ → ℕ
fold_case c = if leb b'A' c && leb c b'Z' then c + 32 else if c == 0xc7 then 0xe7 else c

-- `/nome|display_name/i` and `/preço|price/i`
unfoldable pub names_name : Text → Bool
names_name message =
    let text = map fold_case message in
    includes (codes "nome") text || includes (codes "display_name") text

unfoldable pub names_price : Text → Bool
names_price message =
    let text = map fold_case message in
    includes (codes "preço") text || includes (codes "price") text

-- `surfaceServerError`: the message of an ApiError goes to the field that it names.
unfoldable pub surface_server_error : Outcome → Editor → Editor
unfolding names_name names_price
surface_server_error (thrown detail status) s =
    if names_name detail.message
    then record s { name_error = some detail.message }
    else if names_price detail.message
    then record s { price_error = some detail.message }
    else record s { form_error = some (server_message detail.message) }
surface_server_error outcome s = record s { form_error = some save_failed }

unfoldable pub cleared : Editor → Editor
cleared s = record s { name_error = none; price_error = none; form_error = none }

-- `handleSubmit` up to the call, for the reading of the price.
unfoldable pub submit_price : ℕ → PriceInputResult → Editor → Editor
unfolding can_submit
submit_price id (failure error) s = s
submit_price id (success cents) s = if not (can_submit s) then s else elim s.csrf [
  | none ↦ record s { form_error = some csrf_missing }
  | some token ↦
      let call = update_match id (record {
        display_name = trim s.name;
        price = format_price_for_api cents;
        apply_name_to_product = s.apply_name;
      }) in
      record s { submitting = true; out = call ∷ s.out; sent = call ∷ s.sent }
]

unfoldable pub handle_submit : ℕ → Editor → Editor
unfolding cleared submit_price
handle_submit id s =
    let touched = record (cleared s) { name_touched = true; price_touched = true } in
    submit_price id (parse_price_input s.price) touched

unfoldable pub handle_revert : ℕ → Editor → Editor
unfolding cleared
handle_revert id s = elim s.csrf [
  | none ↦ record (cleared s) { form_error = some csrf_missing }
  | some token ↦ record (cleared s) {
    reverting = true;
    out = revert_match id ∷ s.out;
    sent = revert_match id ∷ s.sent;
  }
]

unfoldable pub revert_error : Outcome → FormError
revert_error (thrown detail status) = server_message detail.message
revert_error outcome = revert_failed

-- The answers to a call that is out, by its place in `out`.
unfoldable pub fail : Option Call → ℕ → Outcome → Editor → Editor
unfolding surface_server_error revert_error
fail none n outcome s = s
fail (some (update_match id update)) n outcome s = record (surface_server_error outcome s) {
  submitting = false;
  out = without_at n s.out;
}
fail (some (revert_match id)) n outcome s = record s {
  form_error = some (revert_error outcome);
  reverting = false;
  out = without_at n s.out;
}

unfoldable pub succeed : Option Call → ℕ → Editor → Editor
succeed none n s = s
succeed (some (update_match id update)) n s = record s {
  submitting = false;
  out = without_at n s.out;
  handed = s.handed + 1;
}
succeed (some (revert_match id)) n s = record s {
  reverting = false;
  out = without_at n s.out;
  handed = s.handed + 1;
}

pub data Event : Type 0 where
  name_typed price_typed : Text → Event
  name_left price_left switched submitted reverted : Event
  succeeded : ℕ → Event
  failed : ℕ → Outcome → Event

-- A disabled button does nothing.
unfoldable pub step : EditableMatch → Event → Editor → Editor
unfolding handle_submit handle_revert can_revert succeed fail
step m (name_typed text) s = record s { name = text; name_error = none }
step m (price_typed text) s = record s { price = text; price_error = none }
step m name_left s = record s { name_touched = true }
step m price_left s = record s { price_touched = true }
step m switched s = record s { apply_name = not s.apply_name }
step m submitted s = handle_submit m.id s
step m reverted s =
    if can_revert m && not s.submitting && not s.reverting then handle_revert m.id s else s
step m (succeeded n) s = succeed (call_at n s.out) n s
step m (failed n outcome) s = fail (call_at n s.out) n outcome s

unfoldable pub run : EditableMatch → List Event → Editor → Editor
run m [] s = s
run m (e ∷ es) s = run m es (step m e s)

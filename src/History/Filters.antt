-- ===== src/History/Filters.antt =====
-- apps/web/src/pages/HistoricoPage.tsx: the filters of the page, as they are stored and as they are sent.
-- What `JSON.parse` does to a text is left out.
use teleyes.Common.{
  ℕ, Bool, true, false, not, ◌||◌, Option, none, some, List, [], ◌∷◌, any, all, if◌then◌else◌,
}
use teleyes.Text.{Text, codes, text_eq, trim}
use teleyes.Json.{Json, string, object, Fields, end, field, get}
use teleyes.Price.Input.{parse_optional_price_input, cents_of}

pub data MatchSort : Type 0 where
  no_sort price_asc price_desc : MatchSort

pub record FilterForm : Type 0 where
  pub search : Text
  pub rule_id : Text
  pub source_id : Text
  pub recipient_id : Text
  pub min_price_reais : Text
  pub max_price_reais : Text
  pub delivery_status : Text
  pub sort : MatchSort

unfoldable pub empty_filters : FilterForm
empty_filters = record {
  search = [];
  rule_id = [];
  source_id = [];
  recipient_id = [];
  min_price_reais = [];
  max_price_reais = [];
  delivery_status = [];
  sort = no_sort;
}

abbrev pub filter_form_keys : List Text
filter_form_keys =
    codes "search"
    ∷ codes "ruleId"
    ∷ codes "sourceId"
    ∷ codes "recipientId"
    ∷ codes "minPriceReais"
    ∷ codes "maxPriceReais"
    ∷ codes "deliveryStatus"
    ∷ codes "sort"
    ∷ []

abbrev pub sort_text : MatchSort → Text
sort_text no_sort = []
sort_text price_asc = codes "price_asc"
sort_text price_desc = codes "price_desc"

-- `SORT_VALUES.includes(…)`
unfoldable pub sort_of : Text → Option MatchSort
sort_of text =
    if text_eq text []
    then some no_sort
    else if text_eq text (codes "price_asc")
    then some price_asc
    else if text_eq text (codes "price_desc")
    then some price_desc
    else none

unfoldable pub has_unknown_field : Fields → Bool
has_unknown_field end = false
has_unknown_field (field key value rest) =
    not (any (λ known. text_eq known key) filter_form_keys) || has_unknown_field rest

-- The check of one key: a value that is there is a text.
abbrev pub is_text : Option Json → Bool
is_text (some (string text)) = true
is_text none = true
is_text _ = false

abbrev pub text_or : Text → Option Json → Text
text_or text (some (string found)) = found
text_or text _ = text

abbrev pub sort_or : Option Json → Option MatchSort
sort_or (some (string found)) = sort_of found
sort_or none = some no_sort
sort_or _ = none

-- `{ ...EMPTY_FILTERS, ...record }`
abbrev pub merged : Fields → MatchSort → FilterForm
merged record_fields sort = record {
  search = text_or [] (get (codes "search") record_fields);
  rule_id = text_or [] (get (codes "ruleId") record_fields);
  source_id = text_or [] (get (codes "sourceId") record_fields);
  recipient_id = text_or [] (get (codes "recipientId") record_fields);
  min_price_reais = text_or [] (get (codes "minPriceReais") record_fields);
  max_price_reais = text_or [] (get (codes "maxPriceReais") record_fields);
  delivery_status = text_or [] (get (codes "deliveryStatus") record_fields);
  sort = sort;
}

abbrev pub with_sort : Fields → Option MatchSort → Option FilterForm
with_sort record_fields none = none
with_sort record_fields (some sort) = some (merged record_fields sort)

unfoldable pub parse_fields : Fields → Option FilterForm
parse_fields record_fields =
    if has_unknown_field record_fields
    then none
    else if all (λ key. is_text (get key record_fields)) filter_form_keys
    then with_sort record_fields (sort_or (get (codes "sort") record_fields))
    else none

-- `parseStoredHistoricoFilters`; `none` is a text that is no JSON.
unfoldable pub parse_stored_historico_filters : Option Json → Option FilterForm
parse_stored_historico_filters (some (object record_fields)) = parse_fields record_fields
parse_stored_historico_filters _ = none

-- `JSON.stringify` of a form.
unfoldable pub stored_form : FilterForm → Json
stored_form form = object (
    field (codes "search") (string form.search) (
      field (codes "ruleId") (string form.rule_id) (
        field (codes "sourceId") (string form.source_id) (
          field (codes "recipientId") (string form.recipient_id) (
            field (codes "minPriceReais") (string form.min_price_reais) (
              field (codes "maxPriceReais") (string form.max_price_reais) (
                field (codes "deliveryStatus") (string form.delivery_status)
                  (field (codes "sort") (string (sort_text form.sort)) end))))))))

pub record MatchFilters : Type 0 where
  pub search : Option Text
  pub rule_id : Option ℕ
  pub source_id : Option ℕ
  pub recipient_id : Option ℕ
  pub min_price_cents : Option ℕ
  pub max_price_cents : Option ℕ
  pub delivery_status : Option Text
  pub sort : MatchSort

abbrev pub filled : Text → Option Text
filled [] = none
filled (c ∷ text) = some (c ∷ text)

-- `number` is `Number` of a text that the page's own options put in the form.
abbrev pub filled_number : (Text → ℕ) → Text → Option ℕ
filled_number number [] = none
filled_number number (c ∷ text) = some (number (c ∷ text))

unfoldable pub to_api_filters : (Text → ℕ) → FilterForm → MatchFilters
to_api_filters number form = record {
  search = filled (trim form.search);
  rule_id = filled_number number form.rule_id;
  source_id = filled_number number form.source_id;
  recipient_id = filled_number number form.recipient_id;
  min_price_cents = cents_of (parse_optional_price_input form.min_price_reais);
  max_price_cents = cents_of (parse_optional_price_input form.max_price_reais);
  delivery_status = filled form.delivery_status;
  sort = form.sort;
}

-- ===== src/History/Persistent.antt =====
-- apps/web/src/hooks/usePersistentFilters.ts, which keeps a form in `sessionStorage`, and the codec of the
-- Histórico page. What `JSON.parse` and `JSON.stringify` do to a text is left out: the storage
-- holds the JSON value, or a text that is none.
use teleyes.Common.{◌≡◌, refl, ap, Bool, false, Option, none, some, arith, if◌then◌else◌}
use teleyes.Text.{text_eq}
use teleyes.Json.{Json, get}
use teleyes.History.Filters.{
  FilterForm, empty_filters, sort_of, has_unknown_field, parse_fields,
  parse_stored_historico_filters, stored_form,
}

-- The state of `usePersistentFilters`: `stored` is the entry of the storage, which throws at every access
-- while `blocked`.
pub record Persistent (T : Type 0) : Type 0 where
  pub value : T
  pub stored : Option (Option Json)
  pub blocked : Bool

pub record Codec (T : Type 0) : Type 0 where
  pub empty_value : T
  pub parse : Option Json → Option T
  pub stringify : T → Json

abbrev pub or_value {ℓ} : {T : Type ℓ} → T → Option T → T
or_value value none = value
or_value value (some parsed) = parsed

module _ {T : Type 0} (codec : Codec T) where
  abbrev pub read_entry : Option (Option Json) → T
  read_entry none = codec.empty_value
  read_entry (some raw) = or_value codec.empty_value (codec.parse raw)

  unfoldable pub read_initial : Bool → Option (Option Json) → T
  read_initial blocked stored = if blocked then codec.empty_value else read_entry stored

  -- A mount of the page.
  unfoldable pub mount : Bool → Option (Option Json) → Persistent T
  unfolding read_initial
  mount blocked stored = record {
    value = read_initial blocked stored;
    stored = stored;
    blocked = blocked;
  }

  unfoldable pub set_value : (T → T) → Persistent T → Persistent T
  set_value next p =
      let resolved = next p.value in
      record p {
        value = resolved;
        stored = if p.blocked then p.stored else some (some (codec.stringify resolved));
      }

  unfoldable pub reset : Persistent T → Persistent T
  reset p = record p { value = codec.empty_value; stored = if p.blocked then p.stored else none }

  -- A codec reads what it writes.
  abbrev pub IsFaithful : Type 0
  IsFaithful = (value : T) → codec.parse (some (codec.stringify value)) ≡ some value

unfoldable pub historico_codec : Codec FilterForm
historico_codec = record {
  empty_value = empty_filters;
  parse = parse_stored_historico_filters;
  stringify = stored_form;
}

-- What the page stores is read back as the same form.
parse-stored_form :
    (form : FilterForm) → parse_stored_historico_filters (some (stored_form form)) ≡ some form
unfolding parse_stored_historico_filters parse_fields has_unknown_field stored_form get text_eq
    sort_of
parse-stored_form form = ground arith

historico_codec-IsFaithful : IsFaithful historico_codec
unfolding historico_codec
historico_codec-IsFaithful form = parse-stored_form form

-- Whatever was stored before, where the storage is not blocked a form that is set holds at once
-- and is there again after a reload; after a reset the form is empty, and so it is after a reload.
pub set_value-mount :
    (next : FilterForm → FilterForm) (p : Persistent FilterForm)
    → p.blocked ≡ false
    → let set = set_value historico_codec next p in
      let cleared = reset historico_codec set in
      (set.value ≡ next p.value)
      × ((mount historico_codec false set.stored).value ≡ next p.value)
      × (cleared.value ≡ empty_filters)
      × ((mount historico_codec false cleared.stored).value ≡ empty_filters)
unfolding set_value reset mount historico_codec
set_value-mount next p h =
    rw h (refl, ap (or_value empty_filters) (parse-stored_form (next p.value)), refl, refl)

-- ===== src/History/Csv.antt =====
-- apps/web/src/pages/HistoricoPage.tsx: `csvField` and `buildCsv`, the export of the table, and a reader of
-- such files.
use teleyes.Common.{
  ℕ, Bool, true, false, ◌||◌, ◌&&◌, Option, none, some, List, [], ◌∷◌, ◌++◌, map, any, ◌==◌,
  if◌then◌else◌,
}
use teleyes.Text.{Text, codes}

-- What the export reads of a row of the table.
pub record HistoricoRow : Type 0 where
  pub title : Text
  pub rule_name : Text
  pub source_name : Text
  pub csv_time : Text
  pub price_text : Text
  pub price_details : List Text
  pub delivery_label : Text
  pub recipient_names : List Text
  pub message_link : Option Text

-- `/[",\n]/.test(value)`
abbrev pub is_special : ℕ → Bool
is_special c = c == b'"' || (c == b',' || c == 10)

-- `value.replace(/"/g, '""')`
unfoldable pub double_quotes : Text → Text
double_quotes [] = []
double_quotes (c ∷ cs) =
    let rest = double_quotes cs in if c == b'"' then b'"' ∷ b'"' ∷ rest else c ∷ rest

unfoldable pub csv_field : Text → Text
unfolding double_quotes
csv_field value = if any is_special value then b'"' ∷ (double_quotes value ++ b'"' ∷ []) else value

-- `join`, for a list that is not empty.
abbrev pub join_from : Text → Text → List Text → Text
join_from separator text [] = text
join_from separator text (next ∷ texts) = text ++ (separator ++ join_from separator next texts)

unfoldable pub join : Text → List Text → Text
join separator [] = []
join separator (text ∷ texts) = join_from separator text texts

abbrev pub header : List Text
header =
    codes "Produto"
    ∷ codes "Regra"
    ∷ codes "Fonte"
    ∷ codes "Hora"
    ∷ codes "Preço"
    ∷ codes "Detalhe do preço"
    ∷ codes "Entrega"
    ∷ codes "Para"
    ∷ codes "Link"
    ∷ []

abbrev pub or_empty : Option Text → Text
or_empty none = []
or_empty (some text) = text

unfoldable pub cells : HistoricoRow → List Text
unfolding join
cells row =
    row.title
    ∷ row.rule_name
    ∷ row.source_name
    ∷ row.csv_time
    ∷ row.price_text
    ∷ join (codes " · ") row.price_details
    ∷ row.delivery_label
    ∷ join (codes ", ") row.recipient_names
    ∷ or_empty row.message_link
    ∷ []

-- A line of the file.
unfoldable pub csv_line : List Text → Text
csv_line fields = join (b',' ∷ []) (map csv_field fields)

unfoldable pub build_csv : List HistoricoRow → Text
build_csv rows = join (13 ∷ 10 ∷ []) (csv_line header ∷ map (λ row. csv_line (cells row)) rows)

-- A reader of RFC 4180. Its result is a list of lines whose first field is the rest of the one that is
-- being read. `closing` is behind a quote inside quotes, `newline` between the two units of a line's end.
pub data Mode : Type 0 where
  start plain quoted closing newline : Mode

abbrev pub add : ℕ → List (List Text) → List (List Text)
add c ((field ∷ fields) ∷ lines) = ((c ∷ field) ∷ fields) ∷ lines
add c ([] ∷ lines) = [] ∷ lines
add c [] = []

abbrev pub new_field : List (List Text) → List (List Text)
new_field (fields ∷ lines) = ([] ∷ fields) ∷ lines
new_field [] = []

abbrev pub new_line : List (List Text) → List (List Text)
new_line lines = ([] ∷ []) ∷ lines

abbrev pub starts_feed : Text → Bool
starts_feed [] = false
starts_feed (c ∷ cs) = c == 10

unfoldable pub read_csv : Mode → Text → List (List Text)
read_csv mode [] = ([] ∷ []) ∷ []
read_csv start (c ∷ cs) = elim (c == b'"') [
  | true ↦ read_csv quoted cs
  | false ↦ elim (c == b',') [
    | true ↦ new_field (read_csv start cs)
    | false ↦ elim (c == 13 && starts_feed cs) [
      | true ↦ read_csv newline cs
      | false ↦ add c (read_csv plain cs)
    ]
  ]
]
read_csv plain (c ∷ cs) = elim (c == b',') [
  | true ↦ new_field (read_csv start cs)
  | false ↦ elim (c == 13 && starts_feed cs) [
    | true ↦ read_csv newline cs
    | false ↦ add c (read_csv plain cs)
  ]
]
read_csv quoted (c ∷ cs) = elim (c == b'"') [
  | true ↦ read_csv closing cs
  | false ↦ add c (read_csv quoted cs)
]
read_csv closing (c ∷ cs) = elim (c == b'"') [
  | true ↦ add b'"' (read_csv quoted cs)
  | false ↦ elim (c == b',') [
    | true ↦ new_field (read_csv start cs)
    | false ↦ elim (c == 13 && starts_feed cs) [
      | true ↦ read_csv newline cs
      | false ↦ add c (read_csv plain cs)
    ]
  ]
]
read_csv newline (c ∷ cs) = new_line (read_csv start cs)

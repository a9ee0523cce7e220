-- ===== src/History/Tests.antt =====
-- Runs of the export and of the stored filters.
use teleyes.Common.{◌≡◌, refl, false, none, some, [], ◌∷◌, ◌++◌}
use teleyes.Text.{codes}
use teleyes.History.Csv.{
  HistoricoRow, double_quotes, csv_field, header, cells, build_csv, start, read_csv,
}
use teleyes.History.CsvLaws.{read_csv-build_csv}
use teleyes.History.Filters.{FilterForm, price_asc}
use teleyes.History.Persistent.{Persistent, historico_codec, mount}

-- A title with a comma, quotes and a line end.
abbrev row : HistoricoRow
row = record {
  title = codes "TV 50\", nova" ++ 10 ∷ codes "hoje";
  rule_name = codes "TV";
  source_name = codes "Loja";
  csv_time = codes "20/09/2026, 22:43:00";
  price_text = codes "R$ 1.999,00";
  price_details = codes "à vista" ∷ codes "cupom" ∷ [];
  delivery_label = codes "Entregue";
  recipient_names = [];
  message_link = none;
}

field_runs : csv_field (codes "a\"b") ≡ codes "\"a\"\"b\""
unfolding csv_field double_quotes
field_runs = refl

read_csv-build_csv_example : read_csv start (build_csv (row ∷ [])) ≡ header ∷ cells row ∷ []
read_csv-build_csv_example = read_csv-build_csv (row ∷ [])

abbrev cheapest : FilterForm → FilterForm
cheapest form = record form { search = codes "tv"; sort = price_asc }

-- A storage that holds a text that is no JSON.
abbrev broken : Persistent FilterForm
broken = mount historico_codec false (some none)

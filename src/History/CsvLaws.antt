-- ===== src/History/CsvLaws.antt =====
-- The export can be read back, whatever stands in its fields.
use teleyes.Common.{
  ℕ, ◌≡◌, refl, sym, ap, subst, ◌∙◌, inl, inr, Bool, true, false, ◌||◌, ◌&&◌, List, [], ◌∷◌, ◌++◌,
  map, any, ◌==◌, arith, Bool-cases,
}
use teleyes.Text.{Text, codes}
use teleyes.History.Csv.{
  HistoricoRow, is_special, double_quotes, csv_field, join_from, join, header, cells, csv_line,
  build_csv, start, plain, quoted, closing, add, new_field, new_line, starts_feed, read_csv,
}

-- What can stand behind a field: the end, a comma, or a line's end.
abbrev pub ends_field : Text → Bool
ends_field [] = true
ends_field (c ∷ cs) = c == b',' || (c == 13 && starts_feed cs)

-- A field in front of the first one.
abbrev pub put : Text → List (List Text) → List (List Text)
put [] lines = lines
put (c ∷ cs) lines = add c (put cs lines)

-- Behind a field all three modes read the same.
start-plain : (k : Text) → ends_field k ≡ true → read_csv start k ≡ read_csv plain k
unfolding read_csv
start-plain [] h = refl
start-plain (c ∷ cs) h = ground arith

closing-plain : (k : Text) → ends_field k ≡ true → read_csv closing k ≡ read_csv plain k
unfolding read_csv
closing-plain [] h = refl
closing-plain (c ∷ cs) h = ground arith

plain-unit :
    (c : ℕ) (cs : Text)
    → (c == b',') ≡ false
    → starts_feed cs ≡ false
    → read_csv plain (c ∷ cs) ≡ add c (read_csv plain cs)
unfolding read_csv
plain-unit c cs h k = ground arith

start-unit :
    (c : ℕ) (cs : Text) → (c == b'"') ≡ false → read_csv start (c ∷ cs) ≡ read_csv plain (c ∷ cs)
unfolding read_csv
start-unit c cs h = ground arith

quoted-unit :
    (c : ℕ) (cs : Text)
    → (c == b'"') ≡ false
    → read_csv quoted (c ∷ cs) ≡ add c (read_csv quoted cs)
unfolding read_csv
quoted-unit c cs h = ground arith

quoted-pair : (cs : Text) → read_csv quoted (b'"' ∷ b'"' ∷ cs) ≡ add b'"' (read_csv quoted cs)
unfolding read_csv
quoted-pair cs = refl

quoted-end : (k : Text) → ends_field k ≡ true → read_csv quoted (b'"' ∷ k) ≡ read_csv plain k
unfolding read_csv
quoted-end k e = closing-plain k e

start-quote : (cs : Text) → read_csv start (b'"' ∷ cs) ≡ read_csv quoted cs
unfolding read_csv
start-quote cs = refl

starts_feed-append :
    (v k : Text) → any is_special v ≡ false → ends_field k ≡ true → starts_feed (v ++ k) ≡ false
starts_feed-append [] [] h e = refl
starts_feed-append [] (c ∷ k) h e = ground arith
starts_feed-append (d ∷ v) k h e = ground arith

read_csv-plain :
    (v k : Text)
    → any is_special v ≡ false
    → ends_field k ≡ true
    → read_csv plain (v ++ k) ≡ put v (read_csv plain k)
read_csv-plain [] k h e = refl
read_csv-plain (c ∷ v) k h e =
    let later : any is_special v ≡ false = ground arith in
    plain-unit c (v ++ k) (ground arith) (starts_feed-append v k later e)
    ∙ ap (add c) (read_csv-plain v k later e)

double_quotes-quote :
    (c : ℕ) (v : Text) → (c == b'"') ≡ true → double_quotes (c ∷ v) ≡ b'"' ∷ b'"' ∷ double_quotes v
unfolding double_quotes
double_quotes-quote c v h = rw h refl

double_quotes-other :
    (c : ℕ) (v : Text) → (c == b'"') ≡ false → double_quotes (c ∷ v) ≡ c ∷ double_quotes v
unfolding double_quotes
double_quotes-other c v h = rw h refl

double_quotes-end : (k : Text) → double_quotes [] ++ k ≡ k
unfolding double_quotes
double_quotes-end k = refl

read_csv-quoted :
    (v k : Text)
    → ends_field k ≡ true
    → read_csv quoted (double_quotes v ++ b'"' ∷ k) ≡ put v (read_csv plain k)
read_csv-quoted [] k e = ap (read_csv quoted) (double_quotes-end (b'"' ∷ k)) ∙ quoted-end k e
read_csv-quoted (c ∷ v) k e = elim (Bool-cases (c == b'"')) [
  | inl q ↦
      let same : c ≡ b'"' = ground arith in
      rw (double_quotes-quote c v q) (
        quoted-pair (double_quotes v ++ b'"' ∷ k)
        ∙ ap (add b'"') (read_csv-quoted v k e)
        ∙ ap (λ d. add d (put v (read_csv plain k))) (sym same))
  | inr q ↦
      rw (double_quotes-other c v q)
        (quoted-unit c (double_quotes v ++ b'"' ∷ k) q ∙ ap (add c) (read_csv-quoted v k e))
]

append_assoc : (a b c : Text) → (a ++ b) ++ c ≡ a ++ (b ++ c)
append_assoc [] b c = refl
append_assoc (x ∷ a) b c = ap (λ t. x ∷ t) (append_assoc a b c)

start-plain_text :
    (v k : Text)
    → any is_special v ≡ false
    → ends_field k ≡ true
    → read_csv start (v ++ k) ≡ read_csv plain (v ++ k)
start-plain_text [] k h e = start-plain k e
start-plain_text (c ∷ v) k h e = start-unit c (v ++ k) (ground arith)

-- A written field is read whole.
read_csv-field :
    (v k : Text)
    → ends_field k ≡ true
    → read_csv start (csv_field v ++ k) ≡ put v (read_csv plain k)
unfolding csv_field
read_csv-field v k e = elim (Bool-cases (any is_special v)) [
  | inl s ↦ rw s (
      start-quote ((double_quotes v ++ b'"' ∷ []) ++ k)
      ∙ ap (read_csv quoted) (append_assoc (double_quotes v) (b'"' ∷ []) k)
      ∙ read_csv-quoted v k e)
  | inr s ↦ rw s (start-plain_text v k s e ∙ read_csv-plain v k s e)
]

comma-plain : (cs : Text) → read_csv plain (b',' ∷ cs) ≡ new_field (read_csv start cs)
unfolding read_csv
comma-plain cs = refl

line_end-plain : (cs : Text) → read_csv plain (13 ∷ 10 ∷ cs) ≡ new_line (read_csv start cs)
unfolding read_csv
line_end-plain cs = refl

end-plain : read_csv plain [] ≡ ([] ∷ []) ∷ []
unfolding read_csv
end-plain = refl

put-blank :
    (v : Text) (fields : List Text) (lines : List (List Text))
    → put v (([] ∷ fields) ∷ lines) ≡ (v ∷ fields) ∷ lines
put-blank [] fields lines = refl
put-blank (c ∷ v) fields lines = ap (add c) (put-blank v fields lines)

-- A line is read whole in front of what its end is read as.
read_csv-fields :
    (f : Text) (fs : List Text) (k : Text) (lines : List (List Text))
    → ends_field k ≡ true
    → read_csv plain k ≡ ([] ∷ []) ∷ lines
    → read_csv start (join_from (b',' ∷ []) (csv_field f) (map csv_field fs) ++ k)
      ≡ (f ∷ fs) ∷ lines
read_csv-fields f [] k lines e h = read_csv-field f k e ∙ ap (put f) h ∙ put-blank f [] lines
read_csv-fields f (g ∷ fs) k lines e h =
    let rest = join_from (b',' ∷ []) (csv_field g) (map csv_field fs) in
    ap (read_csv start) (append_assoc (csv_field f) (b',' ∷ rest) k)
    ∙ read_csv-field f (b',' ∷ (rest ++ k)) refl
    ∙ ap (put f) (comma-plain (rest ++ k) ∙ ap new_field (read_csv-fields g fs k lines e h))
    ∙ put-blank f (g ∷ fs) lines

read_csv-line :
    (f : Text) (fs : List Text) (k : Text) (lines : List (List Text))
    → ends_field k ≡ true
    → read_csv plain k ≡ ([] ∷ []) ∷ lines
    → read_csv start (csv_line (f ∷ fs) ++ k) ≡ (f ∷ fs) ∷ lines
unfolding csv_line join
read_csv-line f fs k lines e h = read_csv-fields f fs k lines e h

append-nil : (text : Text) → text ++ [] ≡ text
append-nil [] = refl
append-nil (c ∷ text) = ap (λ t. c ∷ t) (append-nil text)

cells-first : (row : HistoricoRow) → (rest : List Text) × (cells row ≡ row.title ∷ rest)
unfolding cells
cells-first row = (_, refl)

read_csv-lines :
    (f : Text) (fs : List Text) (rows : List HistoricoRow)
    → read_csv start
        (join_from (13 ∷ 10 ∷ []) (csv_line (f ∷ fs)) (map (λ row. csv_line (cells row)) rows))
      ≡ (f ∷ fs) ∷ map cells rows
read_csv-lines f fs [] =
    ap (read_csv start) (sym (append-nil (csv_line (f ∷ fs))))
    ∙ read_csv-line f fs [] [] refl end-plain
read_csv-lines f fs (row ∷ rows) =
    let rest =
      join_from (13 ∷ 10 ∷ []) (csv_line (cells row)) (map (λ row. csv_line (cells row)) rows) in
    read_csv-line f fs (13 ∷ 10 ∷ rest) (map cells (row ∷ rows)) refl (
      line_end-plain rest
      ∙ ap new_line (
          subst
            (λ line.
              read_csv start
                (join_from (13 ∷ 10 ∷ []) (csv_line line) (map (λ row. csv_line (cells row)) rows))
              ≡ line ∷ map cells rows)
            (sym (cells-first row).1) (read_csv-lines row.title (cells-first row).0 rows)))

-- A reader of CSV gets from the export the header and the cells of every row, whatever commas, quotes and
-- line ends stand in them.
pub read_csv-build_csv :
    (rows : List HistoricoRow) → read_csv start (build_csv rows) ≡ header ∷ map cells rows
unfolding build_csv join
read_csv-build_csv rows = read_csv-lines (codes "Produto") _ rows

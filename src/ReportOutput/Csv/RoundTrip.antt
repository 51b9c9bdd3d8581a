-- ===== src/ReportOutput/Csv/RoundTrip.antt =====
-- What the writer writes, the reader reads.
use openqbw.Base.{
  ◌≡◌, refl, ◌∙◌, true, false, List, [], ◌∷◌, ◌++◌, map, Option, none, some, ok, All, arith,
  Bool-cases, inl, inr,
}
use openqbw.Base.Text.{Text}
use openqbw.Base.Text.Strings.{first, last, is_char, any, unwrap_or}
use openqbw.Reconcile.Csv.{State, Record, run, finish, parse_csv_records}
use openqbw.ReportOutput.Csv.{
  is_special, double_quotes, csv_field, optional_field, csv_fields, csv_row,
}
use mathlib.Core.List.{append-nil, append_assoc}

-- The state between two characters: outside of quotes, within them, and behind them.
abbrev outside : List Record → Record → Text → State
outside rows row field = record {
  rows = rows;
  row = row;
  field = field;
  quoted = false;
  after_quote = false;
  skip = false;
}

abbrev within : List Record → Record → Text → State
within rows row field = record (outside rows row field) { quoted = true }

abbrev behind : List Record → Record → Text → State
behind rows row field = record (outside rows row field) { after_quote = true }

module _ (rows : List Record) (row : Record) where
  run-plain :
      (field v rest : Text)
      → any is_special v ≡ false
      → run (outside rows row field) (v ++ rest) ≡ run (outside rows row (field ++ v)) rest
  unfolding run
  run-plain field [] rest h = rw (append-nil field)
  run-plain field (c ∷ v) rest h =
      ground (arith, run-plain (field ++ c ∷ []) v rest, append_assoc field (c ∷ []) v)

  run-double_quotes :
      (field v rest : Text)
      → is_char 34 (first rest) ≡ false
      → run (within rows row field) (double_quotes v ++ 34 ∷ rest)
        ≡ run (behind rows row (field ++ v)) rest
  unfolding run double_quotes
  run-double_quotes field [] rest h = rw (append-nil field) (ground arith)
  run-double_quotes field (c ∷ v) rest h =
      ground (arith, run-double_quotes (field ++ c ∷ []) v rest, append_assoc field (c ∷ []) v)

last_plain : (v : Text) → any is_special v ≡ false → is_char 13 (last v) ≡ false
last_plain [] h = refl
last_plain (c ∷ []) h = ground arith
last_plain (c ∷ d ∷ v) h = last_plain (d ∷ v) (ground arith)

run-quoted :
    (rows : List Record) (row : Record) (v rest : Text)
    → is_char 34 (first rest) ≡ false
    → run (outside rows row []) (34 ∷ (double_quotes v ++ 34 ∷ []) ++ rest)
      ≡ run (behind rows row v) rest
unfolding run
run-quoted rows row v rest h =
    rw (append_assoc (double_quotes v) (34 ∷ []) rest) (run-double_quotes rows row [] v rest h)

-- A written field is read up to the comma, or up to the end of the line.
run-csv_field-comma :
    (rows : List Record) (row : Record) (v rest : Text)
    → run (outside rows row []) (csv_field v ++ 44 ∷ rest)
      ≡ run (outside rows (row ++ v ∷ []) []) rest
unfolding run csv_field
run-csv_field-comma rows row v rest = elim (Bool-cases (any is_special v)) [
  | inl h ↦ rw h (run-quoted rows row v (44 ∷ rest) refl)
  | inr h ↦ rw h (run-plain rows row [] v (44 ∷ rest) h)
]

run-csv_field-end :
    (rows : List Record) (row : Record) (v rest : Text)
    → run (outside rows row []) (csv_field v ++ 10 ∷ rest)
      ≡ run (outside (rows ++ (row ++ v ∷ []) ∷ []) [] []) rest
unfolding run csv_field
run-csv_field-end rows row v rest = elim (Bool-cases (any is_special v)) [
  | inl h ↦ rw h (run-quoted rows row v (10 ∷ rest) refl)
  | inr h ↦ rw h (run-plain rows row [] v (10 ∷ rest) h ∙ rw (last_plain v h))
]

-- The field that an optional value is read as.
abbrev pub read_back : Option Text → Text
read_back = unwrap_or []

run-optional-comma :
    (rows : List Record) (row : Record) (o : Option Text) (rest : Text)
    → run (outside rows row []) (optional_field o ++ 44 ∷ rest)
      ≡ run (outside rows (row ++ read_back o ∷ []) []) rest
unfolding run optional_field
run-optional-comma rows row none rest = refl
run-optional-comma rows row (some v) rest = run-csv_field-comma rows row v rest

run-optional-end :
    (rows : List Record) (row : Record) (o : Option Text) (rest : Text)
    → run (outside rows row []) (optional_field o ++ 10 ∷ rest)
      ≡ run (outside (rows ++ (row ++ read_back o ∷ []) ∷ []) [] []) rest
unfolding run optional_field
run-optional-end rows row none rest = refl
run-optional-end rows row (some v) rest = run-csv_field-end rows row v rest

run-csv_fields :
    (rows : List Record) (row : Record) (o : Option Text) (fields : List (Option Text))
    (rest : Text)
    → run (outside rows row []) (csv_fields (o ∷ fields) ++ 10 ∷ rest)
      ≡ run (outside (rows ++ (row ++ map read_back (o ∷ fields)) ∷ []) [] []) rest
unfolding csv_fields
run-csv_fields rows row o [] rest = run-optional-end rows row o rest
run-csv_fields rows row o (p ∷ fields) rest =
    rw (append_assoc (optional_field o) (44 ∷ csv_fields (p ∷ fields)) (10 ∷ rest)) (
      run-optional-comma rows row o (csv_fields (p ∷ fields) ++ 10 ∷ rest)
      ∙ run-csv_fields rows (row ++ read_back o ∷ []) p fields rest
      ∙ rw (append_assoc row (read_back o ∷ []) (map read_back (p ∷ fields))))

-- The text of several rows, as the loop over a report's rows appends them to `out`.
unfoldable pub csv_rows : List (List (Option Text)) → Text
unfolding csv_row
csv_rows [] = []
csv_rows (fields ∷ rest) = csv_row fields ++ csv_rows rest

abbrev pub IsNonempty {ℓ} : {A : Type ℓ} → List A → Type 0
IsNonempty [] = ⊥
IsNonempty (x ∷ xs) = Unit

run-csv_rows :
    (before : List Record) (rows : List (List (Option Text)))
    → All IsNonempty rows
    → run (outside before [] []) (csv_rows rows)
      ≡ ok (outside (before ++ map (map read_back) rows) [] [])
unfolding run csv_rows
run-csv_rows before [] h = rw (append-nil before)
run-csv_rows before ([] ∷ rows) h = absurd h.0
run-csv_rows before ((o ∷ fields) ∷ rows) h =
    rw (append_assoc (csv_fields (o ∷ fields)) (10 ∷ []) (csv_rows rows)) (
      run-csv_fields before [] o fields (csv_rows rows)
      ∙ run-csv_rows (before ++ map read_back (o ∷ fields) ∷ []) rows h.1
      ∙ rw (append_assoc before (map read_back (o ∷ fields) ∷ []) (map (map read_back) rows)))

-- Reading what was written: the records of a text that `csv_row` has written from rows of at least
-- one field are those rows, with an absent field read as an empty one, whatever characters the
-- fields hold.
pub parse_csv_records-csv_rows :
    (rows : List (List (Option Text)))
    → All IsNonempty rows
    → parse_csv_records (csv_rows rows) ≡ ok (map (map read_back) rows)
unfolding parse_csv_records finish
parse_csv_records-csv_rows rows h = rw (run-csv_rows [] rows h)

-- ===== src/Reconcile/Csv.antt =====
-- `parse_csv_records`: the state machine that splits a CSV text into records.
use openqbw.Base.{
  ℕ, Bool, true, false, not, ◌&&◌, ◌||◌, List, [], ◌∷◌, ◌++◌, Option, ok, err, ◌>>=◌, ◌==◌,
  if◌then◌else◌,
}
use openqbw.Base.Text.{Text}
use openqbw.Base.Text.Strings.{first, last, is_char, without_last, list_is_empty}
use openqbw.Reconcile.Errors.{Result, unclosed_quote, bare_quote, characters_after_closing_quote}

abbrev pub Record : Type 0
Record = List Text

-- The variables of the loop. `skip` holds after `chars.next()` took the character that `peek`
-- showed: the next round passes over it.
pub record State : Type 0 where
  pub rows : List Record
  pub row : Record
  pub field : Text
  pub quoted : Bool
  pub after_quote : Bool
  pub skip : Bool

abbrev pub start : State
start = record {
  rows = [];
  row = [];
  field = [];
  quoted = false;
  after_quote = false;
  skip = false;
}

-- `row.push(std::mem::take(&mut field))`
abbrev pub push_field : State → State
push_field s = record s { row = s.row ++ s.field ∷ []; field = [] }

-- `rows.push(std::mem::take(&mut row))`
abbrev pub push_row : State → State
push_row s = record s { rows = s.rows ++ s.row ∷ []; row = [] }

abbrev pub push_char : ℕ → State → State
push_char ch s = record s { field = s.field ++ ch ∷ [] }

-- `if field.ends_with('\r') { field.pop(); }`
abbrev pub pop_return : State → State
pop_return s = if is_char 13 (last s.field) then record s { field = without_last s.field } else s

unfoldable pub step_after_quote : State → ℕ → Option ℕ → Result State
step_after_quote s ch peek =
    if ch == 44
    then ok (push_field (record s { after_quote = false }))
    else if ch == 10
    then ok (push_row (push_field (record s { after_quote = false })))
    else if ch == 13
    then ok (push_row (push_field (record s { after_quote = false; skip = is_char 10 peek })))
    else err characters_after_closing_quote

unfoldable pub step_quoted : State → ℕ → Option ℕ → Result State
step_quoted s ch peek =
    if ch == 34 && is_char 34 peek
    then ok (record (push_char 34 s) { skip = true })
    else if ch == 34
    then ok (record s { quoted = false; after_quote = true })
    else ok (push_char ch s)

unfoldable pub step_plain : State → ℕ → Result State
step_plain s ch =
    if ch == 34
    then if list_is_empty s.field then ok (record s { quoted = true }) else err bare_quote
    else if ch == 44
    then ok (push_field s)
    else if ch == 10
    then ok (push_row (push_field (pop_return s)))
    else ok (push_char ch s)

-- One round of the loop.
unfoldable pub step : State → ℕ → Option ℕ → Result State
unfolding step_after_quote step_quoted step_plain
step s ch peek =
    if s.skip
    then ok (record s { skip = false })
    else if s.after_quote
    then step_after_quote s ch peek
    else if s.quoted
    then step_quoted s ch peek
    else step_plain s ch

unfoldable pub run : State → Text → Result State
unfolding step
run s [] = ok s
run s (ch ∷ rest) = step s ch (first rest) >>= λ s'. run s' rest

-- What follows the loop.
unfoldable pub finish : State → Result (List Record)
finish s =
    if s.quoted
    then err unclosed_quote
    else if not (list_is_empty s.field) || not (list_is_empty s.row)
    then ok (s.rows ++ ((pop_return s).row ++ (pop_return s).field ∷ []) ∷ [])
    else ok s.rows

unfoldable pub parse_csv_records : Text → Result (List Record)
unfolding run finish
parse_csv_records text = run start text >>= finish

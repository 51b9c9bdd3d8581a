-- ===== src/Reconcile/Normalized.antt =====
-- The reader of the normalized CSV that the accounting report writes, and the reader of both kinds.
use openqbw.Base.{
  ℕ, ◌+◌, Bool, true, false, not, ◌&&◌, List, [], ◌∷◌, Option, none, some, ok, err, ◌>>=◌, drop,
  if◌then◌else◌,
}
use openqbw.Base.Int.{ℤ, pos, eq_ℤ, ltb_ℤ, ◌-ℤ◌}
use openqbw.Base.Order.{◌=?◌}
use openqbw.Base.Text.{Text, codes, text_ord}
use openqbw.Base.Text.Decimal.{parse_i64}
use openqbw.Base.Text.Strings.{trim, list_is_empty, unwrap_or}
use openqbw.Reconcile.Csv.{Record, parse_csv_records}
use openqbw.Reconcile.Errors.{
  Result, empty_account_name, invalid_normalized_cents, missing_normalized_cents,
  inconsistent_normalized_row,
}
use openqbw.Reconcile.Compare.{TrialBalance, in_i64}
use openqbw.Reconcile.Decode.{decode_windows_1252}
use openqbw.Reconcile.Columns.{cell, canonical_native_account_full_name, heading, or}
use openqbw.Reconcile.Native.{from_rows, parse_quickbooks_rows}

-- The columns found so far in a row.
pub record NormalizedColumns : Type 0 where
  pub account_name : Option ℕ
  pub account_full_name : Option ℕ
  pub account_display_name : Option ℕ
  pub debit_cents : Option ℕ
  pub credit_cents : Option ℕ
  pub net_cents : Option ℕ

abbrev pub no_columns : NormalizedColumns
no_columns = record {
  account_name = none;
  account_full_name = none;
  account_display_name = none;
  debit_cents = none;
  credit_cents = none;
  net_cents = none;
}

unfoldable pub mark_column : NormalizedColumns → ℕ → Text → NormalizedColumns
mark_column c index name =
    if name =? codes "account_name"
    then record c { account_name = some index }
    else if name =? codes "account_full_name"
    then record c { account_full_name = some index }
    else if name =? codes "account_display_name"
    then record c { account_display_name = some index }
    else if name =? codes "debit_cents"
    then record c { debit_cents = some index }
    else if name =? codes "credit_cents"
    then record c { credit_cents = some index }
    else if name =? codes "net_cents"
    then record c { net_cents = some index }
    else c

unfoldable pub scan_columns : NormalizedColumns → ℕ → Record → NormalizedColumns
unfolding heading mark_column
scan_columns c index [] = c
scan_columns c index (value ∷ rest) =
    scan_columns (mark_column c index (heading value)) (index + 1) rest

pub record NormalizedHeader : Type 0 where
  pub account_label : ℕ
  pub debit_cents : ℕ
  pub credit_cents : ℕ
  pub net_cents : ℕ
  pub data_start : ℕ

abbrev pub header_of : Option ℕ → Option ℕ → Option ℕ → Option ℕ → ℕ → Option NormalizedHeader
header_of (some label) (some debit) (some credit) (some net) start = some (record {
  account_label = label;
  debit_cents = debit;
  credit_cents = credit;
  net_cents = net;
  data_start = start;
})
header_of label debit credit net start = none

unfoldable pub find_normalized_header_from : ℕ → List Record → Option NormalizedHeader
unfolding scan_columns
find_normalized_header_from index [] = none
find_normalized_header_from index (row ∷ rows) =
    let c = scan_columns no_columns 0 row in
    let label = or c.account_display_name (or c.account_full_name c.account_name) in
    elim (header_of label c.debit_cents c.credit_cents c.net_cents (index + 1)) [
      | some h ↦ some h
      | none ↦ find_normalized_header_from (index + 1) rows
    ]

unfoldable pub find_normalized_header : List Record → Option NormalizedHeader
unfolding find_normalized_header_from
find_normalized_header rows = find_normalized_header_from 0 rows

unfoldable pub parse_normalized_cents : Text → Text → Bool → Result (Option ℤ)
parse_normalized_cents value column nonnegative =
    if list_is_empty (trim value) then ok none else elim (parse_i64 (trim value)) [
      | none ↦ err (invalid_normalized_cents column (trim value))
      | some cents ↦
          if nonnegative && ltb_ℤ cents (pos 0)
          then err (invalid_normalized_cents column (trim value))
          else ok (some cents)
    ]

abbrev pub required_net : Text → Option ℤ → Result ℤ
required_net account none = err (missing_normalized_cents account (codes "net_cents"))
required_net account (some net) = ok net

-- The account and the net cents of a row, or nothing for an empty row.
unfoldable pub normalized_row : NormalizedHeader → Record → Result (Option (Text × ℤ))
normalized_row h row =
    let account = trim (cell row h.account_label) in
    let debit_cell = cell row h.debit_cents in
    let credit_cell = cell row h.credit_cents in
    let net_cell = cell row h.net_cents in
    if list_is_empty account
    then if list_is_empty (trim debit_cell)
        && (list_is_empty (trim credit_cell) && list_is_empty (trim net_cell))
      then ok none
      else err empty_account_name
    else (parse_normalized_cents debit_cell (codes "debit_cents") true >>= λ debit?.
        parse_normalized_cents credit_cell (codes "credit_cents") true >>= λ credit?.
        parse_normalized_cents net_cell (codes "net_cents") false >>= λ net?.
        required_net account net? >>= λ net.
        let debit = unwrap_or (pos 0) debit? in
        let credit = unwrap_or (pos 0) credit? in
        in_i64 (debit -ℤ credit) >>= λ calculated.
        if not (eq_ℤ calculated net)
        then err (inconsistent_normalized_row account debit credit net)
        else ok (some (canonical_native_account_full_name account, net)))

abbrev pub push_some : Option (Text × ℤ) → List (Text × ℤ) → List (Text × ℤ)
push_some none rest = rest
push_some (some e) rest = e ∷ rest

unfoldable pub normalized_balances : NormalizedHeader → List Record → Result (List (Text × ℤ))
normalized_balances h [] = ok []
normalized_balances h (row ∷ rows) =
    normalized_row h row >>= λ e?. normalized_balances h rows >>= λ rest. ok (push_some e? rest)

unfoldable pub parse_normalized_rows : List Record → NormalizedHeader → Result TrialBalance
parse_normalized_rows rows h = normalized_balances h (drop h.data_start rows) >>= from_rows

-- `parse_trial_balance_csv` behind the decoding of the bytes.
unfoldable pub parse_trial_balance_text : Text → Result TrialBalance
parse_trial_balance_text text = parse_csv_records text >>= λ rows.
    elim (find_normalized_header rows) [
      | some h ↦ parse_normalized_rows rows h
      | none ↦ parse_quickbooks_rows rows
    ]

unfoldable pub parse_trial_balance_csv : List ℕ → Result TrialBalance
unfolding decode_windows_1252 parse_trial_balance_text
parse_trial_balance_csv bytes = parse_trial_balance_text (decode_windows_1252 bytes)

unfoldable pub parse_quickbooks_trial_balance_csv : List ℕ → Result TrialBalance
unfolding decode_windows_1252 parse_csv_records parse_quickbooks_rows
parse_quickbooks_trial_balance_csv bytes =
    parse_csv_records (decode_windows_1252 bytes) >>= parse_quickbooks_rows

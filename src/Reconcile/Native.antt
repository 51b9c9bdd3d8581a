-- ===== src/Reconcile/Native.antt =====
-- The reader of QuickBooks Desktop exports.
use openqbw.Base.{
  ℕ, ◌+◌, Bool, ◌&&◌, ◌||◌, List, [], ◌∷◌, Option, none, some, ok, err, ◌>>=◌, drop, ltb,
  if◌then◌else◌,
}
use openqbw.Base.Int.{ℤ, pos, eq_ℤ, ◌-ℤ◌}
use openqbw.Base.Order.{◌=?◌}
use openqbw.Base.Text.{Text, codes, text_ord}
use openqbw.Base.Text.Strings.{trim, list_is_empty}
use openqbw.Reconcile.Csv.{Record}
use openqbw.Reconcile.Errors.{Result, missing_required_header, no_account_rows}
use openqbw.Reconcile.Compare.{TrialBalance, from_balances, in_i64}
use openqbw.Reconcile.Money.{parse_money_cents}
use openqbw.Reconcile.Columns.{cell, is_total_row, canonical_native_account_full_name, heading}

-- The columns found so far in a row; a later heading of the same name replaces an earlier one.
pub record Columns : Type 0 where
  pub account : Option ℕ
  pub debit : Option ℕ
  pub credit : Option ℕ

abbrev pub mark_column : Columns → ℕ → Text → Columns
mark_column c index name =
    if name =? codes "account" || name =? codes "account name"
    then record c { account = some index }
    else if name =? codes "debit" || name =? codes "debits"
    then record c { debit = some index }
    else if name =? codes "credit" || name =? codes "credits"
    then record c { credit = some index }
    else c

unfoldable pub scan_columns : Columns → ℕ → Record → Columns
unfolding heading
scan_columns c index [] = c
scan_columns c index (value ∷ rest) =
    scan_columns (mark_column c index (heading value)) (index + 1) rest

pub record Header : Type 0 where
  pub account_col : ℕ
  pub debit_col : ℕ
  pub credit_col : ℕ
  pub data_start : ℕ

abbrev pub header_at : ℕ → ℕ → ℕ → ℕ → Option Header
header_at account debit credit data_start = some (record {
  account_col = account;
  debit_col = debit;
  credit_col = credit;
  data_start = data_start;
})

-- The two shapes of a header row: three named columns, or a blank first one.
abbrev pub header_of : Option ℕ → Option ℕ → Option ℕ → ℕ → Option Header
header_of (some account) (some debit) (some credit) start = header_at account debit credit start
header_of none (some debit) (some credit) start =
    if ltb 0 debit && ltb debit credit then header_at 0 debit credit start else none
header_of account none credit start = none
header_of account (some debit) none start = none

abbrev pub no_columns : Columns
no_columns = record { account = none; debit = none; credit = none }

unfoldable pub find_header_from : ℕ → List Record → Result Header
unfolding scan_columns
find_header_from index [] = err missing_required_header
find_header_from index (row ∷ rows) =
    let c = scan_columns no_columns 0 row in
    elim (header_of c.account c.debit c.credit (index + 1)) [
      | some h ↦ ok h
      | none ↦ find_header_from (index + 1) rows
    ]

unfoldable pub find_header : List Record → Result Header
unfolding find_header_from
find_header rows = find_header_from 0 rows

abbrev pub is_skipped : Text → Text → Text → Bool
unfolding is_total_row
is_skipped account debit credit =
    list_is_empty account || (is_total_row account || (list_is_empty debit && list_is_empty credit))

unfoldable pub native_balances : Header → List Record → Result (List (Text × ℤ))
unfolding trim cell is_skipped parse_money_cents canonical_native_account_full_name ◌-ℤ◌
native_balances h [] = ok []
native_balances h (row ∷ rows) =
    let later = native_balances h rows in
    let account = trim (cell row h.account_col) in
    let debit_cell = trim (cell row h.debit_col) in
    let credit_cell = trim (cell row h.credit_col) in
    if is_skipped account debit_cell credit_cell
    then later
    else (parse_money_cents debit_cell >>= λ debit. parse_money_cents credit_cell >>= λ credit.
        in_i64 (debit -ℤ credit) >>= λ balance.
        if eq_ℤ balance (pos 0)
        then later
        else (later >>= λ rest. ok ((canonical_native_account_full_name account, balance) ∷ rest)))

-- `if balances.list_is_empty() { return Err(NoAccountRows) }`, then `from_balances`
unfoldable pub from_rows : List (Text × ℤ) → Result TrialBalance
unfolding from_balances
from_rows balances = if list_is_empty balances then err no_account_rows else from_balances balances

unfoldable pub parse_quickbooks_rows : List Record → Result TrialBalance
unfolding find_header native_balances from_rows
parse_quickbooks_rows rows =
    find_header rows >>= λ h. native_balances h (drop h.data_start rows) >>= from_rows

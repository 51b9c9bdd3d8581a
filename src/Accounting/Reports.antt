-- ===== src/Accounting/Reports.antt =====
-- The General Ledger and the Trial Balances of crates/openqbw/src/accounting.rs.
use openqbw.Base.{
  List, [], ◌∷◌, Option, none, some, ok, err, panic, ◌>>=◌, ◌>>◌, not, ◌&&◌, if◌then◌else◌,
}
use openqbw.Base.Int.{ℤ, pos, neg, ltb_ℤ, leb_ℤ, eq_ℤ, i64_min, fits_i64, compare_ℤ}
use openqbw.Base.Text.{compare_text, text_ord}
use openqbw.Base.Order.{then_cmp}
use openqbw.Base.Map.{Map, get, values, entry_add, get_or_zero}
use openqbw.Base.Sort.{sort_by}
use openqbw.Base.Sum.{sum_of}
use openqbw.Accounting.Types.{
  AccountId, TransactionId, Account, AccountingDate, Posting, current, superseded, deleted,
  ambiguous, Ledger, LedgerCompleteness, complete, incomplete, unsupported, GeneralLedgerEntry,
  GeneralLedger, TrialBalanceOptions, QuickBooksAccrualTrialBalancePolicy, TrialBalanceRow,
  TrialBalance,
}
use openqbw.Accounting.Types.Classification.{AccountType, is_profit_and_loss, account_type_eq}
use openqbw.Accounting.Errors.{
  Result, incomplete_data, unsupported_data, ambiguous_current_state, unbalanced_transaction,
  balance_overflow, unbalanced_ledger, fiscal_year_start_after_as_of,
  unknown_retained_earnings_account, retained_earnings_account_not_equity,
}
use Prim.Native.Nat.{Ordering}

-- The guard at the head of `current_postings_as_of`.
unfoldable pub require_complete : LedgerCompleteness → Result (Unit {0})
require_complete complete = ok tt
require_complete (incomplete reason) = err (incomplete_data reason)
require_complete (unsupported feature) = err (unsupported_data feature)

-- The loop over the postings; `self.accounts[&posting.account_id]` panics on an unknown account.
unfoldable pub select_current :
    Map AccountId Account → AccountingDate → List Posting → Result (List GeneralLedgerEntry)
unfolding get
select_current m as_of [] = ok []
select_current m as_of (p ∷ rest) =
    let later = select_current m as_of rest in
    elim p.current_state [
      | current ↦
          if leb_ℤ p.date as_of
          then elim (get p.account_id m) [
            | none ↦ panic
            | some account ↦ later >>= λ es. ok (record { account = account; posting = p } ∷ es)
          ]
          else later
      | ambiguous ↦ if leb_ℤ p.date as_of then err (ambiguous_current_state p.id) else later
      | superseded ↦ later
      | deleted ↦ later
    ]

-- The tuples by which entries are sorted.
abbrev pub compare_entries : GeneralLedgerEntry → GeneralLedgerEntry → Ordering
compare_entries l r = then_cmp (compare_ℤ l.posting.date r.posting.date) (
    then_cmp (compare_text l.account.id r.account.id) (
      then_cmp (compare_text l.posting.transaction_id r.posting.transaction_id)
        (compare_text l.posting.id r.posting.id)))

unfoldable pub current_postings_as_of : Ledger → AccountingDate → Result (List GeneralLedgerEntry)
unfolding require_complete select_current sort_by
current_postings_as_of ledger as_of = do
  require_complete ledger.completeness
  entries ← select_current ledger.accounts as_of ledger.postings
  ok (sort_by compare_entries entries)

unfoldable pub transaction_totals :
    Map TransactionId ℤ → List GeneralLedgerEntry → Map TransactionId ℤ
unfolding entry_add
transaction_totals totals [] = totals
transaction_totals totals (e ∷ es) =
    transaction_totals (entry_add e.posting.transaction_id e.posting.signed_minor_units totals) es

unfoldable pub require_zero_totals : Map TransactionId ℤ → Result (Unit {0})
require_zero_totals [] = ok tt
require_zero_totals ((transaction_id, net) ∷ rest) =
    if not (eq_ℤ net (pos 0))
    then err (unbalanced_transaction transaction_id net)
    else require_zero_totals rest

unfoldable pub assert_balanced_by_transaction : List GeneralLedgerEntry → Result (Unit {0})
unfolding transaction_totals require_zero_totals
assert_balanced_by_transaction entries = require_zero_totals (transaction_totals [] entries)

unfoldable pub general_ledger_as_of : Ledger → AccountingDate → Result GeneralLedger
unfolding current_postings_as_of assert_balanced_by_transaction
general_ledger_as_of ledger as_of = do
  entries ← current_postings_as_of ledger as_of
  assert_balanced_by_transaction entries
  ok (record { as_of = as_of; entries = entries })

-- `TrialBalanceRow::from_signed`; `checked_neg` fails on i64::MIN alone.
unfoldable pub row_from_signed : Account → ℤ → Result TrialBalanceRow
unfolding neg
row_from_signed account signed = do
  credit ←
      if ltb_ℤ signed (pos 0)
      then if eq_ℤ signed i64_min then err (balance_overflow account.id) else ok (some (neg signed))
      else ok none
  ok (record {
    account = account;
    signed_minor_units = signed;
    debit_minor_units = if ltb_ℤ (pos 0) signed then some signed else none;
    credit_minor_units = credit;
  })

-- The loop over the accounts in `trial_balance_from_balances`.
unfoldable pub balance_rows :
    TrialBalanceOptions → Map AccountId ℤ → List Account → Result (List TrialBalanceRow)
unfolding get row_from_signed
balance_rows options balances [] = ok []
balance_rows options balances (account ∷ rest) =
    let later = balance_rows options balances rest in
    let signed = get_or_zero account.id balances in
    if eq_ℤ signed (pos 0) && not options.include_zero_balance_accounts
    then later
    else if not (fits_i64 signed)
    then err (balance_overflow account.id)
    else do row ← row_from_signed account signed; rows ← later; ok (row ∷ rows)

abbrev pub row_amount : TrialBalanceRow → ℤ
row_amount row = row.signed_minor_units

unfoldable pub trial_balance_from_balances :
    Ledger → AccountingDate → TrialBalanceOptions → Map AccountId ℤ → Result TrialBalance
unfolding balance_rows sum_of
trial_balance_from_balances ledger as_of options balances = do
  rows ← balance_rows options balances (values ledger.accounts)
  let net = sum_of row_amount rows
  if not (eq_ℤ net (pos 0))
      then err (unbalanced_ledger net)
      else ok (record { as_of = as_of; rows = rows })

unfoldable pub account_totals : Map AccountId ℤ → List GeneralLedgerEntry → Map AccountId ℤ
unfolding entry_add
account_totals balances [] = balances
account_totals balances (e ∷ es) =
    account_totals (entry_add e.posting.account_id e.posting.signed_minor_units balances) es

unfoldable pub trial_balance_as_of :
    Ledger → AccountingDate → TrialBalanceOptions → Result TrialBalance
unfolding general_ledger_as_of account_totals trial_balance_from_balances
trial_balance_as_of ledger as_of options = do
  general_ledger ← general_ledger_as_of ledger as_of
  trial_balance_from_balances ledger as_of options (account_totals [] general_ledger.entries)

-- The account to which an entry is counted under the fiscal-year policy.
abbrev pub presented_account : QuickBooksAccrualTrialBalancePolicy → GeneralLedgerEntry → AccountId
presented_account policy e =
    if ltb_ℤ e.posting.date policy.fiscal_year_start && is_profit_and_loss e.account.account_type
    then policy.retained_earnings_account_id
    else e.posting.account_id

unfoldable pub accrual_totals :
    QuickBooksAccrualTrialBalancePolicy
    → Map AccountId ℤ
    → List GeneralLedgerEntry
    → Map AccountId ℤ
unfolding entry_add is_profit_and_loss
accrual_totals policy balances [] = balances
accrual_totals policy balances (e ∷ es) =
    accrual_totals policy
      (entry_add (presented_account policy e) e.posting.signed_minor_units balances) es

-- The checks on the policy's retained-earnings account.
unfoldable pub check_retained_earnings :
    Ledger → QuickBooksAccrualTrialBalancePolicy → Result (Unit {0})
unfolding get account_type_eq
check_retained_earnings ledger policy =
    elim (get policy.retained_earnings_account_id ledger.accounts) [
      | none ↦ err (unknown_retained_earnings_account policy.retained_earnings_account_id)
      | some account ↦
          if not (account_type_eq account.account_type AccountType.equity)
          then err (retained_earnings_account_not_equity account.id)
          else ok tt
    ]

unfoldable pub quickbooks_accrual_trial_balance_as_of :
    Ledger
    → AccountingDate
    → TrialBalanceOptions
    → QuickBooksAccrualTrialBalancePolicy
    → Result TrialBalance
unfolding check_retained_earnings general_ledger_as_of accrual_totals trial_balance_from_balances
quickbooks_accrual_trial_balance_as_of ledger as_of options policy =
    if ltb_ℤ as_of policy.fiscal_year_start
    then err (fiscal_year_start_after_as_of policy.fiscal_year_start as_of)
    else do
      check_retained_earnings ledger policy
      general_ledger ← general_ledger_as_of ledger as_of
      trial_balance_from_balances ledger as_of options
          (accrual_totals policy [] general_ledger.entries)

abbrev pub sum_option : (TrialBalanceRow → Option ℤ) → TrialBalanceRow → ℤ
sum_option column row = elim (column row) [ none ↦ pos 0 | some v ↦ v ]

-- `TrialBalance::total_debit_minor_units` and `total_credit_minor_units`
unfoldable pub total_debit : TrialBalance → ℤ
unfolding sum_of
total_debit tb = sum_of (sum_option (λ row. row.debit_minor_units)) tb.rows

unfoldable pub total_credit : TrialBalance → ℤ
unfolding sum_of
total_credit tb = sum_of (sum_option (λ row. row.credit_minor_units)) tb.rows

-- ===== src/ReportOutput/Errors.antt =====
-- `ReportOutputError`, without `Sqlite`, which holds an error of the rusqlite package and which the texts
-- and the checks of the reports never end with.
use openqbw.Base.{Outcome}
use openqbw.Base.Int.{ℤ}
use openqbw.Base.Text.{Text}

pub data ReportOutputError : Type 0 where
  empty_metadata : (field : Text) → ReportOutputError
  invalid_trial_balance_policy_metadata : ReportOutputError
  empty_bundle : ReportOutputError
  inconsistent_as_of_days : (trial_balance general_ledger : ℤ) → ReportOutputError
  unbalanced_trial_balance : (debit_minor_units credit_minor_units : ℤ) → ReportOutputError
  inconsistent_trial_balance_row : (account_id : Text) → ReportOutputError
  unbalanced_transaction : (transaction_id : Text) (net_minor_units : ℤ) → ReportOutputError
  duplicate_account_id : Text → ReportOutputError
  conflicting_account_metadata : Text → ReportOutputError
  missing_parent_account : (account_id parent_account_id : Text) → ReportOutputError
  account_hierarchy_cycle : (account_id : Text) → ReportOutputError
  duplicate_posting_id : Text → ReportOutputError
  duplicate_source_row : Text → ReportOutputError
  posting_account_mismatch :
      (posting_id posting_account_id entry_account_id : Text) → ReportOutputError
  non_current_posting : (posting_id : Text) → ReportOutputError
  zero_posting : Text → ReportOutputError
  non_displayable_posting_amount : Text → ReportOutputError
  posting_after_as_of : (posting_id : Text) (posting_day as_of_day : ℤ) → ReportOutputError
  trial_balance_general_ledger_mismatch :
      (account_id : Text) (trial_balance_minor_units general_ledger_minor_units : ℤ)
      → ReportOutputError

abbrev pub Output {ℓ} : Type ℓ → Type ℓ
Output A = Outcome ReportOutputError A

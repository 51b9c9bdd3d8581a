-- ===== src/Accounting/Errors.antt =====
-- `AccountingError`: why a report is not emitted.
use openqbw.Base.Int.{ℤ}
use openqbw.Base.Text.{Text}
use openqbw.Base.{Outcome}
use openqbw.Accounting.Types.{AccountId, TransactionId, PostingId, AccountingDate}

pub data AccountingError : Type 0 where
  empty_identifier : Text → AccountingError
  empty_account_name : AccountId → AccountingError
  empty_account_number : AccountId → AccountingError
  unknown_parent_account : AccountId → AccountId → AccountingError
  self_parent_account : AccountId → AccountingError
  account_hierarchy_cycle : AccountId → AccountingError
  invalid_minor_units : ℤ → AccountingError
  invalid_provenance : AccountingError
  duplicate_account : AccountId → AccountingError
  unknown_account : PostingId → AccountId → AccountingError
  duplicate_posting : PostingId → AccountingError
  duplicate_provenance : Text → AccountingError
  zero_posting : PostingId → AccountingError
  ambiguous_current_state : PostingId → AccountingError
  incomplete_data : Text → AccountingError
  unsupported_data : Text → AccountingError
  unbalanced_transaction : TransactionId → ℤ → AccountingError
  balance_overflow : AccountId → AccountingError
  unbalanced_ledger : ℤ → AccountingError
  fiscal_year_start_after_as_of : AccountingDate → AccountingDate → AccountingError
  unknown_retained_earnings_account : AccountId → AccountingError
  retained_earnings_account_not_equity : AccountId → AccountingError

-- `Result<A, AccountingError>`
abbrev pub Result {ℓ} : Type ℓ → Type ℓ
Result A = Outcome AccountingError A

-- ===== src/Accounting/Types.antt =====
-- The data of the accounting layer: accounts, postings, the ledger and the reports.
pub mod Classification
use openqbw.Base.{ℕ, Bool, true, false, Option, none, some, List}
use openqbw.Base.Int.{ℤ}
use openqbw.Base.Text.{Text}
use openqbw.Base.Map.{Map}
use Classification.{AccountType, QuickBooksAccountClassification}

-- A day number; the source's `i32`. Only its order is used.
abbrev pub AccountingDate : Type 0
AccountingDate = ℤ

-- The three identifiers wrap a string, by which they are compared.
abbrev pub AccountId : Type 0
AccountId = Text

abbrev pub TransactionId : Type 0
TransactionId = Text

abbrev pub PostingId : Type 0
PostingId = Text

pub data AccountActivity : Type 0 where
  active inactive unknown : AccountActivity

pub record Account : Type 0 where
  pub id : AccountId
  pub account_number : Option Text
  pub name : Text
  pub parent_account_id : Option AccountId
  pub account_type : AccountType
  pub quickbooks_classification : Option QuickBooksAccountClassification
  pub is_active : Bool
  pub activity : AccountActivity

pub data DebitCredit : Type 0 where
  debit credit : DebitCredit

pub record DebitCreditAmount : Type 0 where
  pub side : DebitCredit
  pub minor_units : ℤ

pub record PostingProvenance : Type 0 where
  pub source_row : Text
  pub page_number : Option ℕ
  pub slot_number : Option ℕ
  pub decoder : Text

pub data CurrentState : Type 0 where
  current superseded deleted ambiguous : CurrentState

pub record Posting : Type 0 where
  pub transaction_id : TransactionId
  pub id : PostingId
  pub account_id : AccountId
  pub date : AccountingDate
  pub signed_minor_units : ℤ
  pub current_state : CurrentState
  pub provenance : PostingProvenance
  pub transaction_type : Option Text
  pub memo : Option Text

pub data LedgerCompleteness : Type 0 where
  complete : LedgerCompleteness
  incomplete : Text → LedgerCompleteness
  unsupported : Text → LedgerCompleteness

pub record Ledger : Type 0 where
  pub accounts : Map AccountId Account
  pub postings : List Posting
  pub completeness : LedgerCompleteness

pub record GeneralLedgerEntry : Type 0 where
  pub account : Account
  pub posting : Posting

pub record GeneralLedger : Type 0 where
  pub as_of : AccountingDate
  pub entries : List GeneralLedgerEntry

pub record TrialBalanceOptions : Type 0 where
  pub include_zero_balance_accounts : Bool

pub record QuickBooksAccrualTrialBalancePolicy : Type 0 where
  pub fiscal_year_start : AccountingDate
  pub retained_earnings_account_id : AccountId

pub record TrialBalanceRow : Type 0 where
  pub account : Account
  pub signed_minor_units : ℤ
  pub debit_minor_units : Option ℤ
  pub credit_minor_units : Option ℤ

pub record TrialBalance : Type 0 where
  pub as_of : AccountingDate
  pub rows : List TrialBalanceRow

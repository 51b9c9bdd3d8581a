-- ===== src/Statements/Types.antt =====
-- The data of a financial statement.
use openqbw.Base.{ℕ, Bool, Option, List, Outcome, ◌==◌}
use openqbw.Base.Int.{ℤ}
use openqbw.Base.Text.{Text}
use openqbw.Accounting.Types.{
  Account, AccountId, AccountingDate, QuickBooksAccrualTrialBalancePolicy,
}
use openqbw.Accounting.Errors.{AccountingError}

pub data FinancialStatementKind : Type 0 where
  profit_and_loss balance_sheet : FinancialStatementKind

-- The static strings that name a section, which are all different.
pub data Section : Type 0 where
  income cost_of_goods_sold expense other_income other_expense profit assets liabilities equity
        liabilities_and_equity :
      Section

abbrev pub section_index : Section → ℕ
section_index income = 0
section_index cost_of_goods_sold = 1
section_index expense = 2
section_index other_income = 3
section_index other_expense = 4
section_index profit = 5
section_index assets = 6
section_index liabilities = 7
section_index equity = 8
section_index liabilities_and_equity = 9

abbrev pub section_eq : Section → Section → Bool
section_eq s t = section_index s == section_index t

-- The static strings that name a row's kind.
pub data RowKind : Type 0 where
  account subtotal calculated : RowKind

pub record FinancialStatementRow : Type 0 where
  pub key : Text
  pub kind : RowKind
  pub section : Section
  pub label : Text
  pub account : Option Account
  pub signed_minor_units : Option ℤ
  pub amount_minor_units : ℤ

pub record FinancialStatement : Type 0 where
  pub kind : FinancialStatementKind
  pub from : Option AccountingDate
  pub as_of : AccountingDate
  pub policy : Option QuickBooksAccrualTrialBalancePolicy
  pub accounts : List Account
  pub rows : List FinancialStatementRow

pub data FinancialStatementError : Type 0 where
  accounting : AccountingError → FinancialStatementError
  invalid_period : FinancialStatementError
  unclassified_account : AccountId → FinancialStatementError
  conflicting_classification : AccountId → FinancialStatementError
  amount_overflow : FinancialStatementError
  unbalanced_balance_sheet : FinancialStatementError

abbrev pub Statement {ℓ} : Type ℓ → Type ℓ
Statement A = Outcome FinancialStatementError A

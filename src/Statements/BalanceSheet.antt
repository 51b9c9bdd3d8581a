-- ===== src/Statements/BalanceSheet.antt =====
-- `Ledger::balance_sheet_as_of`.
use openqbw.Base.{List, [], ◌∷◌, none, some, ok, err, map_err, ◌>>=◌, not, if◌then◌else◌}
use openqbw.Base.Int.{ℤ, pos, ◌+ℤ◌, ◌-ℤ◌, eq_ℤ}
use openqbw.Base.Text.{text_ord}
use openqbw.Base.Map.{Map, insert}
use openqbw.Accounting.Types.{
  AccountId, AccountingDate, Ledger, TrialBalanceOptions, TrialBalanceRow,
  QuickBooksAccrualTrialBalancePolicy,
}
use openqbw.Accounting.Types.Classification.{is_profit_and_loss}
use openqbw.Accounting.Reports.{quickbooks_accrual_trial_balance_as_of}
use openqbw.Statements.Types.{
  FinancialStatementKind, assets, liabilities, equity, liabilities_and_equity, FinancialStatement,
  Statement, accounting, unbalanced_balance_sheet,
}
use openqbw.Statements.Sections.{
  validated_accounts, append_section, append_total, append_calculated,
}

-- The loop over the Trial Balance rows: the balances, and the current year's income.
unfoldable pub sheet_balances : Map AccountId ℤ → ℤ → List TrialBalanceRow → Map AccountId ℤ × ℤ
unfolding insert is_profit_and_loss ◌-ℤ◌
sheet_balances balances current_income [] = (balances, current_income)
sheet_balances balances current_income (row ∷ rest) =
    let is_pl = is_profit_and_loss row.account.account_type in
    sheet_balances
      (if is_pl then balances else insert row.account.id row.signed_minor_units balances)
      (if is_pl then current_income -ℤ row.signed_minor_units else current_income) rest

-- The sections of the statement, appended to a report with no rows.
unfoldable pub sheet_sections :
    FinancialStatement → Map AccountId ℤ → ℤ → TrialBalanceOptions → Statement FinancialStatement
unfolding append_section append_total append_calculated ◌+ℤ◌
sheet_sections report balances current_income options = do
  (r1, assets_total) ← append_section report balances assets options
  r2 ← append_total r1 assets "total_assets" "Total Assets" assets_total
  (r3, owed) ← append_section r2 balances liabilities options
  r4 ← append_total r3 liabilities "total_liabilities" "Total Liabilities" owed
  (r5, owned) ← append_section r4 balances equity options
  r6 ←
      append_calculated r5 equity "current_year_net_income" "Current Year Net Income" current_income
  r7 ← append_total r6 equity "total_equity" "Total Equity" (owned +ℤ current_income)
  r8 ←
      append_total r7 liabilities_and_equity "total_liabilities_and_equity"
        "Total Liabilities and Equity" (owed +ℤ owned +ℤ current_income)
  if not (eq_ℤ assets_total (owed +ℤ owned +ℤ current_income))
      then err unbalanced_balance_sheet
      else ok r8

unfoldable pub balance_sheet_as_of :
    Ledger
    → AccountingDate
    → TrialBalanceOptions
    → QuickBooksAccrualTrialBalancePolicy
    → Statement FinancialStatement
unfolding validated_accounts quickbooks_accrual_trial_balance_as_of sheet_balances sheet_sections
balance_sheet_as_of ledger as_of options policy = do
  accounts ← validated_accounts ledger
  trial_balance ←
      map_err accounting (quickbooks_accrual_trial_balance_as_of ledger as_of options policy)
  let (balances, current_income) = sheet_balances [] (pos 0) trial_balance.rows
  sheet_sections
      (record {
        kind = FinancialStatementKind.balance_sheet;
        from = none;
        as_of = as_of;
        policy = some policy;
        accounts = accounts;
        rows = [];
      })
      balances current_income options

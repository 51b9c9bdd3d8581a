-- ===== src/Statements/ProfitAndLoss.antt =====
-- `Ledger::profit_and_loss`.
use openqbw.Base.{List, [], ◌∷◌, none, some, err, map_err, ◌>>=◌, if◌then◌else◌}
use openqbw.Base.Int.{ℤ, ◌+ℤ◌, ◌-ℤ◌, ltb_ℤ, leb_ℤ}
use openqbw.Base.Text.{text_ord}
use openqbw.Base.Map.{Map, entry_add}
use openqbw.Accounting.Types.{
  AccountId, AccountingDate, Ledger, GeneralLedgerEntry, TrialBalanceOptions,
}
use openqbw.Accounting.Reports.{general_ledger_as_of}
use openqbw.Statements.Types.{
  FinancialStatementKind, income, cost_of_goods_sold, expense, other_income, other_expense, profit,
  FinancialStatement, Statement, accounting, invalid_period,
}
use openqbw.Statements.Sections.{
  validated_accounts, append_section, append_total, append_calculated,
}

-- The loop over the entries of the General Ledger.
unfoldable pub period_totals :
    AccountingDate → Map AccountId ℤ → List GeneralLedgerEntry → Map AccountId ℤ
unfolding entry_add
period_totals from balances [] = balances
period_totals from balances (e ∷ es) =
    period_totals from
      (if leb_ℤ from e.posting.date
        then entry_add e.account.id e.posting.signed_minor_units balances
        else balances)
      es

-- The sections of the statement, appended to a report with no rows.
unfoldable pub income_sections :
    FinancialStatement → Map AccountId ℤ → TrialBalanceOptions → Statement FinancialStatement
unfolding append_section append_total append_calculated ◌+ℤ◌ ◌-ℤ◌
income_sections report balances options = do
  (r1, income_total) ← append_section report balances income options
  r2 ← append_total r1 income "total_income" "Total Income" income_total
  (r3, cogs) ← append_section r2 balances cost_of_goods_sold options
  r4 ← append_total r3 cost_of_goods_sold "total_cost_of_goods_sold" "Total Cost of Goods Sold" cogs
  r5 ← append_calculated r4 profit "gross_profit" "Gross Profit" (income_total -ℤ cogs)
  (r6, expenses) ← append_section r5 balances expense options
  r7 ← append_total r6 expense "total_expense" "Total Expense" expenses
  r8 ←
      append_calculated r7 profit "net_operating_income" "Net Operating Income"
        (income_total -ℤ cogs -ℤ expenses)
  (r9, other_in) ← append_section r8 balances other_income options
  r10 ← append_total r9 other_income "total_other_income" "Total Other Income" other_in
  (r11, other_out) ← append_section r10 balances other_expense options
  r12 ← append_total r11 other_expense "total_other_expense" "Total Other Expense" other_out
  r13 ← append_calculated r12 profit "net_other_income" "Net Other Income" (other_in -ℤ other_out)
  append_calculated r13 profit "net_income" "Net Income"
      (income_total -ℤ cogs -ℤ expenses +ℤ other_in -ℤ other_out)

unfoldable pub profit_and_loss :
    Ledger → AccountingDate → AccountingDate → TrialBalanceOptions → Statement FinancialStatement
unfolding validated_accounts general_ledger_as_of period_totals income_sections
profit_and_loss ledger from through options = if ltb_ℤ through from then err invalid_period else do
  accounts ← validated_accounts ledger
  general_ledger ← map_err accounting (general_ledger_as_of ledger through)
  income_sections
      (record {
        kind = FinancialStatementKind.profit_and_loss;
        from = some from;
        as_of = through;
        policy = none;
        accounts = accounts;
        rows = [];
      })
      (period_totals from [] general_ledger.entries) options

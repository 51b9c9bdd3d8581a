-- ===== src/Examples/Statements.antt =====
-- Profit & Loss of the sample ledger, for a period that leaves out the first sale.
use openqbw.Base.{◌≡◌, refl, [], ◌∷◌, some, none, ok, ◌++◌}
use openqbw.Base.Int.{ℤ, pos, neg, ◌+ℤ◌}
use openqbw.Base.Text.{codes, text_ord}
use openqbw.Base.Map.{values}
use openqbw.Base.Sum.{sum_of}
use openqbw.Accounting.Types.{Account}
use openqbw.Statements.Types.{
  Section, income, cost_of_goods_sold, expense, other_income, other_expense, profit, RowKind,
  FinancialStatementKind, FinancialStatementRow, FinancialStatement,
}
use openqbw.Statements.ProfitAndLoss.{profit_and_loss}
use openqbw.Statements.NetIncome.Reported.{EndsWith, period_profit, profit_and_loss-net_income}
use openqbw.Examples.Data.{sales, interest, ledger, nonzero}
use openqbw.Examples.Ledgers.{ledger-IsLedger}
use Prim.Native.String.{String}

abbrev account_row_of : Section → Account → ℤ → FinancialStatementRow
account_row_of section a amount = record {
  key = codes "account:" ++ a.id;
  kind = RowKind.account;
  section = section;
  label = a.name;
  account = some a;
  signed_minor_units = some (neg amount);
  amount_minor_units = amount;
}

abbrev derived_row : RowKind → Section → String → String → ℤ → FinancialStatementRow
derived_row kind section key label amount = record {
  key = codes key;
  kind = kind;
  section = section;
  label = codes label;
  account = none;
  signed_minor_units = none;
  amount_minor_units = amount;
}

abbrev statement : FinancialStatement
statement = record {
  kind = FinancialStatementKind.profit_and_loss;
  from = some (pos 11);
  as_of = pos 21;
  policy = none;
  accounts = values ledger.accounts;
  rows =
      account_row_of income sales (pos 300)
      ∷ derived_row RowKind.subtotal income "total_income" "Total Income" (pos 300)
      ∷ derived_row RowKind.subtotal cost_of_goods_sold "total_cost_of_goods_sold"
          "Total Cost of Goods Sold" (pos 0)
      ∷ derived_row RowKind.calculated profit "gross_profit" "Gross Profit" (pos 300)
      ∷ derived_row RowKind.subtotal expense "total_expense" "Total Expense" (pos 0)
      ∷ derived_row RowKind.calculated profit "net_operating_income" "Net Operating Income"
          (pos 300)
      ∷ account_row_of other_income interest (pos 7)
      ∷ derived_row RowKind.subtotal other_income "total_other_income" "Total Other Income" (pos 7)
      ∷ derived_row RowKind.subtotal other_expense "total_other_expense" "Total Other Expense"
          (pos 0)
      ∷ derived_row RowKind.calculated profit "net_other_income" "Net Other Income" (pos 7)
      ∷ derived_row RowKind.calculated profit "net_income" "Net Income" (pos 307)
      ∷ [];
}

statement_made : profit_and_loss ledger (pos 11) (pos 21) nonzero ≡ ok statement
unfolding profit_and_loss ◌+ℤ◌ neg
statement_made = refl

profit_and_loss-net_income_example :
    EndsWith statement "net_income"
      (neg (sum_of (period_profit ledger (pos 11) (pos 21)) (values ledger.accounts)))
profit_and_loss-net_income_example =
    profit_and_loss-net_income ledger (pos 11) (pos 21) nonzero statement ledger-IsLedger
      statement_made

-- ===== src/Examples/Exports.antt =====
-- Trial Balances written as CSV, read back and reconciled.
use openqbw.Base.{◌≡◌, ◌↔◌, refl, true, List, [], ◌∷◌, map, Option, none, some, ok, arith, Outcome}
use openqbw.Base.Int.{ℤ, pos, negsuc}
use openqbw.Base.Map.{Map}
use openqbw.Base.Text.{Text, codes, text_ord, is_whitespace}
use openqbw.Accounting.Types.{AccountId, Account, TrialBalanceRow, TrialBalance}
use openqbw.Reconcile.Compare.{
  TrialBalance as Balances, from_balances, reconcile_trial_balances, passes, is_balanced,
}
use openqbw.Reconcile.Compare.Totals.{IsTotalled, from_balances-IsTotalled}
use openqbw.Reconcile.Compare.Verdict.{passes-reconcile_trial_balances_iff}
use openqbw.Reconcile.Csv.{parse_csv_records}
use openqbw.Reconcile.Money.{parse_money_cents}
use openqbw.ReportOutput.Checks.{ReportMetadata}
use openqbw.ReportOutput.Csv.RoundTrip.{csv_rows, read_back, parse_csv_records-csv_rows}
use openqbw.ReportOutput.TrialBalance.{format_cents, trial_balance_csv_with_account_catalog}
use openqbw.ReportOutput.TrialBalance.Amounts.{parse_money_cents-format_cents}
use openqbw.Examples.Data.{cash, till, sales, ledger}

-- A row with a comma and quotes in one field, an empty field, and a field of two lines.
abbrev quoted_rows : List (List (Option Text))
quoted_rows =
    (some (codes "Cash, \"main\"") ∷ none ∷ some (codes "1\r\n2") ∷ [])
    ∷ (some (codes "b") ∷ [])
    ∷ []

parse_csv_records-csv_rows_example :
    parse_csv_records (csv_rows quoted_rows) ≡ ok (map (map read_back) quoted_rows)
parse_csv_records-csv_rows_example = parse_csv_records-csv_rows quoted_rows (tt, (tt, tt))

abbrev entries : List (Text × ℤ)
entries = (codes " cash ", pos 500) ∷ (codes "sales", negsuc 499) ∷ []

abbrev balances : Balances
balances = record {
  balances_cents = (codes "cash", pos 500) ∷ (codes "sales", negsuc 499) ∷ [];
  total_debits_cents = pos 500;
  total_credits_cents = pos 500;
}

entries_added : from_balances entries ≡ ok balances
unfolding from_balances is_whitespace
entries_added = refl

from_balances-IsTotalled_example : IsTotalled balances
from_balances-IsTotalled_example = from_balances-IsTotalled entries entries_added

passes-reconcile_trial_balances_iff_example :
    (passes (reconcile_trial_balances balances balances) ≡ true)
    ↔ ((balances ≡ balances) × (is_balanced balances ≡ true))
passes-reconcile_trial_balances_iff_example =
    passes-reconcile_trial_balances_iff entries entries entries_added entries_added

parse_money_cents-format_cents_example :
    parse_money_cents (format_cents (negsuc 1233)) ≡ ok (negsuc 1233)
parse_money_cents-format_cents_example =
    parse_money_cents-format_cents (negsuc 1233) (omega arith) (omega arith)

abbrev by_id : Map AccountId Account
by_id = ledger.accounts

abbrev row_of : Account → ℤ → Option ℤ → Option ℤ → TrialBalanceRow
row_of account amount debit credit = record {
  account = account;
  signed_minor_units = amount;
  debit_minor_units = debit;
  credit_minor_units = credit;
}

abbrev report : TrialBalance
report = record {
  as_of = pos 20;
  rows =
      row_of till (pos 500) (some (pos 500)) none
      ∷ row_of sales (negsuc 499) none (some (pos 500))
      ∷ [];
}

abbrev metadata : ReportMetadata
metadata = record {
  entity_id = codes "e";
  source_file = codes "s";
  parser_version = codes "v";
  generated_at = codes "now";
  trial_balance_policy = none;
}

abbrev names : Map AccountId Text
names =
    (codes "cash", codes "cash")
    ∷ (codes "sales", codes "sales")
    ∷ (codes "till", codes "cash:till")
    ∷ []

abbrev value_or_empty : {E : Type 0} → Outcome E Text → Text
value_or_empty (ok text) = text
value_or_empty other = []

abbrev text : Text
text = value_or_empty (trial_balance_csv_with_account_catalog report metadata (cash ∷ []))

-- ===== src/Examples/Ledgers.antt =====
-- The reports of the sample ledger, and the checks of small charts.
use openqbw.Base.{◌≡◌, ◌≢◌, ◌↔◌, refl, [], ◌∷◌, map, some, none, ok, panic, stuck, All}
use openqbw.Base.Int.{pos, negsuc, ◌+ℤ◌}
use openqbw.Base.Text.{Text, codes, text_ord}
use openqbw.Base.Map.{Map, get, values}
use openqbw.Base.Order.{ne_of_=?}
use openqbw.Base.Sort.{IsOrdered}
use openqbw.Accounting.Types.{
  AccountId, Account, TransactionId, GeneralLedger, complete, TrialBalance,
}
use openqbw.Accounting.Types.{credit, DebitCreditAmount, PostingProvenance}
use openqbw.Accounting.Construct.{new_amount}
use openqbw.Accounting.Hierarchy.{validate_account_hierarchy}
use openqbw.Accounting.Hierarchy.Exact.{IsRooted, validate_account_hierarchy_iff}
use openqbw.Accounting.Hierarchy.Termination.{validate_account_hierarchy-ne-stuck}
use openqbw.Accounting.Hierarchy.Panics.{validate_account_hierarchy_panics}
use openqbw.Accounting.Validity.{IsLedger, new_ledger-IsLedger}
use openqbw.Accounting.Selection.{
  first_ambiguous, in_transaction, reported, shown, IsEntry, entries_of,
}
use openqbw.Accounting.GeneralLedger.{sorted_entries, general_ledger_iff, general_ledger_contents}
use openqbw.Accounting.Reports.{
  compare_entries, general_ledger_as_of, trial_balance_as_of,
  quickbooks_accrual_trial_balance_as_of, total_debit, total_credit,
}
use openqbw.Accounting.TrialBalance.Rows.{IsShowable, rows_for, row_of}
use openqbw.Accounting.TrialBalance.Plain.{plain_balance, trial_balance_iff, trial_balance_contents}
use openqbw.Accounting.TrialBalance.Accrual.{accrual_balance}
use openqbw.Accounting.TrialBalance.AccrualReport.{
  IsPolicy, accrual_trial_balance_iff, accrual_trial_balance_contents,
}
use openqbw.ReportOutput.Accepted.{validate_trial_balance-trial_balance_as_of}
use openqbw.ReportOutput.Checks.{validate_trial_balance}
use openqbw.ReportOutput.GeneralLedger.{validate_general_ledger}
use openqbw.ReportOutput.GeneralLedger.Accepted.{validate_general_ledger-general_ledger_as_of}
use openqbw.Examples.Data.{
  cash, till, sales, interest, earnings, chart, postings, ledger, ledger_made, nonzero, policy,
}
use mathlib.Core.List.{Perm}

new_ledger-IsLedger_example :
    IsLedger ledger × (ledger.postings ≡ postings) × (ledger.completeness ≡ complete)
new_ledger-IsLedger_example = new_ledger-IsLedger chart postings complete ledger ledger_made

pub ledger-IsLedger : IsLedger ledger
ledger-IsLedger = new_ledger-IsLedger_example.0

validate_account_hierarchy_iff_example :
    (validate_account_hierarchy ledger.accounts ≡ ok tt)
    ↔ All (IsRooted ledger.accounts) (values ledger.accounts)
validate_account_hierarchy_iff_example =
    validate_account_hierarchy_iff ledger.accounts ledger-IsLedger.chart

validate_account_hierarchy-ne-stuck_example : validate_account_hierarchy ledger.accounts ≢ stuck
validate_account_hierarchy-ne-stuck_example = validate_account_hierarchy-ne-stuck ledger.accounts

abbrev under : Account → Text → Account
under a parent = record a { parent_account_id = some parent }

-- The till is under the cash account, which is under a missing account.
abbrev broken : Map AccountId Account
broken = (till.id, under till (codes "cash")) ∷ (cash.id, under cash (codes "gone")) ∷ []

validate_account_hierarchy_panics_example : validate_account_hierarchy broken ≡ panic
unfolding get
validate_account_hierarchy_panics_example =
    validate_account_hierarchy_panics (under till (codes "cash")) (under cash (codes "gone"))
      (codes "cash") (codes "gone") (cash.id, under cash (codes "gone")) [] refl
      (ne_of_=? (codes "cash") (codes "till") refl) refl refl refl

general_ledger_iff_example :
    ((gl : GeneralLedger) × (general_ledger_as_of ledger (pos 21) ≡ ok gl)) ↔ (
      (ledger.completeness ≡ complete)
      × (first_ambiguous (pos 21) ledger.postings ≡ none)
      × ((t : TransactionId) → reported (pos 21) (in_transaction t) ledger.postings ≡ pos 0))
general_ledger_iff_example = general_ledger_iff ledger (pos 21) ledger-IsLedger

abbrev report : TrialBalance
report = record {
  as_of = pos 21;
  rows =
      row_of cash (pos 7)
      ∷ row_of interest (negsuc 6)
      ∷ row_of sales (negsuc 799)
      ∷ row_of till (pos 800)
      ∷ [];
}

report_made : trial_balance_as_of ledger (pos 21) nonzero ≡ ok report
unfolding trial_balance_as_of ◌+ℤ◌
report_made = refl

trial_balance_contents_example :
    (report.as_of ≡ pos 21)
    × (report.rows ≡ rows_for nonzero (plain_balance ledger (pos 21)) (values ledger.accounts))
    × (total_debit report ≡ total_credit report)
trial_balance_contents_example =
    trial_balance_contents ledger (pos 21) nonzero report ledger-IsLedger report_made

trial_balance_iff_example :
    ((tb : TrialBalance) × (trial_balance_as_of ledger (pos 21) nonzero ≡ ok tb)) ↔ (
      ((gl : GeneralLedger) × (general_ledger_as_of ledger (pos 21) ≡ ok gl))
      × All (λ a. IsShowable (plain_balance ledger (pos 21) a)) (values ledger.accounts))
trial_balance_iff_example = trial_balance_iff ledger (pos 21) nonzero ledger-IsLedger

abbrev accrual_report : TrialBalance
accrual_report = record {
  as_of = pos 21;
  rows =
      row_of cash (pos 7)
      ∷ row_of earnings (negsuc 499)
      ∷ row_of interest (negsuc 6)
      ∷ row_of sales (negsuc 299)
      ∷ row_of till (pos 800)
      ∷ [];
}

accrual_report_made :
    quickbooks_accrual_trial_balance_as_of ledger (pos 21) nonzero policy ≡ ok accrual_report
unfolding quickbooks_accrual_trial_balance_as_of ◌+ℤ◌
accrual_report_made = refl

accrual_trial_balance_contents_example :
    (accrual_report.as_of ≡ pos 21)
    × (accrual_report.rows
        ≡ rows_for nonzero (accrual_balance ledger (pos 21) policy) (values ledger.accounts))
    × (total_debit accrual_report ≡ total_credit accrual_report)
accrual_trial_balance_contents_example =
    accrual_trial_balance_contents ledger (pos 21) nonzero policy accrual_report ledger-IsLedger
      accrual_report_made

accrual_trial_balance_iff_example :
    ((tb : TrialBalance) × (quickbooks_accrual_trial_balance_as_of ledger (pos 21) nonzero policy
        ≡ ok tb))
    ↔ (IsPolicy ledger (pos 21) policy
        × ((gl : GeneralLedger) × (general_ledger_as_of ledger (pos 21) ≡ ok gl))
        × All (λ a. IsShowable (accrual_balance ledger (pos 21) policy a)) (values ledger.accounts))
accrual_trial_balance_iff_example =
    accrual_trial_balance_iff ledger (pos 21) nonzero policy ledger-IsLedger

abbrev general_ledger : GeneralLedger
general_ledger = record { as_of = pos 21; entries = sorted_entries ledger (pos 21) }

general_ledger_made : general_ledger_as_of ledger (pos 21) ≡ ok general_ledger
unfolding general_ledger_as_of entries_of ◌+ℤ◌
general_ledger_made = refl

general_ledger_contents_example :
    (general_ledger.as_of ≡ pos 21)
    × IsOrdered compare_entries general_ledger.entries
    × Perm (map (λ e. e.posting) general_ledger.entries) (shown (pos 21) ledger.postings)
    × All (IsEntry ledger.accounts (pos 21)) general_ledger.entries
general_ledger_contents_example =
    general_ledger_contents ledger (pos 21) general_ledger ledger-IsLedger general_ledger_made

-- A credit of 500.
abbrev credited : DebitCreditAmount
credited = record { side = credit; minor_units = pos 500 }

credited_made : new_amount credit (pos 500) ≡ ok credited
unfolding new_amount
credited_made = refl

abbrev source : PostingProvenance
source = record {
  source_row = codes "r";
  page_number = none;
  slot_number = none;
  decoder = codes "d";
}

validate_trial_balance-trial_balance_as_of_example : validate_trial_balance report ≡ ok tt
validate_trial_balance-trial_balance_as_of_example =
    validate_trial_balance-trial_balance_as_of ledger (pos 21) nonzero report ledger-IsLedger
      report_made

validate_general_ledger-general_ledger_as_of_example :
    validate_general_ledger general_ledger ≡ ok tt
validate_general_ledger-general_ledger_as_of_example =
    validate_general_ledger-general_ledger_as_of ledger (pos 21) general_ledger ledger-IsLedger
      general_ledger_made

-- ===== src/ReportOutput/TrialBalance/Reread.antt =====
-- The Trial Balance that is written is the one that is read.
use openqbw.Base.{List, [], ◌∷◌, Option, none, some}
use openqbw.Base.Map.{Map}
use openqbw.Base.Text.{Text, codes, text_ord}
use openqbw.Accounting.Types.{TrialBalance}
use openqbw.Reconcile.Csv.{Record}
use openqbw.Reconcile.Native.{parse_quickbooks_rows}
use openqbw.Reconcile.Compare.{TrialBalance as Balances}
use openqbw.Reconcile.Errors.{Result}
use openqbw.Reconcile.Normalized.{NormalizedHeader, parse_normalized_rows}

-- The names of the columns, as the fields of a row.
abbrev heading_fields : List (Option Text)
heading_fields =
    some (codes "entity_id")
    ∷ some (codes "as_of_day")
    ∷ some (codes "account_id")
    ∷ some (codes "account_number")
    ∷ some (codes "account_name")
    ∷ some (codes "account_full_name")
    ∷ some (codes "account_display_name")
    ∷ some (codes "parent_account_id")
    ∷ some (codes "account_type")
    ∷ some (codes "quickbooks_classification")
    ∷ some (codes "active")
    ∷ some (codes "activity")
    ∷ some (codes "debit_cents")
    ∷ some (codes "debit")
    ∷ some (codes "credit_cents")
    ∷ some (codes "credit")
    ∷ some (codes "net_cents")
    ∷ some (codes "net")
    ∷ some (codes "source_file")
    ∷ some (codes "parser_version")
    ∷ some (codes "generated_at")
    ∷ some (codes "tb_policy_source")
    ∷ some (codes "tb_policy_as_of")
    ∷ some (codes "tb_policy_fiscal_year_start")
    ∷ some (codes "tb_policy_retained_earnings_account_id")
    ∷ some (codes "tb_policy_retained_earnings_report_name")
    ∷ []

-- The branch of the reader on the header that it finds.
abbrev after_header : List Record → Option NormalizedHeader → Result Balances
after_header rows (some h) = parse_normalized_rows rows h
after_header rows none = parse_quickbooks_rows rows

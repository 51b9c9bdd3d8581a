-- ===== src/ReportOutput/TrialBalance.antt =====
-- `trial_balance_csv_with_account_catalog`, with the checks before it.
pub mod Rows
pub mod Reread
pub mod Amounts
use openqbw.Base.{
  ℕ, ◌+◌, ◌/◌, ◌%◌, Bool, true, false, not, ◌&&◌, ◌||◌, List, [], ◌∷◌, ◌++◌, map, Option, none,
  some, ok, err, ◌>>=◌, ◌>>◌, if◌then◌else◌,
}
use openqbw.Base.Int.{ℤ, pos, negsuc, neg, eq_ℤ, ltb_ℤ, pos_part, neg_part}
use openqbw.Base.Map.{Map}
use openqbw.Base.Order.{◌=?◌}
use openqbw.Base.Set.{contains}
use openqbw.Base.Sort.{sort_by}
use openqbw.Base.Text.{Text, codes, text_ord, is_blank, compare_text}
use openqbw.Base.Text.Decimal.{i64_to_string, nat_to_string}
use openqbw.Base.Text.Strings.{list_is_empty}
use openqbw.Accounting.Types.{
  AccountId, Account, AccountActivity, active, inactive, unknown, TrialBalanceRow, TrialBalance,
}
use openqbw.Accounting.Types.Classification.{AccountType, QuickBooksAccountClassification}
use openqbw.Accounting.Types.Classification.AccountType.{
  asset, liability, equity, income, expense, cost_of_goods_sold, other,
}
use openqbw.Accounting.Types.Classification.QuickBooksAccountClassification.{
  bank, accounts_receivable, other_current_asset, fixed_asset, other_asset, accounts_payable,
  credit_card, other_current_liability, long_term_liability, other_income, other_expense,
}
use Prim.Native.Nat.{Ordering}
use openqbw.Accounting.Reports.{total_debit, total_credit}
use openqbw.ReportOutput.Csv.{csv_row}
use openqbw.ReportOutput.Csv.RoundTrip.{csv_rows}
use openqbw.ReportOutput.Errors.{
  Output, empty_metadata, invalid_trial_balance_policy_metadata, unbalanced_trial_balance,
  inconsistent_trial_balance_row, duplicate_account_id,
}
use openqbw.ReportOutput.Names.{
  account_full_names_with_catalog, account_display_names_with_catalog, lookup_name,
}
use openqbw.ReportOutput.Checks.{
  TrialBalancePolicyProvenance, ReportMetadata, validate_metadata, validate_trial_balance,
}

abbrev pub option_map {ℓ κ} : {A : Type ℓ} {B : Type κ} → (A → B) → Option A → Option B
option_map f none = none
option_map f (some a) = some (f a)

unfoldable pub account_type_name : AccountType → Text
account_type_name asset = codes "asset"
account_type_name liability = codes "liability"
account_type_name equity = codes "equity"
account_type_name income = codes "income"
account_type_name expense = codes "expense"
account_type_name cost_of_goods_sold = codes "cost_of_goods_sold"
account_type_name (other value) = value

unfoldable pub csv_legacy_active : AccountActivity → Option Text
csv_legacy_active active = some (codes "true")
csv_legacy_active inactive = some (codes "false")
csv_legacy_active unknown = none

-- `AccountActivity::as_str`
unfoldable pub activity_name : AccountActivity → Text
activity_name active = codes "active"
activity_name inactive = codes "inactive"
activity_name unknown = codes "unknown"

-- `{:02}` of a number below 100
abbrev pub two_digits : ℕ → Text
two_digits n = (48 + n / 10) ∷ (48 + n % 10) ∷ []

unfoldable pub format_cents : ℤ → Text
format_cents cents =
    let absolute = pos_part cents + neg_part cents in
    let sign : Text = if ltb_ℤ cents (pos 0) then 45 ∷ [] else [] in
    sign ++ (nat_to_string (absolute / 100) ++ 46 ∷ two_digits (absolute % 100))

unfoldable pub trial_balance_account_display_name : Text → ReportMetadata → Account → Text
trial_balance_account_display_name decoded m account = elim m.trial_balance_policy [
  | none ↦ decoded
  | some policy ↦
      if policy.retained_earnings_account_id =? account.id
      then elim policy.retained_earnings_report_name [ none ↦ decoded | some name ↦ name ]
      else decoded
]

-- `QuickBooksAccountClassification::source_label`
unfoldable pub source_label : QuickBooksAccountClassification → Text
source_label bank = codes "Bank"
source_label accounts_receivable = codes "AccountsReceivable"
source_label other_current_asset = codes "OtherCurrentAsset"
source_label fixed_asset = codes "FixedAsset"
source_label other_asset = codes "OtherAsset"
source_label accounts_payable = codes "AccountsPayable"
source_label credit_card = codes "CreditCard"
source_label other_current_liability = codes "OtherCurrentLiability"
source_label long_term_liability = codes "LongTermLiability"
source_label QuickBooksAccountClassification.equity = codes "Equity"
source_label QuickBooksAccountClassification.income = codes "Income"
source_label QuickBooksAccountClassification.cost_of_goods_sold = codes "CostOfGoodsSold"
source_label QuickBooksAccountClassification.expense = codes "Expense"
source_label other_income = codes "OtherIncome"
source_label other_expense = codes "OtherExpense"

unfoldable pub headings : Text
headings =
    codes
      "entity_id,as_of_day,account_id,account_number,account_name,account_full_name,account_display_name,parent_account_id,account_type,quickbooks_classification,active,activity,debit_cents,debit,credit_cents,credit,net_cents,net,source_file,parser_version,generated_at,tb_policy_source,tb_policy_as_of,tb_policy_fiscal_year_start,tb_policy_retained_earnings_account_id,tb_policy_retained_earnings_report_name"

abbrev policy_field : ReportMetadata → (TrialBalancePolicyProvenance → Text) → Option Text
policy_field m field = option_map field m.trial_balance_policy

abbrev policy_report_name : Option TrialBalancePolicyProvenance → Option Text
policy_report_name none = none
policy_report_name (some policy) = policy.retained_earnings_report_name

-- The cells of one row.
unfoldable pub row_fields :
    ReportMetadata → Text → TrialBalanceRow → (full_name display_name : Text) → List (Option Text)
row_fields m as_of_day row full_name display_name =
    some m.entity_id
    ∷ some as_of_day
    ∷ some row.account.id
    ∷ row.account.account_number
    ∷ some row.account.name
    ∷ some full_name
    ∷ some display_name
    ∷ row.account.parent_account_id
    ∷ some (account_type_name row.account.account_type)
    ∷ option_map source_label row.account.quickbooks_classification
    ∷ csv_legacy_active row.account.activity
    ∷ some (activity_name row.account.activity)
    ∷ option_map i64_to_string row.debit_minor_units
    ∷ option_map format_cents row.debit_minor_units
    ∷ option_map i64_to_string row.credit_minor_units
    ∷ option_map format_cents row.credit_minor_units
    ∷ some (i64_to_string row.signed_minor_units)
    ∷ some (format_cents row.signed_minor_units)
    ∷ some m.source_file
    ∷ some m.parser_version
    ∷ some m.generated_at
    ∷ policy_field m (λ policy. policy.source)
    ∷ policy_field m (λ policy. policy.as_of)
    ∷ policy_field m (λ policy. policy.fiscal_year_start)
    ∷ policy_field m (λ policy. policy.retained_earnings_account_id)
    ∷ policy_report_name m.trial_balance_policy
    ∷ []

-- The loop over the rows; `out` is what the rounds append.
unfoldable pub csv_body :
    ReportMetadata
    → Text
    → (full_names display_names : Map AccountId Text) → List TrialBalanceRow
    → Output Text
csv_body m as_of_day full_names display_names [] = ok []
csv_body m as_of_day full_names display_names (row ∷ rows) =
    lookup_name display_names row.account.id >>= λ decoded.
    lookup_name full_names row.account.id >>= λ full_name.
    let shown = trial_balance_account_display_name decoded m row.account in
    csv_body m as_of_day full_names display_names rows >>= λ rest.
    ok (csv_row (row_fields m as_of_day row full_name shown) ++ rest)

abbrev pub compare_rows : TrialBalanceRow → TrialBalanceRow → Ordering
compare_rows left right = compare_text left.account.id right.account.id

abbrev pub sorted_rows : TrialBalance → List TrialBalanceRow
sorted_rows report = sort_by compare_rows report.rows

abbrev pub row_account : TrialBalanceRow → Account
row_account row = row.account

unfoldable pub trial_balance_csv_with_account_catalog :
    TrialBalance → ReportMetadata → List Account → Output Text
trial_balance_csv_with_account_catalog report m account_catalog = do
  validate_trial_balance report
  validate_metadata m
  full_names ← account_full_names_with_catalog account_catalog (map row_account report.rows)
  display_names ←
      account_display_names_with_catalog account_catalog (map row_account report.rows) full_names
  body ← csv_body m (i64_to_string report.as_of) full_names display_names (sorted_rows report)
  ok (headings ++ 10 ∷ body)

-- `trial_balance_csv`
unfoldable pub trial_balance_csv : TrialBalance → ReportMetadata → Output Text
unfolding trial_balance_csv_with_account_catalog
trial_balance_csv report m = trial_balance_csv_with_account_catalog report m []

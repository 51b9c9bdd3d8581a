-- ===== src/ReportOutput/Checks.antt =====
-- `ReportMetadata::validate` and `validate_trial_balance`.
use openqbw.Base.{
  Bool, true, false, not, ◌&&◌, ◌||◌, List, [], ◌∷◌, Option, none, some, ok, err, ◌>>◌,
  if◌then◌else◌,
}
use openqbw.Base.Int.{ℤ, pos, neg, eq_ℤ, ltb_ℤ}
use openqbw.Base.Order.{◌=?◌}
use openqbw.Base.Set.{contains}
use openqbw.Base.Text.{Text, codes, text_ord, is_blank}
use openqbw.Accounting.Types.{AccountId, TrialBalanceRow, TrialBalance}
use openqbw.Accounting.Reports.{total_debit, total_credit}
use openqbw.ReportOutput.Errors.{
  Output, empty_metadata, invalid_trial_balance_policy_metadata, unbalanced_trial_balance,
  inconsistent_trial_balance_row, duplicate_account_id,
}

pub record TrialBalancePolicyProvenance : Type 0 where
  pub source : Text
  pub fiscal_year_start : Text
  pub as_of : Text
  pub retained_earnings_account_id : Text
  pub retained_earnings_report_name : Option Text

pub record ReportMetadata : Type 0 where
  pub entity_id : Text
  pub source_file : Text
  pub parser_version : Text
  pub generated_at : Text
  pub trial_balance_policy : Option TrialBalancePolicyProvenance

abbrev require_field : Text → Text → Output (Unit {0})
require_field field value = if is_blank value then err (empty_metadata field) else ok tt

abbrev is_given_blank : Option Text → Bool
is_given_blank none = false
is_given_blank (some value) = is_blank value

unfoldable pub validate_policy : Option TrialBalancePolicyProvenance → Output (Unit {0})
validate_policy none = ok tt
validate_policy (some policy) =
    if not (policy.source =? codes "explicit")
      || (is_blank policy.fiscal_year_start
          || (is_blank policy.as_of
              || (is_blank policy.retained_earnings_account_id
                  || is_given_blank policy.retained_earnings_report_name)))
    then err invalid_trial_balance_policy_metadata
    else ok tt

-- `ReportMetadata::validate`
unfoldable pub validate_metadata : ReportMetadata → Output (Unit {0})
unfolding validate_policy
validate_metadata m = do
  require_field (codes "entity_id") m.entity_id
  require_field (codes "source_file") m.source_file
  require_field (codes "parser_version") m.parser_version
  require_field (codes "generated_at") m.generated_at
  validate_policy m.trial_balance_policy

abbrev shows_amount : ℤ → Option ℤ → Bool
shows_amount amount none = false
shows_amount amount (some shown) = eq_ℤ shown amount

abbrev shows_nothing : Option ℤ → Bool
shows_nothing none = true
shows_nothing (some shown) = false

-- `display_matches_signed`
unfoldable pub display_matches_signed : TrialBalanceRow → Bool
unfolding neg
display_matches_signed row =
    if ltb_ℤ (pos 0) row.signed_minor_units
    then shows_amount row.signed_minor_units row.debit_minor_units
      && shows_nothing row.credit_minor_units
    else if ltb_ℤ row.signed_minor_units (pos 0)
    then shows_nothing row.debit_minor_units
      && shows_amount (neg row.signed_minor_units) row.credit_minor_units
    else shows_nothing row.debit_minor_units && shows_nothing row.credit_minor_units

unfoldable pub validate_rows : List AccountId → List TrialBalanceRow → Output (Unit {0})
unfolding contains display_matches_signed
validate_rows ids [] = ok tt
validate_rows ids (row ∷ rows) =
    let rest = validate_rows (row.account.id ∷ ids) rows in
    if contains row.account.id ids
    then err (duplicate_account_id row.account.id)
    else if not (display_matches_signed row)
    then err (inconsistent_trial_balance_row row.account.id)
    else rest

unfoldable pub validate_trial_balance : TrialBalance → Output (Unit {0})
unfolding validate_rows total_debit total_credit
validate_trial_balance report =
    validate_rows [] report.rows
    >> (if eq_ℤ (total_debit report) (total_credit report)
        then ok tt
        else err (unbalanced_trial_balance (total_debit report) (total_credit report)))

-- ===== src/Reconcile/Compare.antt =====
-- `TrialBalance`, and `reconcile_trial_balances` with its verdict.
pub mod Match
pub mod Totals
pub mod Verdict
use openqbw.Base.{
  ℕ, ◌+◌, Bool, not, ◌&&◌, List, [], ◌∷◌, ◌++◌, none, some, ok, err, ◌>>=◌, if◌then◌else◌,
}
use openqbw.Base.Int.{ℤ, pos, neg, ◌+ℤ◌, ◌-ℤ◌, ltb_ℤ, leb_ℤ, eq_ℤ, fits_i64, pos_part, neg_part}
use openqbw.Base.Map.{Map, get, insert, contains_key}
use openqbw.Base.Text.{Text, text_ord}
use openqbw.Base.Text.Strings.{trim, list_is_empty}
use openqbw.Reconcile.Errors.{Result, empty_account_name, duplicate_account, amount_overflow}

pub record TrialBalance : Type 0 where
  pub balances_cents : Map Text ℤ
  pub total_debits_cents : ℤ
  pub total_credits_cents : ℤ

abbrev pub no_balances : TrialBalance
no_balances = record {
  balances_cents = [];
  total_debits_cents = pos 0;
  total_credits_cents = pos 0;
}

-- `.ok_or(TrialBalanceError::AmountOverflow)` on a checked operation
abbrev pub in_i64 : ℤ → Result ℤ
in_i64 a = if fits_i64 a then ok a else err amount_overflow

-- One round of the loop in `from_balances`.
unfoldable pub add_balance : TrialBalance → Text → ℤ → Result TrialBalance
unfolding trim get insert neg ◌+ℤ◌
add_balance result name balance =
    let account = trim name in
    let inserted = record result {
      balances_cents = insert account balance result.balances_cents;
    } in
    if list_is_empty account
    then err empty_account_name
    else if contains_key account result.balances_cents
    then err (duplicate_account account)
    else if leb_ℤ (pos 0) balance
    then (in_i64 (result.total_debits_cents +ℤ balance) >>= λ total.
        ok (record inserted { total_debits_cents = total }))
    else (in_i64 (neg balance) >>= λ credit.
        in_i64 (result.total_credits_cents +ℤ credit) >>= λ total.
        ok (record inserted { total_credits_cents = total }))

unfoldable pub add_balances : TrialBalance → List (Text × ℤ) → Result TrialBalance
unfolding add_balance
add_balances result [] = ok result
add_balances result ((name, balance) ∷ rest) =
    add_balance result name balance >>= λ next. add_balances next rest

-- `TrialBalance::from_balances`
unfoldable pub from_balances : List (Text × ℤ) → Result TrialBalance
unfolding add_balances
from_balances balances = add_balances no_balances balances

abbrev pub is_balanced : TrialBalance → Bool
is_balanced tb = eq_ℤ tb.total_debits_cents tb.total_credits_cents

pub record AccountVariance : Type 0 where
  pub account : Text
  pub variance_cents : ℤ

-- The variables of the two loops of `reconcile_trial_balances`.
pub record Variances : Type 0 where
  pub missing_accounts : List AccountVariance
  pub extra_accounts : List AccountVariance
  pub mismatched_accounts : List AccountVariance
  pub max_account_variance_cents : ℤ

abbrev pub no_variances : Variances
no_variances = record {
  missing_accounts = [];
  extra_accounts = [];
  mismatched_accounts = [];
  max_account_variance_cents = pos 0;
}

-- `max(variance.abs())`
abbrev pub max_abs : ℤ → ℤ → ℤ
max_abs a variance =
    let size = pos (pos_part variance + neg_part variance) in if ltb_ℤ a size then size else a

abbrev pub variance_of : Text → ℤ → AccountVariance
variance_of account variance = record { account = account; variance_cents = variance }

-- The two `Some` arms for a reference account that the actual balances hold.
unfoldable pub compare_some : Variances → Text → ℤ → ℤ → Variances
unfolding ◌-ℤ◌
compare_some s account reference_balance actual_balance =
    let variance = actual_balance -ℤ reference_balance in
    if not (eq_ℤ actual_balance reference_balance)
    then record s {
      mismatched_accounts = s.mismatched_accounts ++ variance_of account variance ∷ [];
      max_account_variance_cents = max_abs s.max_account_variance_cents variance;
    }
    else s

-- One round of the loop over the reference accounts.
unfoldable pub compare_reference : Map Text ℤ → Variances → Text → ℤ → Variances
unfolding get neg compare_some
compare_reference actual s account reference_balance = elim (get account actual) [
  | none ↦ record s {
    missing_accounts = s.missing_accounts ++ variance_of account (neg reference_balance) ∷ [];
    max_account_variance_cents = max_abs s.max_account_variance_cents (neg reference_balance);
  }
  | some actual_balance ↦ compare_some s account reference_balance actual_balance
]

-- One round of the loop over the actual accounts.
unfoldable pub compare_actual : Map Text ℤ → Variances → Text → ℤ → Variances
unfolding get
compare_actual reference s account actual_balance =
    if not (contains_key account reference)
    then record s {
      extra_accounts = s.extra_accounts ++ variance_of account actual_balance ∷ [];
      max_account_variance_cents = max_abs s.max_account_variance_cents actual_balance;
    }
    else s

-- A loop over the entries of a map.
unfoldable pub each_entry : (Variances → Text → ℤ → Variances) → Variances → Map Text ℤ → Variances
each_entry body s [] = s
each_entry body s ((account, balance) ∷ rest) = each_entry body (body s account balance) rest

pub record TrialBalanceReconciliation : Type 0 where
  pub variances : Variances
  pub reference_total_debits_cents : ℤ
  pub reference_total_credits_cents : ℤ
  pub actual_total_debits_cents : ℤ
  pub actual_total_credits_cents : ℤ
  pub debit_total_variance_cents : ℤ
  pub credit_total_variance_cents : ℤ
  pub net_total_variance_cents : ℤ

unfoldable pub compare_accounts : TrialBalance → TrialBalance → Variances
unfolding each_entry compare_reference compare_actual
compare_accounts reference actual =
    each_entry (compare_actual reference.balances_cents)
      (each_entry (compare_reference actual.balances_cents) no_variances reference.balances_cents)
      actual.balances_cents

unfoldable pub reconcile_trial_balances : TrialBalance → TrialBalance → TrialBalanceReconciliation
unfolding compare_accounts ◌-ℤ◌
reconcile_trial_balances reference actual = record {
  variances = compare_accounts reference actual;
  reference_total_debits_cents = reference.total_debits_cents;
  reference_total_credits_cents = reference.total_credits_cents;
  actual_total_debits_cents = actual.total_debits_cents;
  actual_total_credits_cents = actual.total_credits_cents;
  debit_total_variance_cents = actual.total_debits_cents -ℤ reference.total_debits_cents;
  credit_total_variance_cents = actual.total_credits_cents -ℤ reference.total_credits_cents;
  net_total_variance_cents =
      (actual.total_debits_cents -ℤ actual.total_credits_cents)
      -ℤ (reference.total_debits_cents -ℤ reference.total_credits_cents);
}

-- The four tests of `passes` on the account variances.
abbrev pub no_account_differs : Variances → Bool
no_account_differs v =
    list_is_empty v.missing_accounts
    && (list_is_empty v.extra_accounts
        && (list_is_empty v.mismatched_accounts && eq_ℤ v.max_account_variance_cents (pos 0)))

-- `TrialBalanceReconciliation::passes`
unfoldable pub passes : TrialBalanceReconciliation → Bool
passes r =
    no_account_differs r.variances
    && (eq_ℤ r.reference_total_debits_cents r.reference_total_credits_cents
        && (eq_ℤ r.actual_total_debits_cents r.actual_total_credits_cents
            && (eq_ℤ r.debit_total_variance_cents (pos 0)
                && (eq_ℤ r.credit_total_variance_cents (pos 0)
                    && eq_ℤ r.net_total_variance_cents (pos 0)))))

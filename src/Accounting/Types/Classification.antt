-- ===== src/Accounting/Types/Classification.antt =====
-- The account types, and the QuickBooks classification with its materialized codes.
use openqbw.Base.{
  ℕ, ◌≡◌, ◌≤◌, ◌↔◌, Bool, true, false, Option, none, some, Outcome, ok, err, ◌==◌, if◌then◌else◌,
  arith,
}
use openqbw.Base.Text.{Text, text_ord}
use openqbw.Base.Order.{◌=?◌}

pub data AccountType : Type 0 where
  asset liability equity income expense cost_of_goods_sold : AccountType
  other : Text → AccountType

-- The derived `PartialEq`
unfoldable pub account_type_eq : AccountType → AccountType → Bool
account_type_eq asset asset = true
account_type_eq liability liability = true
account_type_eq equity equity = true
account_type_eq income income = true
account_type_eq expense expense = true
account_type_eq cost_of_goods_sold cost_of_goods_sold = true
account_type_eq (other s) (other t) = s =? t
account_type_eq _ _ = false

pub data NormalBalance : Type 0 where
  debit credit : NormalBalance

unfoldable pub normal_balance : AccountType → Option NormalBalance
normal_balance asset = some debit
normal_balance expense = some debit
normal_balance cost_of_goods_sold = some debit
normal_balance liability = some credit
normal_balance equity = some credit
normal_balance income = some credit
normal_balance (other name) = none

unfoldable pub is_profit_and_loss : AccountType → Bool
is_profit_and_loss income = true
is_profit_and_loss expense = true
is_profit_and_loss cost_of_goods_sold = true
is_profit_and_loss asset = false
is_profit_and_loss liability = false
is_profit_and_loss equity = false
is_profit_and_loss (other name) = false

pub data QuickBooksAccountClassification : Type 0 where
  bank accounts_receivable other_current_asset fixed_asset other_asset accounts_payable credit_card
        other_current_liability long_term_liability equity income cost_of_goods_sold expense
        other_income other_expense :
      QuickBooksAccountClassification

unfoldable pub materialized_code : QuickBooksAccountClassification → ℕ
materialized_code bank = 0
materialized_code accounts_receivable = 1
materialized_code other_current_asset = 2
materialized_code fixed_asset = 3
materialized_code other_asset = 4
materialized_code accounts_payable = 5
materialized_code credit_card = 6
materialized_code other_current_liability = 7
materialized_code long_term_liability = 8
materialized_code QuickBooksAccountClassification.equity = 9
materialized_code QuickBooksAccountClassification.income = 10
materialized_code QuickBooksAccountClassification.cost_of_goods_sold = 11
materialized_code QuickBooksAccountClassification.expense = 12
materialized_code other_income = 13
materialized_code other_expense = 14

unfoldable pub trial_balance_type : QuickBooksAccountClassification → AccountType
trial_balance_type bank = asset
trial_balance_type accounts_receivable = asset
trial_balance_type other_current_asset = asset
trial_balance_type fixed_asset = asset
trial_balance_type other_asset = asset
trial_balance_type accounts_payable = liability
trial_balance_type credit_card = liability
trial_balance_type other_current_liability = liability
trial_balance_type long_term_liability = liability
trial_balance_type QuickBooksAccountClassification.equity = equity
trial_balance_type QuickBooksAccountClassification.income = income
trial_balance_type other_income = income
trial_balance_type QuickBooksAccountClassification.cost_of_goods_sold = cost_of_goods_sold
trial_balance_type QuickBooksAccountClassification.expense = expense
trial_balance_type other_expense = expense

pub data MappingError : Type 0 where
  uncalibrated_code : ℕ → MappingError

unfoldable pub map_materialized_account_type_code :
    ℕ → Outcome MappingError QuickBooksAccountClassification
map_materialized_account_type_code code =
    if code == 0
    then ok bank
    else if code == 1
    then ok accounts_receivable
    else if code == 2
    then ok other_current_asset
    else if code == 3
    then ok fixed_asset
    else if code == 4
    then ok other_asset
    else if code == 5
    then ok accounts_payable
    else if code == 6
    then ok credit_card
    else if code == 7
    then ok other_current_liability
    else if code == 8
    then ok long_term_liability
    else if code == 9
    then ok QuickBooksAccountClassification.equity
    else if code == 10
    then ok QuickBooksAccountClassification.income
    else if code == 11
    then ok QuickBooksAccountClassification.cost_of_goods_sold
    else if code == 12
    then ok QuickBooksAccountClassification.expense
    else if code == 13
    then ok other_income
    else if code == 14
    then ok other_expense
    else err (uncalibrated_code code)

-- The code table and its reading agree: a code maps to a classification exactly when that
-- classification has the code, and the codes that map to none are those from 15 on.
pub map_code-iff_code :
    (n : ℕ) (c : QuickBooksAccountClassification)
    → ((map_materialized_account_type_code n ≡ ok c) ↔ (materialized_code c ≡ n))
      × ((map_materialized_account_type_code n ≡ err (uncalibrated_code n)) ↔ (15 ≤ n))
unfolding map_materialized_account_type_code materialized_code
map_code-iff_code n c =
    ((λ h. ground arith, λ h. ground arith), (λ h. ground arith, λ h. ground arith))

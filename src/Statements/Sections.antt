-- ===== src/Statements/Sections.antt =====
-- The checks on the chart, and the rows of a statement.
use openqbw.Base.{
  List, [], ◌∷◌, ◌++◌, Option, none, some, ok, err, panic, ◌>>=◌, Bool, true, false, not, ◌&&◌,
  if◌then◌else◌,
}
use openqbw.Base.Int.{ℤ, pos, neg, ◌+ℤ◌, eq_ℤ, fits_i64}
use openqbw.Base.Text.{codes, text_ord}
use openqbw.Base.Map.{Map, get, get_or_zero, values}
use openqbw.Accounting.Types.{Account, AccountId, Ledger, TrialBalanceOptions}
use openqbw.Accounting.Types.Classification.{
  AccountType, QuickBooksAccountClassification, trial_balance_type, account_type_eq,
}
use openqbw.Statements.Types.{
  Section, income, cost_of_goods_sold, expense, other_income, other_expense, assets, liabilities,
  equity, section_eq, RowKind, account, subtotal, calculated, FinancialStatementRow,
  FinancialStatement, Statement, unclassified_account, conflicting_classification, amount_overflow,
}
use Prim.Native.String.{String}

-- The closure of `validated_accounts`.
unfoldable pub validate_classification : Account → Statement Account
unfolding trial_balance_type account_type_eq
validate_classification a = elim a.account_type [
  | AccountType.other name ↦ err (unclassified_account a.id)
  | _ ↦ elim a.quickbooks_classification [
    | none ↦ err (unclassified_account a.id)
    | some c ↦
        if not (account_type_eq (trial_balance_type c) a.account_type)
        then err (conflicting_classification a.id)
        else ok a
  ]
]

unfoldable pub validated_list : List Account → Statement (List Account)
unfolding validate_classification
validated_list [] = ok []
validated_list (a ∷ rest) = do
  a' ← validate_classification a
  rest' ← validated_list rest
  ok (a' ∷ rest')

unfoldable pub validated_accounts : Ledger → Statement (List Account)
unfolding validated_list
validated_accounts ledger = validated_list (values ledger.accounts)

-- The section of an account by its type; `none` is the `unreachable!` of an unclassified one.
abbrev pub type_section : AccountType → Option Section
type_section AccountType.asset = some assets
type_section AccountType.liability = some liabilities
type_section AccountType.equity = some equity
type_section AccountType.income = some income
type_section AccountType.cost_of_goods_sold = some cost_of_goods_sold
type_section AccountType.expense = some expense
type_section (AccountType.other name) = none

unfoldable pub section_for : Account → Option Section
section_for a = elim a.quickbooks_classification [
  | none ↦ type_section a.account_type
  | some QuickBooksAccountClassification.other_income ↦ some other_income
  | some QuickBooksAccountClassification.other_expense ↦ some other_expense
  | some _ ↦ type_section a.account_type
]

-- Whether an account's presentation sign is opposite to the ledger's.
abbrev pub is_credit_presented : AccountType → Bool
is_credit_presented AccountType.income = true
is_credit_presented AccountType.liability = true
is_credit_presented AccountType.equity = true
is_credit_presented AccountType.asset = false
is_credit_presented AccountType.expense = false
is_credit_presented AccountType.cost_of_goods_sold = false
is_credit_presented (AccountType.other name) = false

unfoldable pub presented_amount : Map AccountId ℤ → Account → ℤ
unfolding get neg
presented_amount balances a =
    let signed = get_or_zero a.id balances in
    if is_credit_presented a.account_type then neg signed else signed

unfoldable pub exact_amount : ℤ → Statement ℤ
exact_amount value = if fits_i64 value then ok value else err amount_overflow

-- The row of one account.
unfoldable pub account_row : Map AccountId ℤ → Section → Account → Statement FinancialStatementRow
unfolding presented_amount exact_amount get
account_row balances section a = do
  signed ← exact_amount (get_or_zero a.id balances)
  amount ← exact_amount (presented_amount balances a)
  ok (record {
    key = codes "account:" ++ a.id;
    kind = account;
    section = section;
    label = a.name;
    account = some a;
    signed_minor_units = some signed;
    amount_minor_units = amount;
  })

-- The loop of `append_section` over the accounts: the rows that it pushes, and the total.
unfoldable pub section_rows :
    Map AccountId ℤ
    → Section
    → TrialBalanceOptions
    → List Account
    → Statement (List FinancialStatementRow × ℤ)
section_rows balances section options [] = ok ([], pos 0)
section_rows balances section options (a ∷ rest) =
    let later = section_rows balances section options rest in
    elim (section_for a) [
      | none ↦ panic
      | some s ↦
          if not (section_eq s section)
          then later
          else let amount = presented_amount balances a in
            if eq_ℤ (get_or_zero a.id balances) (pos 0) && not options.include_zero_balance_accounts
            then later >>= (λ r. ok (r.0, amount +ℤ r.1))
            else account_row balances section a >>= λ row.
                later >>= λ r. ok (row ∷ r.0, amount +ℤ r.1)
    ]

unfoldable pub append_section :
    FinancialStatement
    → Map AccountId ℤ
    → Section
    → TrialBalanceOptions
    → Statement (FinancialStatement × ℤ)
unfolding section_rows section_for presented_amount account_row get
append_section report balances section options = do
  (rows, total) ← section_rows balances section options report.accounts
  ok (record report { rows = report.rows ++ rows }, total)

unfoldable pub append_derived :
    FinancialStatement → RowKind → Section → String → String → ℤ → Statement FinancialStatement
unfolding exact_amount
append_derived report kind section key label amount = do
  exact ← exact_amount amount
  ok (record report {
    rows =
        report.rows
        ++ (record {
          key = codes key;
          kind = kind;
          section = section;
          label = codes label;
          account = none;
          signed_minor_units = none;
          amount_minor_units = exact;
        }
            ∷ []);
  })

unfoldable pub append_total :
    FinancialStatement → Section → String → String → ℤ → Statement FinancialStatement
unfolding append_derived
append_total report section key label amount =
    append_derived report subtotal section key label amount

unfoldable pub append_calculated :
    FinancialStatement → Section → String → String → ℤ → Statement FinancialStatement
unfolding append_derived
append_calculated report section key label amount =
    append_derived report calculated section key label amount

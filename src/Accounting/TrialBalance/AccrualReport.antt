-- ===== src/Accounting/TrialBalance/AccrualReport.antt =====
-- `quickbooks_accrual_trial_balance_as_of`: when the report exists and what it holds.
use openqbw.Base.{
  ◌≡◌, ◌↔◌, refl, sym, ap, ◌∙◌, [], some, ok, ◌>>=◌, >>=-eq-ok, true, Option-cases, ◌>>◌, arith,
  All, is_some, false, inl, inr, Bool-cases,
}
use openqbw.Base.Int.{ℤ, ltb_ℤ}
use openqbw.Base.Text.{text_ord}
use openqbw.Base.Map.{Map, get, values}
use openqbw.Accounting.Types.Classification.{AccountType, account_type_eq}
use openqbw.Accounting.Types.{
  AccountId, Account, AccountingDate, Ledger, GeneralLedger, TrialBalanceOptions, TrialBalance,
  QuickBooksAccrualTrialBalancePolicy,
}
use openqbw.Accounting.Validity.{IsLedger}
use openqbw.Accounting.GeneralLedger.{general_ledger-entries}
use openqbw.Accounting.Reports.{
  general_ledger_as_of, accrual_totals, check_retained_earnings, trial_balance_from_balances,
  quickbooks_accrual_trial_balance_as_of, total_debit, total_credit,
}
use openqbw.Accounting.TrialBalance.Rows.{
  IsShowable, balance_of, rows_for, rows_of, columns-eq, trial_balance_of, trial_balance_inv,
}
use mathlib.Core.Path.{fun_ext, subst}
use openqbw.Accounting.TrialBalance.Accrual.{
  accrual_balance, totals, balance_of-accrual, sum-totals,
}

-- The checks before the report: a fiscal year that starts by the date, and a retained-earnings
-- account of the chart that is an equity account.
abbrev pub IsPolicy : Ledger → AccountingDate → QuickBooksAccrualTrialBalancePolicy → Type 0
IsPolicy l as_of policy =
    (ltb_ℤ as_of policy.fiscal_year_start ≡ false)
    × ((a : Account) × (get policy.retained_earnings_account_id l.accounts ≡ some a)
        × (a.account_type ≡ AccountType.equity))

eq_of_equity :
    (t : AccountType) → account_type_eq t AccountType.equity ≡ true → t ≡ AccountType.equity
unfolding account_type_eq
eq_of_equity t h = ground arith

check_inv :
    (l : Ledger) (policy : QuickBooksAccrualTrialBalancePolicy)
    → check_retained_earnings l policy ≡ ok tt
    → (a : Account) × (get policy.retained_earnings_account_id l.accounts ≡ some a)
      × (a.account_type ≡ AccountType.equity)
unfolding check_retained_earnings
check_inv l policy e = elim (Option-cases (get policy.retained_earnings_account_id l.accounts)) [
  | inl missing ↦ cc (rw (missing, check_retained_earnings) at e)
  | inr (a, found) ↦ elim (Bool-cases (account_type_eq a.account_type AccountType.equity)) [
    | inl same ↦ (a, found, eq_of_equity a.account_type same)
    | inr differs ↦ cc (rw differs at (rw (found, check_retained_earnings) at e))
  ]
]

check_of :
    (l : Ledger) (policy : QuickBooksAccrualTrialBalancePolicy) (a : Account)
    → get policy.retained_earnings_account_id l.accounts ≡ some a
    → a.account_type ≡ AccountType.equity
    → check_retained_earnings l policy ≡ ok tt
unfolding check_retained_earnings account_type_eq
check_of l policy a found same = rw (found, check_retained_earnings) (rw same)

module _ (l : Ledger) (as_of : AccountingDate) (policy : QuickBooksAccrualTrialBalancePolicy)
    (options : TrialBalanceOptions) (v : IsLedger l) where
  IsShowable-totals :
      All (λ a. IsShowable (balance_of options (totals l as_of policy) a)) (values l.accounts)
      ↔ All (λ a. IsShowable (accrual_balance l as_of policy a)) (values l.accounts)
  IsShowable-totals = (
    subst (λ (f : Account → ℤ). All (λ a. IsShowable (f a)) (values l.accounts))
        (fun_ext (balance_of-accrual l as_of policy v)),
    subst (λ (f : Account → ℤ). All (λ a. IsShowable (f a)) (values l.accounts))
        (sym (fun_ext (balance_of-accrual l as_of policy v))),
  )

  -- With a good policy and a General Ledger, the report is made of the policy's totals.
  accrual_step :
      (gl : GeneralLedger)
      → IsPolicy l as_of policy
      → general_ledger_as_of l as_of ≡ ok gl
      → quickbooks_accrual_trial_balance_as_of l as_of options policy
        ≡ trial_balance_from_balances l as_of options (totals l as_of policy)
  unfolding quickbooks_accrual_trial_balance_as_of
  accrual_step gl (early, (a, found, same)) e = rw early (
      rw (check_of l policy a found same) (
        rw e (
          ap
            (λ (g : GeneralLedger).
              trial_balance_from_balances l as_of options (accrual_totals policy [] g.entries))
            (general_ledger-entries l as_of gl v.postings_known e).0)))

  accrual_built :
      (gl : GeneralLedger)
      → IsPolicy l as_of policy
      → general_ledger_as_of l as_of ≡ ok gl
      → All (λ a. IsShowable (accrual_balance l as_of policy a)) (values l.accounts)
      → quickbooks_accrual_trial_balance_as_of l as_of options policy
        ≡ ok (record {
          as_of = as_of;
          rows = rows_of options (totals l as_of policy) (values l.accounts);
        })
  accrual_built gl good e h =
      accrual_step gl good e
      ∙ trial_balance_of l as_of options (totals l as_of policy)
          (sum-totals l as_of policy v (ap is_some good.1.1)
            (general_ledger-entries l as_of gl v.postings_known e).1)
          (IsShowable-totals.1 h)

  checked_inv :
      (tb : TrialBalance)
      → ltb_ℤ as_of policy.fiscal_year_start ≡ false
      → (do
        check_retained_earnings l policy
        general_ledger ← general_ledger_as_of l as_of
        trial_balance_from_balances l as_of options
            (accrual_totals policy [] general_ledger.entries))
        ≡ ok tb
      → (gl : GeneralLedger) × (general_ledger_as_of l as_of ≡ ok gl)
        × IsPolicy l as_of policy
        × All (λ a. IsShowable (accrual_balance l as_of policy a)) (values l.accounts)
  checked_inv tb early e =
      let (_, checked, e1) = >>=-eq-ok (check_retained_earnings l policy) _ e in
      let (gl, made, e2) = >>=-eq-ok (general_ledger_as_of l as_of) _ e1 in
      let entries = (general_ledger-entries l as_of gl v.postings_known made).0 in
      let from : trial_balance_from_balances l as_of options (totals l as_of policy) ≡ ok tb =
        subst
          (λ (g : GeneralLedger).
            trial_balance_from_balances l as_of options (accrual_totals policy [] g.entries)
            ≡ ok tb)
          entries e2 in
      (
        gl,
        made,
        (early, check_inv l policy checked),
        IsShowable-totals.0 (trial_balance_inv l as_of options (totals l as_of policy) tb from),
      )

  accrual_inv :
      (tb : TrialBalance)
      → quickbooks_accrual_trial_balance_as_of l as_of options policy ≡ ok tb
      → (gl : GeneralLedger) × (general_ledger_as_of l as_of ≡ ok gl)
        × IsPolicy l as_of policy
        × All (λ a. IsShowable (accrual_balance l as_of policy a)) (values l.accounts)
  unfolding quickbooks_accrual_trial_balance_as_of
  accrual_inv tb e = elim (Bool-cases (ltb_ℤ as_of policy.fiscal_year_start)) [
    | inl late ↦ cc (rw late at e)
    | inr early ↦ checked_inv tb early (rw early at e)
  ]

-- On a valid ledger the accrual Trial Balance exists exactly when the fiscal year starts by the date,
-- the retained-earnings account is an equity account of the chart, the General Ledger exists, and every
-- balance that the policy shows lies between -(2^63 - 1) and 2^63 - 1.
pub accrual_trial_balance_iff :
    (l : Ledger) (as_of : AccountingDate) (options : TrialBalanceOptions)
    (policy : QuickBooksAccrualTrialBalancePolicy)
    → IsLedger l
    → ((tb : TrialBalance) × (quickbooks_accrual_trial_balance_as_of l as_of options policy
          ≡ ok tb))
      ↔ (IsPolicy l as_of policy
          × ((gl : GeneralLedger) × (general_ledger_as_of l as_of ≡ ok gl))
          × All (λ a. IsShowable (accrual_balance l as_of policy a)) (values l.accounts))
accrual_trial_balance_iff l as_of options policy v = (
  λ (tb, e).
      let (gl, made, good, h) = accrual_inv l as_of policy options v tb e in (good, (gl, made), h),
  λ (good, g, h). (
    record { as_of = as_of; rows = rows_of options (totals l as_of policy) (values l.accounts) },
    accrual_built l as_of policy options v g.0 good g.1 h,
  ),
)

-- The accrual Trial Balance has a row for each account that the policy shows a non-zero balance on (for
-- every account, where the options ask for it), in the chart's order. A balance is the sum of the current
-- postings through the date that are shown on the account, where profit and loss dated before the
-- fiscal year counts to retained earnings; the two columns have equal totals.
pub accrual_trial_balance_contents :
    (l : Ledger) (as_of : AccountingDate) (options : TrialBalanceOptions)
    (policy : QuickBooksAccrualTrialBalancePolicy) (tb : TrialBalance)
    → IsLedger l
    → quickbooks_accrual_trial_balance_as_of l as_of options policy ≡ ok tb
    → (tb.as_of ≡ as_of)
      × (tb.rows ≡ rows_for options (accrual_balance l as_of policy) (values l.accounts))
      × (total_debit tb ≡ total_credit tb)
unfolding total_debit total_credit
accrual_trial_balance_contents l as_of options policy tb v e =
    let (gl, made, good, h) = accrual_inv l as_of policy options v tb e in
    let m : Map AccountId ℤ = totals l as_of policy in
    let built : tb ≡ record { as_of = as_of; rows = rows_of options m (values l.accounts) } =
      cc (e, accrual_built l as_of policy options v gl good made h) in
    rw built (
      refl,
      ap (λ (f : Account → ℤ). rows_for options f (values l.accounts))
          (fun_ext (balance_of-accrual l as_of policy v)),
      columns-eq options m (values l.accounts) (
          sum-totals l as_of policy v (ap is_some good.1.1)
            (general_ledger-entries l as_of gl v.postings_known made).1),
    )

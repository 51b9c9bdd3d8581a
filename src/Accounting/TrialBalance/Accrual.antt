-- ===== src/Accounting/TrialBalance/Accrual.antt =====
-- The balances that the fiscal-year policy of `quickbooks_accrual_trial_balance_as_of` shows.
use openqbw.Base.{
  ◌≡◌, refl, ap, ◌∙◌, List, [], ◌∷◌, none, some, Bool, true, All, All-map, if◌then◌else◌, is_some,
  ◌&&◌, false, inl, inr, Bool-cases,
}
use openqbw.Base.Int.{ℤ, pos, ltb_ℤ}
use openqbw.Base.Text.{text_ord}
use openqbw.Base.Order.{◌=?◌}
use openqbw.Base.Map.{Map, get, get_or_zero, values, contains_key, entry_add}
use openqbw.Base.Map.Totals.{fill, share, get_or_zero-fill_empty}
use openqbw.Base.Sum.{sum_of, sum_of_cong}
use openqbw.Accounting.Types.Classification.{is_profit_and_loss}
use openqbw.Accounting.Types.{
  AccountId, Account, AccountingDate, Posting, Ledger, GeneralLedgerEntry,
  QuickBooksAccrualTrialBalancePolicy,
}
use openqbw.Accounting.Validity.{IsLedger, account_id}
use openqbw.Accounting.Selection.{entry_amount, reported, IsEntry}
use openqbw.Accounting.GeneralLedger.{sorted_entries, sum-sorted_entries}
use openqbw.Accounting.Reports.{accrual_totals, presented_account}
use openqbw.Accounting.TrialBalance.Net.{sum-balances}
use openqbw.Accounting.TrialBalance.Plain.{sorted_entries-IsEntry}

-- Whether a posting is on an income, expense or cost-of-goods-sold account of the chart.
abbrev pub on_profit_and_loss : Ledger → Posting → Bool
on_profit_and_loss l p = elim (get p.account_id l.accounts) [
  | none ↦ false
  | some a ↦ is_profit_and_loss a.account_type
]

-- The account that shows a posting: profit and loss of earlier fiscal years is shown on the
-- retained-earnings account, all else where it was posted.
abbrev pub shown_on : Ledger → QuickBooksAccrualTrialBalancePolicy → Posting → AccountId
shown_on l policy p =
    if ltb_ℤ p.date policy.fiscal_year_start && on_profit_and_loss l p
    then policy.retained_earnings_account_id
    else p.account_id

-- The balance that the policy shows on an account.
abbrev pub accrual_balance :
    Ledger → AccountingDate → QuickBooksAccrualTrialBalancePolicy → Account → ℤ
accrual_balance l as_of policy a =
    reported as_of (λ p. if a.id =? shown_on l policy p then p.signed_minor_units else pos 0)
      l.postings

accrual_totals-fill :
    (policy : QuickBooksAccrualTrialBalancePolicy) (m : Map AccountId ℤ)
    (es : List GeneralLedgerEntry)
    → accrual_totals policy m es ≡ fill (presented_account policy) entry_amount m es
unfolding accrual_totals fill
accrual_totals-fill policy m [] = refl
accrual_totals-fill policy m (e ∷ es) =
    accrual_totals-fill policy (entry_add (presented_account policy e) (entry_amount e) m) es

module _ (l : Ledger) (as_of : AccountingDate) (policy : QuickBooksAccrualTrialBalancePolicy) where
  abbrev pub es : List GeneralLedgerEntry
  es = sorted_entries l as_of

  abbrev pub totals : Map AccountId ℤ
  totals = accrual_totals policy [] es

  presented-eq-shown :
      (e : GeneralLedgerEntry)
      → IsEntry l.accounts as_of e
      → presented_account policy e ≡ shown_on l policy e.posting
  presented-eq-shown e h = rw (h.named, shown_on, on_profit_and_loss)

  module _ (v : IsLedger l) where
    share-shown :
        (a : Account)
        → All
            (λ e.
              share (presented_account policy) entry_amount a.id e
              ≡ (if a.id =? shown_on l policy e.posting then entry_amount e else pos 0))
            es
    share-shown a =
        All-map (IsEntry l.accounts as_of)
          (λ e.
            share (presented_account policy) entry_amount a.id e
            ≡ (if a.id =? shown_on l policy e.posting then entry_amount e else pos 0))
          (λ e h. rw (presented-eq-shown e h)) es (sorted_entries-IsEntry l as_of v)

    pub balance_of-accrual :
        (a : Account) → get_or_zero a.id totals ≡ accrual_balance l as_of policy a
    balance_of-accrual a = rw (accrual_totals-fill policy [] es) (
        get_or_zero-fill_empty (presented_account policy) entry_amount a.id es
        ∙ sum_of_cong (share (presented_account policy) entry_amount a.id)
            (λ e. if a.id =? shown_on l policy e.posting then entry_amount e else pos 0) es
            (share-shown a)
        ∙ sum-sorted_entries l as_of
            (λ p. if a.id =? shown_on l policy p then p.signed_minor_units else pos 0)
            v.postings_known)

    presented_known :
        contains_key policy.retained_earnings_account_id l.accounts ≡ true
        → (e : GeneralLedgerEntry) → IsEntry l.accounts as_of e
        → contains_key (presented_account policy e) l.accounts ≡ true
    presented_known r e h =
        elim (Bool-cases (
          ltb_ℤ e.posting.date policy.fiscal_year_start
          && is_profit_and_loss e.account.account_type)) [
            | inl moved ↦ rw moved r
            | inr kept ↦ rw kept (ap is_some h.named)
          ]

    pub sum-totals :
        contains_key policy.retained_earnings_account_id l.accounts ≡ true
        → sum_of entry_amount es ≡ pos 0
        → sum_of (λ a. get_or_zero (account_id a) totals) (values l.accounts) ≡ pos 0
    sum-totals r zero = rw (accrual_totals-fill policy [] es) (
        sum-balances l.accounts v.chart (presented_account policy) es (
          All-map (IsEntry l.accounts as_of)
            (λ e. contains_key (presented_account policy e) l.accounts ≡ true) (presented_known r)
            es (sorted_entries-IsEntry l as_of v))
        ∙ zero)

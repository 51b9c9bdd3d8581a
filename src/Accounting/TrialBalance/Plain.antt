-- ===== src/Accounting/TrialBalance/Plain.antt =====
-- `trial_balance_as_of`.
use openqbw.Base.{
  ◌≡◌, ◌↔◌, refl, sym, ap, ◌∙◌, List, [], ◌∷◌, ok, >>=-eq-ok, true, All, All-map, if◌then◌else◌,
  is_some,
}
use openqbw.Base.Int.{ℤ, pos}
use openqbw.Base.Text.{text_ord}
use openqbw.Base.Order.{◌=?◌}
use openqbw.Base.Map.{Map, get_or_zero, values, contains_key, entry_add}
use openqbw.Base.Map.Totals.{fill, get_or_zero-fill_empty}
use openqbw.Base.Sort.{sort_by-All}
use openqbw.Base.Sum.{sum_of}
use openqbw.Accounting.Types.{
  AccountId, Account, AccountingDate, Posting, Ledger, GeneralLedgerEntry, GeneralLedger,
  TrialBalanceOptions, TrialBalance,
}
use openqbw.Accounting.Validity.{IsLedger, account_id}
use openqbw.Accounting.Selection.{entry_amount, reported, IsEntry, entries_of, entries_of-IsEntry}
use openqbw.Accounting.GeneralLedger.{sorted_entries, sum-sorted_entries, general_ledger-entries}
use openqbw.Accounting.Reports.{
  compare_entries, general_ledger_as_of, account_totals, trial_balance_from_balances,
  trial_balance_as_of, total_debit, total_credit,
}
use openqbw.Accounting.TrialBalance.Rows.{
  IsShowable, balance_of, rows_for, rows_of, columns-eq, trial_balance_of, trial_balance_inv,
}
use openqbw.Accounting.TrialBalance.Net.{sum-balances}
use mathlib.Core.Path.{fun_ext, subst}

abbrev pub entry_account : GeneralLedgerEntry → AccountId
entry_account e = e.posting.account_id

-- What a posting counts toward the account `a`.
abbrev pub in_account : AccountId → Posting → ℤ
in_account a p = if a =? p.account_id then p.signed_minor_units else pos 0

-- The balance of an account: the sum of its current postings through the date.
abbrev pub plain_balance : Ledger → AccountingDate → Account → ℤ
plain_balance l as_of a = reported as_of (in_account a.id) l.postings

account_totals-fill :
    (m : Map AccountId ℤ) (es : List GeneralLedgerEntry)
    → account_totals m es ≡ fill entry_account entry_amount m es
unfolding account_totals fill
account_totals-fill m [] = refl
account_totals-fill m (e ∷ es) =
    account_totals-fill (entry_add (entry_account e) (entry_amount e) m) es

module _ (l : Ledger) (as_of : AccountingDate) (v : IsLedger l) where
  abbrev totals : Map AccountId ℤ
  totals = account_totals [] (sorted_entries l as_of)

  balance_of-plain : (a : Account) → get_or_zero a.id totals ≡ plain_balance l as_of a
  balance_of-plain a = rw (account_totals-fill [] (sorted_entries l as_of)) (
      get_or_zero-fill_empty entry_account entry_amount a.id (sorted_entries l as_of)
      ∙ sum-sorted_entries l as_of (in_account a.id) v.postings_known)

  pub sorted_entries-IsEntry : All (IsEntry l.accounts as_of) (sorted_entries l as_of)
  sorted_entries-IsEntry =
      sort_by-All compare_entries (IsEntry l.accounts as_of)
        (entries_of l.accounts as_of l.postings) (entries_of-IsEntry l.accounts as_of l.postings)

  sum-totals :
      sum_of entry_amount (sorted_entries l as_of) ≡ pos 0
      → sum_of (λ a. get_or_zero (account_id a) totals) (values l.accounts) ≡ pos 0
  sum-totals zero = rw (account_totals-fill [] (sorted_entries l as_of)) (
      sum-balances l.accounts v.chart entry_account (sorted_entries l as_of) (
        All-map (IsEntry l.accounts as_of) (λ e. contains_key (entry_account e) l.accounts ≡ true)
          (λ e h. ap is_some h.named) (sorted_entries l as_of) sorted_entries-IsEntry)
      ∙ zero)

  -- Where the General Ledger exists, the Trial Balance is made of the accounts' totals.
  trial_balance_step :
      (options : TrialBalanceOptions) (gl : GeneralLedger)
      → general_ledger_as_of l as_of ≡ ok gl
      → trial_balance_as_of l as_of options ≡ trial_balance_from_balances l as_of options totals
  unfolding trial_balance_as_of
  trial_balance_step options gl e = rw e (
      ap
        (λ (g : GeneralLedger).
          trial_balance_from_balances l as_of options (account_totals [] g.entries))
        (general_ledger-entries l as_of gl v.postings_known e).0)

  trial_balance-general_ledger :
      (options : TrialBalanceOptions) (tb : TrialBalance)
      → trial_balance_as_of l as_of options ≡ ok tb
      → (gl : GeneralLedger) × (general_ledger_as_of l as_of ≡ ok gl)
        × (trial_balance_from_balances l as_of options totals ≡ ok tb)
  unfolding trial_balance_as_of
  trial_balance-general_ledger options tb e =
      let (gl, made, _) = >>=-eq-ok (general_ledger_as_of l as_of) _ e in
      (gl, made, sym (trial_balance_step options gl made) ∙ e)

  IsShowable-totals :
      (options : TrialBalanceOptions)
      → All (λ a. IsShowable (balance_of options totals a)) (values l.accounts)
        ↔ All (λ a. IsShowable (plain_balance l as_of a)) (values l.accounts)
  IsShowable-totals options = (
    subst (λ (f : Account → ℤ). All (λ a. IsShowable (f a)) (values l.accounts))
        (fun_ext balance_of-plain),
    subst (λ (f : Account → ℤ). All (λ a. IsShowable (f a)) (values l.accounts))
        (sym (fun_ext balance_of-plain)),
  )

  trial_balance_built :
      (options : TrialBalanceOptions) (gl : GeneralLedger)
      → general_ledger_as_of l as_of ≡ ok gl
      → All (λ a. IsShowable (plain_balance l as_of a)) (values l.accounts)
      → trial_balance_as_of l as_of options
        ≡ ok (record { as_of = as_of; rows = rows_of options totals (values l.accounts) })
  trial_balance_built options gl made h =
      trial_balance_step options gl made
      ∙ trial_balance_of l as_of options totals
          (sum-totals (general_ledger-entries l as_of gl v.postings_known made).1)
          ((IsShowable-totals options).1 h)

-- On a valid ledger the Trial Balance exists exactly when the General Ledger does and every account's
-- balance lies between -(2^63 - 1) and 2^63 - 1: the final test of the rows' net never refuses it.
pub trial_balance_iff :
    (l : Ledger) (as_of : AccountingDate) (options : TrialBalanceOptions)
    → IsLedger l
    → ((tb : TrialBalance) × (trial_balance_as_of l as_of options ≡ ok tb)) ↔ (
        ((gl : GeneralLedger) × (general_ledger_as_of l as_of ≡ ok gl))
        × All (λ a. IsShowable (plain_balance l as_of a)) (values l.accounts))
trial_balance_iff l as_of options v = (
  λ (tb, e).
      let (gl, made, from) = trial_balance-general_ledger l as_of v options tb e in
      (
        (gl, made),
        (IsShowable-totals l as_of v options).0
            (trial_balance_inv l as_of options (totals l as_of v) tb from),
      ),
  λ (g, h). (
    record { as_of = as_of; rows = rows_of options (totals l as_of v) (values l.accounts) },
    trial_balance_built l as_of v options g.0 g.1 h,
  ),
)

-- The Trial Balance has one row for each account of the chart whose balance is not zero (for every
-- account, where the options ask for it), in the chart's order. A row shows the sum of the account's
-- current postings through the date, in its debit column if positive and its magnitude in its credit
-- column if negative; the two columns have equal totals.
pub trial_balance_contents :
    (l : Ledger) (as_of : AccountingDate) (options : TrialBalanceOptions) (tb : TrialBalance)
    → IsLedger l
    → trial_balance_as_of l as_of options ≡ ok tb
    → (tb.as_of ≡ as_of)
      × (tb.rows ≡ rows_for options (plain_balance l as_of) (values l.accounts))
      × (total_debit tb ≡ total_credit tb)
unfolding total_debit total_credit
trial_balance_contents l as_of options tb v e =
    let (gl, made, from) = trial_balance-general_ledger l as_of v options tb e in
    let m : Map AccountId ℤ = totals l as_of v in
    let h = (IsShowable-totals l as_of v options).0 (trial_balance_inv l as_of options m tb from) in
    let built : tb ≡ record { as_of = as_of; rows = rows_of options m (values l.accounts) } =
      cc (e, trial_balance_built l as_of v options gl made h) in
    rw built (
      refl,
      ap (λ (f : Account → ℤ). rows_for options f (values l.accounts))
          (fun_ext (balance_of-plain l as_of v)),
      columns-eq options m (values l.accounts)
          (sum-totals l as_of v (general_ledger-entries l as_of gl v.postings_known made).1),
    )

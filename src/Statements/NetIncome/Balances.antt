-- ===== src/Statements/NetIncome/Balances.antt =====
-- The balances of a period, which `profit_and_loss` gathers.
use openqbw.Base.{
  ◌≡◌, refl, sym, ◌∙◌, List, [], ◌∷◌, All, All-map, if◌then◌else◌, inl, inr, Bool-cases,
}
use openqbw.Base.Int.{ℤ, pos, ◌+ℤ◌, leb_ℤ, int_laws}
use openqbw.Base.Text.{text_ord}
use openqbw.Base.Order.{◌=?◌}
use openqbw.Base.Map.{Map, get, get_or_zero, entry_add}
use openqbw.Base.Map.Laws.{IsSorted}
use openqbw.Base.Map.Sums.{entry_add-IsSorted, get_or_zero-entry_add}
use openqbw.Base.Sum.{sum_of, sum_of_cong}
use openqbw.Accounting.Types.{
  AccountId, Account, AccountingDate, Posting, Ledger, GeneralLedgerEntry,
}
use openqbw.Accounting.Validity.{IsLedger, get_keyed}
use openqbw.Accounting.Selection.{entry_amount, reported, IsEntry}
use openqbw.Accounting.GeneralLedger.{sorted_entries, sum-sorted_entries}
use openqbw.Accounting.TrialBalance.Plain.{in_account, sorted_entries-IsEntry}
use openqbw.Statements.ProfitAndLoss.{period_totals}

-- What a posting counts toward the account `id` in a period that begins on `from`.
abbrev pub in_period : AccountingDate → AccountId → Posting → ℤ
in_period from id p = if leb_ℤ from p.date then in_account id p else pos 0

-- The balance of an account in a period: the sum of its current postings from the first day through
-- the last.
abbrev pub period_balance : Ledger → AccountingDate → AccountingDate → Account → ℤ
period_balance l from through a = reported through (in_period from a.id) l.postings

abbrev entry_share : AccountingDate → AccountId → GeneralLedgerEntry → ℤ
entry_share from id e =
    if leb_ℤ from e.posting.date
    then if id =? e.account.id then entry_amount e else pos 0
    else pos 0

get_or_zero-period_totals :
    (from : AccountingDate) (id : AccountId) (m : Map AccountId ℤ) (es : List GeneralLedgerEntry)
    → IsSorted m
    → get_or_zero id (period_totals from m es) ≡ get_or_zero id m +ℤ sum_of (entry_share from id) es
unfolding period_totals sum_of
get_or_zero-period_totals from id m [] s = omega int_laws
get_or_zero-period_totals from id m (e ∷ es) s = elim (Bool-cases (leb_ℤ from e.posting.date)) [
  | inr early ↦ rw early (get_or_zero-period_totals from id m es s ∙ omega int_laws)
  | inl late ↦ rw late (
      get_or_zero-period_totals from id (entry_add e.account.id (entry_amount e) m) es
        (entry_add-IsSorted e.account.id (entry_amount e) m s)
      ∙ rw (get_or_zero-entry_add e.account.id id (entry_amount e) m s)
          (elim (Bool-cases (id =? e.account.id)) [
            | inl same ↦ rw same (omega int_laws)
            | inr other ↦ rw other (omega int_laws)
          ]))
]

module _ (l : Ledger) (from through : AccountingDate) (v : IsLedger l) where
  entry_share-in_period :
      (id : AccountId)
      → All (λ e. entry_share from id e ≡ in_period from id e.posting) (sorted_entries l through)
  entry_share-in_period id =
      All-map (IsEntry l.accounts through)
        (λ e. entry_share from id e ≡ in_period from id e.posting)
        (λ e h.
          rw (sym (get_keyed e.posting.account_id l.accounts e.account v.chart.keyed h.named)) refl)
        (sorted_entries l through) (sorted_entries-IsEntry l through v)

  pub period_totals-period_balance :
      (a : Account)
      → get_or_zero a.id (period_totals from [] (sorted_entries l through))
        ≡ period_balance l from through a
  unfolding get
  period_totals-period_balance a =
      get_or_zero-period_totals from a.id [] (sorted_entries l through) tt
      ∙ rw
          (sum_of_cong (entry_share from a.id) (λ e. in_period from a.id e.posting)
            (sorted_entries l through) (entry_share-in_period a.id))
          (rw (sum-sorted_entries l through (in_period from a.id) v.postings_known)
            (omega int_laws))

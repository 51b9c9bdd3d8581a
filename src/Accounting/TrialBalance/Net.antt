-- ===== src/Accounting/TrialBalance/Net.antt =====
-- The balances of all accounts of the chart net to zero, whichever account an entry is counted to.
use openqbw.Base.{◌≡◌, List, [], true, All, All-map, Option-cases, inl, inr}
use openqbw.Base.Text.{text_ord}
use openqbw.Base.Map.{Map, get, get_or_zero, values, contains_key}
use openqbw.Base.Map.Totals.{fill, share, get_or_zero-fill_empty, sum-share, sum-at}
use openqbw.Base.Sum.{sum_of}
use openqbw.Accounting.Types.{AccountId, Account, GeneralLedgerEntry}
use openqbw.Accounting.Validity.{IsChart, account_id}
use openqbw.Accounting.Selection.{entry_amount}
use mathlib.Core.Path.{fun_ext}

module _ (m : Map AccountId Account) (chart : IsChart m)
    (key : GeneralLedgerEntry → AccountId) where
  share_of_known :
      (e : GeneralLedgerEntry)
      → contains_key (key e) m ≡ true
      → sum_of (λ a. share key entry_amount (account_id a) e) (values m) ≡ entry_amount e
  share_of_known e h = elim (Option-cases (get (key e) m)) [
    | inl missing ↦ cc (rw missing at h)
    | inr (a, found) ↦ sum-at account_id (key e) (entry_amount e) m found chart.sorted chart.keyed
  ]

  -- Each entry is counted to one account of the chart.
  pub sum-balances :
      (es : List GeneralLedgerEntry)
      → All (λ e. contains_key (key e) m ≡ true) es
      → sum_of (λ a. get_or_zero (account_id a) (fill key entry_amount [] es)) (values m)
        ≡ sum_of entry_amount es
  sum-balances es h =
      rw (fun_ext (λ (a : Account). get_or_zero-fill_empty key entry_amount (account_id a) es)) (
        sum-share key entry_amount account_id (values m) es (
          All-map (λ e. contains_key (key e) m ≡ true)
            (λ e. sum_of (λ a. share key entry_amount (account_id a) e) (values m) ≡ entry_amount e)
            share_of_known es h))

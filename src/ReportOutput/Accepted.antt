-- ===== src/ReportOutput/Accepted.antt =====
-- `validate_trial_balance` on the Trial Balance that a ledger computes.
use openqbw.Base.{
  ◌≡◌, refl, sym, List, [], ◌∷◌, ok, true, false, arith, All, DistinctBy, inl, inr, Bool-cases,
}
use openqbw.Base.Int.{ℤ, eq_ℤ_iff}
use openqbw.Base.Text.{Text, text_ord}
use openqbw.Base.Order.{=?_of_ne}
use openqbw.Base.Set.{contains}
use openqbw.Base.Map.{Map, values}
use openqbw.Base.Map.Laws.{Below, Below-trans, IsSorted}
use openqbw.Base.Map.Totals.{IsKeyed}
use openqbw.Accounting.Types.{
  AccountId, Account, AccountingDate, Ledger, TrialBalanceOptions, TrialBalance,
}
use openqbw.Accounting.Validity.{IsLedger, account_id}
use openqbw.Accounting.Reports.{trial_balance_as_of, total_debit, total_credit}
use openqbw.Accounting.TrialBalance.Rows.{is_shown, row_of, rows_for}
use openqbw.Accounting.TrialBalance.Plain.{plain_balance, trial_balance_contents}
use openqbw.ReportOutput.Checks.{display_matches_signed, validate_rows, validate_trial_balance}

module _ {ℓ} {A : Type ℓ} (key : A → Text) where
  -- None of the elements has a key that was seen.
  abbrev pub AllNew : List Text → List A → Type 0
  AllNew seen = All (λ x. contains (key x) seen ≡ false)

  pub nothing_seen : (xs : List A) → AllNew [] xs
  unfolding contains
  nothing_seen [] = tt
  nothing_seen (x ∷ xs) = (refl, nothing_seen xs)

  pub AllNew-head :
      (seen : List Text) (x : A) (xs : List A)
      → All (λ y. ¬ (key x ≡ key y)) xs
      → AllNew seen xs
      → AllNew (key x ∷ seen) xs
  unfolding contains
  AllNew-head seen x [] d h = tt
  AllNew-head seen x (y ∷ ys) d h =
      (rw (=?_of_ne (key y) (key x) (λ e. d.0 (sym e))) h.0, AllNew-head seen x ys d.1 h.1)

display_matches_row_of : (a : Account) (z : ℤ) → display_matches_signed (row_of a z) ≡ true
unfolding display_matches_signed
display_matches_row_of a z = ground arith

-- Rows of accounts with distinct identifiers that were not seen pass the loop.
validate_rows-rows_for :
    (options : TrialBalanceOptions) (balance : Account → ℤ) (ids : List AccountId)
    (accounts : List Account)
    → AllNew account_id ids accounts
    → DistinctBy account_id accounts
    → validate_rows ids (rows_for options balance accounts) ≡ ok tt
unfolding validate_rows
validate_rows-rows_for options balance ids [] h d = refl
validate_rows-rows_for options balance ids (a ∷ rest) h d =
    elim (Bool-cases (is_shown options balance a)) [
      | inl shown ↦ rw shown (
          rw h.0 (
            rw (display_matches_row_of a (balance a)) (
              validate_rows-rows_for options balance (a.id ∷ ids) rest
                (AllNew-head account_id ids a rest d.0 h.1) d.1)))
      | inr hidden ↦ rw hidden (validate_rows-rows_for options balance ids rest h.1 d.1)
    ]

ids_after :
    (k : AccountId) (m : Map AccountId Account)
    → Below k m
    → IsSorted m
    → IsKeyed account_id m
    → All (λ a. ¬ (k ≡ a.id)) (values m)
ids_after k [] b s d = tt
ids_after k ((j, a) ∷ m) b s d =
    (λ e. cc (text_ord.cmp_refl k, b, d.0), ids_after k m (Below-trans k j m b s.0) s.1 d.1)

-- A chart's accounts have distinct identifiers.
chart_DistinctBy :
    (m : Map AccountId Account)
    → IsSorted m
    → IsKeyed account_id m
    → DistinctBy account_id (values m)
chart_DistinctBy [] s d = tt
chart_DistinctBy ((k, a) ∷ m) s d =
    (rw d.0 at (ids_after k m s.0 s.1 d.1), chart_DistinctBy m s.1 d.1)

-- The Trial Balance that a valid ledger computes passes the checks before it is written: no account
-- has two rows, each row's columns show its amount, and the columns have equal totals.
pub validate_trial_balance-trial_balance_as_of :
    (l : Ledger) (as_of : AccountingDate) (options : TrialBalanceOptions) (tb : TrialBalance)
    → IsLedger l
    → trial_balance_as_of l as_of options ≡ ok tb
    → validate_trial_balance tb ≡ ok tt
unfolding validate_trial_balance
validate_trial_balance-trial_balance_as_of l as_of options tb v e =
    let (_, rows, balanced) = trial_balance_contents l as_of options tb v e in
    let passed : validate_rows [] tb.rows ≡ ok tt = rw rows (
      validate_rows-rows_for options (plain_balance l as_of) [] (values l.accounts)
        (nothing_seen account_id (values l.accounts))
        (chart_DistinctBy l.accounts v.chart.sorted v.chart.keyed)) in
    rw passed (rw ((eq_ℤ_iff (total_debit tb) (total_credit tb)).1 balanced))

-- ===== src/Reconcile/Errors.antt =====
-- `TrialBalanceError`.
use openqbw.Base.{Outcome}
use openqbw.Base.Int.{ℤ}
use openqbw.Base.Text.{Text}

pub data TrialBalanceError : Type 0 where
  missing_required_header no_account_rows empty_account_name : TrialBalanceError
  duplicate_account : Text → TrialBalanceError
  invalid_amount : Text → TrialBalanceError
  invalid_normalized_cents : (column value : Text) → TrialBalanceError
  missing_normalized_cents : (account column : Text) → TrialBalanceError
  inconsistent_normalized_row :
      (account : Text) (debit_cents credit_cents net_cents : ℤ) → TrialBalanceError
  amount_overflow unclosed_quote bare_quote characters_after_closing_quote : TrialBalanceError

abbrev pub Result {ℓ} : Type ℓ → Type ℓ
Result A = Outcome TrialBalanceError A

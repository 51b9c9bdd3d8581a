-- ===== src/Accounting/TrialBalance/Rows.antt =====
-- `trial_balance_from_balances`: the rows made of a map of balances.
use openqbw.Base.{
  ◌≡◌, ◌≤◌, ◌-◌, ◌^◌, refl, ◌∙◌, List, [], ◌∷◌, none, some, ok, err, ◌>>=◌, >>=-eq-ok, Bool, true,
  not, ◌&&◌, arith, All, inl, inr, Bool-cases, if◌then◌else◌,
}
use openqbw.Base.Int.{
  ℤ, pos, pos_part, neg_part, ◌+ℤ◌, neg, eq_ℤ, eq_ℤ_iff, ltb_ℤ, fits_i64, int_laws,
}
use openqbw.Base.Text.{text_ord}
use openqbw.Base.Map.{Map, get_or_zero, values}
use openqbw.Base.Sum.{sum_of}
use openqbw.Accounting.Types.{
  AccountId, Account, AccountingDate, Ledger, TrialBalanceOptions, TrialBalanceRow, TrialBalance,
}
use openqbw.Accounting.Errors.{balance_overflow}
use openqbw.Accounting.Reports.{
  row_from_signed, balance_rows, row_amount, trial_balance_from_balances, sum_option,
}

-- A balance that the report's columns can hold.
abbrev pub IsShowable : ℤ → Type 0
IsShowable z = (pos_part z ≤ 2 ^ 63 - 1) × (neg_part z ≤ 2 ^ 63 - 1)

-- The columns of a balance.
abbrev pub row_of : Account → ℤ → TrialBalanceRow
row_of account z = record {
  account = account;
  signed_minor_units = z;
  debit_minor_units = if ltb_ℤ (pos 0) z then some z else none;
  credit_minor_units = if ltb_ℤ z (pos 0) then some (neg z) else none;
}

-- Whether an account has a row, by its balance.
abbrev pub is_shown : TrialBalanceOptions → (Account → ℤ) → Account → Bool
is_shown options balance a =
    not (eq_ℤ (balance a) (pos 0) && not options.include_zero_balance_accounts)

-- The rows of the accounts that are shown, in the order of the chart.
abbrev pub rows_for : TrialBalanceOptions → (Account → ℤ) → List Account → List TrialBalanceRow
rows_for options balance [] = []
rows_for options balance (a ∷ rest) =
    if is_shown options balance a
    then row_of a (balance a) ∷ rows_for options balance rest
    else rows_for options balance rest

row_showable :
    (a : Account) (z : ℤ)
    → IsShowable z
    → (fits_i64 z ≡ true) × (row_from_signed a z ≡ ok (row_of a z))
unfolding row_from_signed
row_showable a z h = ground arith

row_inv :
    (a : Account) (z : ℤ) (r : TrialBalanceRow)
    → fits_i64 z ≡ true
    → row_from_signed a z ≡ ok r
    → IsShowable z
unfolding row_from_signed
row_inv a z r f e = ground arith

zero-IsShowable : (z : ℤ) → eq_ℤ z (pos 0) ≡ true → IsShowable z
zero-IsShowable z h = ground arith

-- The two columns of one row.
column_step :
    (a : Account) (z credits net : ℤ)
    → sum_option (λ row. row.debit_minor_units) (row_of a z) +ℤ (credits +ℤ net)
      ≡ sum_option (λ row. row.credit_minor_units) (row_of a z) +ℤ credits +ℤ (z +ℤ net)
column_step a z credits net = grind (int_laws)

module _ (options : TrialBalanceOptions) (balances : Map AccountId ℤ) where
  abbrev pub balance_of : Account → ℤ
  balance_of a = get_or_zero a.id balances

  abbrev pub is_listed : Account → Bool
  is_listed = is_shown options balance_of

  abbrev pub rows_of : List Account → List TrialBalanceRow
  rows_of = rows_for options balance_of

  -- Where every balance is showable, the loop yields those rows.
  pub balance_rows_showable :
      (accounts : List Account)
      → All (λ a. IsShowable (balance_of a)) accounts
      → balance_rows options balances accounts ≡ ok (rows_of accounts)
  unfolding balance_rows
  balance_rows_showable [] h = refl
  balance_rows_showable (a ∷ rest) h =
      let (fits, row) = row_showable a (balance_of a) h.0 in
      elim (Bool-cases (eq_ℤ (balance_of a) (pos 0) && not options.include_zero_balance_accounts)) [
        | inl skip ↦ rw skip (balance_rows_showable rest h.1)
        | inr list ↦ rw list (rw fits (rw row (rw (balance_rows_showable rest h.1))))
      ]

  -- One listed account, and then the rest.
  listed_inv :
      (a : Account) (rest : List Account) (rows : List TrialBalanceRow)
      → ((later : List TrialBalanceRow)
          → balance_rows options balances rest ≡ ok later
          → All (λ a. IsShowable (balance_of a)) rest)
      → (if not (fits_i64 (balance_of a))
          then err (balance_overflow a.id)
          else row_from_signed a (balance_of a) >>= λ row.
              balance_rows options balances rest >>= λ later. ok (row ∷ later))
        ≡ ok rows
      → IsShowable (balance_of a) × All (λ a. IsShowable (balance_of a)) rest
  listed_inv a rest rows ih e = elim (Bool-cases (fits_i64 (balance_of a))) [
    | inr wide ↦ cc (rw wide at e)
    | inl fits ↦
        let (row, made, e1) = >>=-eq-ok (row_from_signed a (balance_of a)) _ (rw fits at e) in
        let (later, made_later, _) = >>=-eq-ok (balance_rows options balances rest) _ e1 in
        (row_inv a (balance_of a) row fits made, ih later made_later)
  ]

  -- The loop ends well only where every balance is showable.
  pub balance_rows_inv :
      (accounts : List Account) (rows : List TrialBalanceRow)
      → balance_rows options balances accounts ≡ ok rows
      → All (λ a. IsShowable (balance_of a)) accounts
  unfolding balance_rows
  balance_rows_inv [] rows e = tt
  balance_rows_inv (a ∷ rest) rows e =
      elim (Bool-cases (eq_ℤ (balance_of a) (pos 0) && not options.include_zero_balance_accounts)) [
        | inl skip ↦ (
          zero-IsShowable (balance_of a) (ground arith),
          balance_rows_inv rest rows (rw (skip, balance_rows) at e),
        )
        | inr list ↦ listed_inv a rest rows (balance_rows_inv rest) (rw (list, balance_rows) at e)
      ]

  pub sum-rows_of :
      (accounts : List Account) → sum_of row_amount (rows_of accounts) ≡ sum_of balance_of accounts
  unfolding sum_of
  sum-rows_of [] = refl
  sum-rows_of (a ∷ rest) = elim (Bool-cases (is_listed a)) [
    | inl list ↦ rw list (rw (sum-rows_of rest))
    | inr skip ↦
        let zero : balance_of a ≡ pos 0 = ground (arith, eq_ℤ_iff (balance_of a) (pos 0)) in
        rw skip (rw (sum-rows_of rest, zero) (omega int_laws))
  ]

  -- The debit column exceeds the credit column by the net of the rows.
  pub columns-rows_of :
      (accounts : List Account)
      → sum_of (sum_option (λ row. row.debit_minor_units)) (rows_of accounts)
        ≡ sum_of (sum_option (λ row. row.credit_minor_units)) (rows_of accounts)
          +ℤ sum_of row_amount (rows_of accounts)
  unfolding sum_of
  columns-rows_of [] = omega int_laws
  columns-rows_of (a ∷ rest) = elim (Bool-cases (is_listed a)) [
    | inl list ↦ rw list (rw (columns-rows_of rest) (column_step a (balance_of a) _ _))
    | inr skip ↦ rw skip (columns-rows_of rest)
  ]

  -- The columns agree where the balances net to zero.
  pub columns-eq :
      (accounts : List Account)
      → sum_of balance_of accounts ≡ pos 0
      → sum_of (sum_option (λ row. row.debit_minor_units)) (rows_of accounts)
        ≡ sum_of (sum_option (λ row. row.credit_minor_units)) (rows_of accounts)
  columns-eq accounts zero =
      columns-rows_of accounts ∙ rw (sum-rows_of accounts, zero) (omega int_laws)

-- Where the balances are showable and net to zero, the report has their rows.
pub trial_balance_of :
    (l : Ledger) (as_of : AccountingDate) (options : TrialBalanceOptions)
    (balances : Map AccountId ℤ)
    → sum_of (balance_of options balances) (values l.accounts) ≡ pos 0
    → All (λ a. IsShowable (balance_of options balances a)) (values l.accounts)
    → trial_balance_from_balances l as_of options balances
      ≡ ok (record { as_of = as_of; rows = rows_of options balances (values l.accounts) })
unfolding trial_balance_from_balances
trial_balance_of l as_of options balances zero h =
    let rows = rows_of options balances (values l.accounts) in
    let net : sum_of row_amount rows ≡ pos 0 =
      sum-rows_of options balances (values l.accounts) ∙ zero in
    rw (balance_rows_showable options balances (values l.accounts) h) (rw net)

pub trial_balance_inv :
    (l : Ledger) (as_of : AccountingDate) (options : TrialBalanceOptions)
    (balances : Map AccountId ℤ) (tb : TrialBalance)
    → trial_balance_from_balances l as_of options balances ≡ ok tb
    → All (λ a. IsShowable (balance_of options balances a)) (values l.accounts)
unfolding trial_balance_from_balances
trial_balance_inv l as_of options balances tb e =
    let (rows, made, _) = >>=-eq-ok (balance_rows options balances (values l.accounts)) _ e in
    balance_rows_inv options balances (values l.accounts) rows made

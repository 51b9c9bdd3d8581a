-- ===== src/Accounting/Construct/Columns.antt =====
-- The columns of a posting that the constructors build.
use openqbw.Base.{◌≡◌, ◌≤◌, refl, ◌≢◌, Option, none, some, ok, arith}
use openqbw.Base.Int.{ℤ, pos, neg, pos_part, i64_min, IsI64}
use openqbw.Base.Text.{Text}
use openqbw.Accounting.Types.{
  AccountId, TransactionId, PostingId, AccountingDate, DebitCredit, debit, credit,
  DebitCreditAmount, PostingProvenance, CurrentState, Posting,
}
use openqbw.Accounting.Construct.{
  new_amount, signed_amount, new_posting, debit_minor_units, credit_minor_units,
}

-- The magnitude stands in the column of its side.
abbrev pub on_debit : DebitCredit → ℤ → Option ℤ
on_debit debit z = some z
on_debit credit z = none

abbrev pub on_credit : DebitCredit → ℤ → Option ℤ
on_credit debit z = none
on_credit credit z = some z

accepted :
    (side : DebitCredit) (units : ℤ) (amount : DebitCreditAmount)
    → new_amount side units ≡ ok amount
    → (amount ≡ record { side = side; minor_units = units }) × (1 ≤ pos_part units)
unfolding new_amount
accepted side units amount e = ground arith

-- A posting built from an accepted 64-bit amount exists: it never panics. It shows the amount in the column
-- of its side and nothing in the other, and its signed amount is one that a ledger accepts, neither
-- zero nor i64::MIN.
pub new_posting-columns :
    (side : DebitCredit) (units : ℤ) (amount : DebitCreditAmount) (t : TransactionId)
    (id : PostingId) (account : AccountId) (date : AccountingDate) (state : CurrentState)
    (provenance : PostingProvenance) (kind memo : Option Text)
    → IsI64 units
    → new_amount side units ≡ ok amount
    → (p : Posting) × (new_posting t id account date amount state provenance kind memo ≡ ok p)
      × (p.signed_minor_units ≢ pos 0)
      × (p.signed_minor_units ≢ i64_min)
      × (debit_minor_units p ≡ on_debit side units)
      × (credit_minor_units p ≡ ok (on_credit side units))
unfolding signed_amount new_posting debit_minor_units credit_minor_units neg
new_posting-columns debit units amount t id account date state provenance kind memo w e =
    let (same, positive) = accepted debit units amount e in
    let p : Posting = record {
      transaction_id = t;
      id = id;
      account_id = account;
      date = date;
      signed_minor_units = units;
      current_state = state;
      provenance = provenance;
      transaction_type = kind;
      memo = memo;
    } in
    (p, rw same refl, ground arith, ground arith, ground arith, ground arith)
new_posting-columns credit units amount t id account date state provenance kind memo w e =
    let (same, positive) = accepted credit units amount e in
    let p : Posting = record {
      transaction_id = t;
      id = id;
      account_id = account;
      date = date;
      signed_minor_units = neg units;
      current_state = state;
      provenance = provenance;
      transaction_type = kind;
      memo = memo;
    } in
    (p, rw same (ground arith), ground arith, ground arith, ground arith, ground arith)

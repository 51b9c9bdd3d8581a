-- ===== src/ReportOutput/GeneralLedger.antt =====
-- `validate_general_ledger`.
pub mod Accepted
use openqbw.Base.{List, [], ◌∷◌, not, ok, err, ◌>>=◌, if◌then◌else◌}
use openqbw.Base.Int.{ℤ, pos, eq_ℤ, ltb_ℤ, i64_min}
use openqbw.Base.Order.{◌=?◌}
use openqbw.Base.Map.{Map, entry_add}
use openqbw.Base.Set.{contains}
use openqbw.Base.Text.{Text, text_ord}
use openqbw.Accounting.Types.{
  TransactionId, AccountingDate, PostingId, GeneralLedgerEntry, GeneralLedger,
}
use openqbw.Accounting.Selection.{is_current}
use openqbw.ReportOutput.Errors.{
  Output, unbalanced_transaction, duplicate_posting_id, duplicate_source_row,
  posting_account_mismatch, non_current_posting, zero_posting, non_displayable_posting_amount,
  posting_after_as_of,
}

-- The loop over the entries, which yields the totals of the transactions.
unfoldable pub validate_entries :
    AccountingDate
    → List PostingId
    → List Text
    → Map TransactionId ℤ
    → List GeneralLedgerEntry
    → Output (Map TransactionId ℤ)
unfolding contains entry_add
validate_entries as_of posting_ids source_rows totals [] = ok totals
validate_entries as_of posting_ids source_rows totals (e ∷ es) =
    let posting = e.posting in
    let rest =
      validate_entries as_of (posting.id ∷ posting_ids)
        (posting.provenance.source_row ∷ source_rows)
        (entry_add posting.transaction_id posting.signed_minor_units totals) es in
    if contains posting.id posting_ids
    then err (duplicate_posting_id posting.id)
    else if contains posting.provenance.source_row source_rows
    then err (duplicate_source_row posting.provenance.source_row)
    else if not (posting.account_id =? e.account.id)
    then err (posting_account_mismatch posting.id posting.account_id e.account.id)
    else if not (is_current posting.current_state)
    then err (non_current_posting posting.id)
    else if eq_ℤ posting.signed_minor_units (pos 0)
    then err (zero_posting posting.id)
    else if eq_ℤ posting.signed_minor_units i64_min
    then err (non_displayable_posting_amount posting.id)
    else if ltb_ℤ as_of posting.date
    then err (posting_after_as_of posting.id posting.date as_of)
    else rest

-- The loop over the totals.
unfoldable pub require_balanced : Map TransactionId ℤ → Output (Unit {0})
require_balanced [] = ok tt
require_balanced ((transaction_id, net) ∷ rest) =
    if not (eq_ℤ net (pos 0))
    then err (unbalanced_transaction transaction_id net)
    else require_balanced rest

unfoldable pub validate_general_ledger : GeneralLedger → Output (Unit {0})
unfolding validate_entries require_balanced
validate_general_ledger report =
    validate_entries report.as_of [] [] [] report.entries >>= require_balanced

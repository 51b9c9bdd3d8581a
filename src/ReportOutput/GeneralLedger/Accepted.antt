-- ===== src/ReportOutput/GeneralLedger/Accepted.antt =====
-- `validate_general_ledger` on the General Ledger that a ledger computes.
use openqbw.Base.{◌≡◌, refl, sym, List, [], ◌∷◌, ok, true, false, arith, All, DistinctBy}
use openqbw.Base.Int.{ℤ, pos, eq_ℤ, ltb_ℤ, i64_min}
use openqbw.Base.Text.{Text, text_ord}
use openqbw.Base.Order.{◌=?◌, =?_refl}
use openqbw.Base.Map.{Map, entry_add}
use openqbw.Base.Map.Totals.{IsKeyed}
use openqbw.Base.Sort.{sort_by-All, sort_by-DistinctBy}
use openqbw.Accounting.Types.{
  TransactionId, PostingId, AccountingDate, Ledger, Posting, GeneralLedgerEntry, GeneralLedger,
}
use openqbw.Accounting.Validity.{
  get_keyed, IsLedger, IsPosting, account_id, posting_id, posting_row,
}
use openqbw.Accounting.Reports.{
  transaction_totals, require_zero_totals, assert_balanced_by_transaction, general_ledger_as_of,
  compare_entries,
}
use openqbw.Accounting.Selection.{
  is_current, IsEntry, entries_of, entries_of-All, entries_of-DistinctBy,
}
use openqbw.Accounting.GeneralLedger.{sorted_entries, general_ledger_inv}
use openqbw.Accounting.TrialBalance.Plain.{sorted_entries-IsEntry}
use openqbw.ReportOutput.Accepted.{AllNew, AllNew-head, nothing_seen}
use openqbw.ReportOutput.GeneralLedger.{validate_entries, require_balanced, validate_general_ledger}

abbrev entry_id : GeneralLedgerEntry → PostingId
entry_id e = e.posting.id

abbrev entry_row : GeneralLedgerEntry → Text
entry_row e = e.posting.provenance.source_row

-- What the loop tests of one entry by itself.
record IsWritable (as_of : AccountingDate) (e : GeneralLedgerEntry) : Type 0 where
  own_account : (e.posting.account_id =? e.account.id) ≡ true
  current : is_current e.posting.current_state ≡ true
  nonzero : eq_ℤ e.posting.signed_minor_units (pos 0) ≡ false
  not_min : eq_ℤ e.posting.signed_minor_units i64_min ≡ false
  in_time : ltb_ℤ as_of e.posting.date ≡ false

-- Entries that are each writable, with new and distinct ids and source rows, yield their totals.
validate_entries-totals :
    (as_of : AccountingDate) (ids : List PostingId) (rows : List Text)
    (totals : Map TransactionId ℤ) (es : List GeneralLedgerEntry)
    → All (IsWritable as_of) es
    → AllNew entry_id ids es × DistinctBy entry_id es
    → AllNew entry_row rows es × DistinctBy entry_row es
    → validate_entries as_of ids rows totals es ≡ ok (transaction_totals totals es)
unfolding validate_entries transaction_totals
validate_entries-totals as_of ids rows totals [] w i r = refl
validate_entries-totals as_of ids rows totals (e ∷ es) w i r = rw i.0.0 (
    rw r.0.0 (
      rw w.0.own_account (
        rw w.0.current (
          rw w.0.nonzero (
            rw w.0.not_min (
              rw w.0.in_time (
                validate_entries-totals as_of (entry_id e ∷ ids) (entry_row e ∷ rows)
                  (entry_add e.posting.transaction_id e.posting.signed_minor_units totals) es w.1
                  (AllNew-head entry_id ids e es i.1.0 i.0.1, i.1.1)
                  (AllNew-head entry_row rows e es r.1.0 r.0.1, r.1.1))))))))

require_balanced-totals :
    (totals : Map TransactionId ℤ)
    → require_zero_totals totals ≡ ok tt
    → require_balanced totals ≡ ok tt
unfolding require_balanced require_zero_totals
require_balanced-totals [] h = refl
require_balanced-totals ((t, net) ∷ rest) h = ground (arith, require_balanced-totals rest)

entry-IsWritable :
    (l : Ledger) (as_of : AccountingDate) (e : GeneralLedgerEntry)
    → IsKeyed account_id l.accounts
    → IsEntry l.accounts as_of e
    → IsPosting l.accounts e.posting
    → IsWritable as_of e
entry-IsWritable l as_of e d h p = record {
  own_account =
      rw (sym (get_keyed e.posting.account_id l.accounts e.account d h.named))
        (=?_refl e.posting.account_id);
  current = let s = h.scope in ground arith;
  nonzero = let s = p.nonzero in ground arith;
  not_min = let s = p.not_min in ground arith;
  in_time = let s = h.scope in ground arith;
}

All-zip :
    {A : Type 0} (P Q R : A → Type 0) (f : (x : A) → P x → Q x → R x) (xs : List A)
    → All P xs
    → All Q xs
    → All R xs
All-zip P Q R f [] p q = tt
All-zip P Q R f (x ∷ xs) p q = (f x p.0 q.0, All-zip P Q R f xs p.1 q.1)

module _ (l : Ledger) (as_of : AccountingDate) (v : IsLedger l) where
  sorted_entries-IsWritable : All (IsWritable as_of) (sorted_entries l as_of)
  sorted_entries-IsWritable =
      All-zip (IsEntry l.accounts as_of) (λ e. IsPosting l.accounts e.posting) (IsWritable as_of)
        (λ e. entry-IsWritable l as_of e v.chart.keyed) (sorted_entries l as_of)
        (sorted_entries-IsEntry l as_of v)
        (sort_by-All compare_entries (λ e. IsPosting l.accounts e.posting)
          (entries_of l.accounts as_of l.postings)
          (entries_of-All l.accounts as_of (IsPosting l.accounts) l.postings v.postings_known))

  sorted_entries-DistinctBy :
      (key : Posting → Text)
      → DistinctBy key l.postings
      → DistinctBy (λ e. key e.posting) (sorted_entries l as_of)
  sorted_entries-DistinctBy key d =
      sort_by-DistinctBy compare_entries (λ e. key e.posting)
        (entries_of l.accounts as_of l.postings)
        (entries_of-DistinctBy l.accounts as_of key l.postings d)

-- The General Ledger that a valid ledger computes passes the checks before it is written: no posting
-- id or source row is there twice, each entry stands under its posting's account, is current and in
-- time with a displayable amount other than zero, and each transaction nets to zero.
pub validate_general_ledger-general_ledger_as_of :
    (l : Ledger) (as_of : AccountingDate) (gl : GeneralLedger)
    → IsLedger l
    → general_ledger_as_of l as_of ≡ ok gl
    → validate_general_ledger gl ≡ ok tt
unfolding validate_general_ledger assert_balanced_by_transaction
validate_general_ledger-general_ledger_as_of l as_of gl v e =
    let (_, _, balanced, built) = general_ledger_inv l as_of gl v.postings_known e in
    let es = sorted_entries l as_of in
    let passed : validate_entries as_of [] [] [] es ≡ ok (transaction_totals [] es) =
      validate_entries-totals as_of [] [] [] es (sorted_entries-IsWritable l as_of v)
        (nothing_seen entry_id es, sorted_entries-DistinctBy l as_of v posting_id v.ids_distinct)
        (
          nothing_seen entry_row es,
          sorted_entries-DistinctBy l as_of v posting_row v.rows_distinct,
        ) in
    rw built (rw passed (require_balanced-totals (transaction_totals [] es) balanced))

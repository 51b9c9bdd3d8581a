-- ===== src/Accounting/GeneralLedger.antt =====
-- `general_ledger_as_of`: what the report holds, and when it is refused.
use openqbw.Base.{
  ◌≡◌, ◌↔◌, refl, sym, ap, ◌∙◌, List, map, Option, none, some, ok, >>=-eq-ok, arith, All,
}
use openqbw.Base.Int.{ℤ, pos}
use openqbw.Base.Text.{text_ord, text-IsLawful}
use openqbw.Base.Order.{cmp_eq_sym}
use openqbw.Base.Sort.{
  sort_by, sum_of-sort_by, sort_by-All, IsOrdered, sort_by-IsOrdered, sort_by-perm,
}
use mathlib.Core.List.{Perm}
use mathlib.Core.Path.{subst}
use mathlib.Core.List.Perm
use Prim.Native.Nat.Ordering.{lt, gt}
use openqbw.Base.Sum.{sum_of, sum_of-map}
use openqbw.Accounting.Types.{
  TransactionId, AccountingDate, Posting, PostingId, Ledger, LedgerCompleteness, complete,
  incomplete, unsupported, GeneralLedgerEntry, GeneralLedger,
}
use openqbw.Accounting.Validity.{IsPosting, IsLedger}
use openqbw.Accounting.Reports.{
  require_complete, select_current, compare_entries, current_postings_as_of,
  assert_balanced_by_transaction, general_ledger_as_of,
}
use openqbw.Accounting.Selection.{
  first_ambiguous, shown, reported, entry_amount, in_transaction, IsEntry, entries_of, selection,
  select_current-selection, entries_of-IsEntry, map-entries_of, sum-shown,
}
use openqbw.Accounting.Balanced.{assert_balanced_iff, assert_balanced-sum}

-- The entries of a report, and the sum of a posting's amounts over them.
module _ (l : Ledger) (as_of : AccountingDate) where
  abbrev pub sorted_entries : List GeneralLedgerEntry
  sorted_entries = sort_by compare_entries (entries_of l.accounts as_of l.postings)

  pub sum-sorted_entries :
      (f : Posting → ℤ)
      → All (IsPosting l.accounts) l.postings
      → sum_of (λ e. f e.posting) sorted_entries ≡ reported as_of f l.postings
  sum-sorted_entries f h =
      sum_of-sort_by compare_entries (λ e. f e.posting) (entries_of l.accounts as_of l.postings)
      ∙ sym (sum_of-map f (λ e. e.posting) (entries_of l.accounts as_of l.postings))
      ∙ rw (map-entries_of l.accounts as_of l.postings h) (sum-shown l.accounts as_of f l.postings)

  -- A ledger that is complete and has no ambiguous posting through the date gives its entries.
  current_postings-sorted :
      All (IsPosting l.accounts) l.postings
      → l.completeness ≡ complete
      → first_ambiguous as_of l.postings ≡ none
      → current_postings_as_of l as_of ≡ ok sorted_entries
  unfolding current_postings_as_of
  current_postings-sorted h c a =
      rw c (rw (select_current-selection l.accounts as_of l.postings h) (rw a))

  selection_inv :
      (o : Option PostingId) (es : List GeneralLedgerEntry)
      → selection l.accounts as_of o l.postings ≡ ok es
      → (o ≡ none) × (es ≡ entries_of l.accounts as_of l.postings)
  selection_inv none es e = (refl, cc)
  selection_inv (some id) es e = cc

  require_complete_inv :
      (c : LedgerCompleteness) {u : Unit {0}} → require_complete c ≡ ok u → c ≡ complete
  unfolding require_complete
  require_complete_inv complete e = refl
  require_complete_inv (incomplete reason) e = cc
  require_complete_inv (unsupported feature) e = cc

  current_postings_inv :
      (es : List GeneralLedgerEntry)
      → All (IsPosting l.accounts) l.postings
      → current_postings_as_of l as_of ≡ ok es
      → (l.completeness ≡ complete)
        × (first_ambiguous as_of l.postings ≡ none)
        × (es ≡ sorted_entries)
  unfolding current_postings_as_of
  current_postings_inv es h e =
      let (_, c, e1) = >>=-eq-ok (require_complete l.completeness) _ e in
      let (found, s, e2) = >>=-eq-ok (select_current l.accounts as_of l.postings) _ e1 in
      let (a, same) =
        selection_inv (first_ambiguous as_of l.postings) found
          (sym (select_current-selection l.accounts as_of l.postings h) ∙ s) in
      let last : es ≡ sort_by compare_entries found = cc e2 in
      (require_complete_inv l.completeness c, a, last ∙ ap (sort_by compare_entries) same)

  -- What a General Ledger report holds.
  pub general_ledger_inv :
      (gl : GeneralLedger)
      → All (IsPosting l.accounts) l.postings
      → general_ledger_as_of l as_of ≡ ok gl
      → (l.completeness ≡ complete)
        × (first_ambiguous as_of l.postings ≡ none)
        × (assert_balanced_by_transaction sorted_entries ≡ ok tt)
        × (gl ≡ record { as_of = as_of; entries = sorted_entries })
  unfolding general_ledger_as_of
  general_ledger_inv gl h e =
      let (es, c, e1) = >>=-eq-ok (current_postings_as_of l as_of) _ e in
      let (_, b, e2) = >>=-eq-ok (assert_balanced_by_transaction es) _ e1 in
      let (done, a, same) = current_postings_inv es h c in
      let built : gl ≡ record { as_of = as_of; entries = es } = cc e2 in
      (
        done,
        a,
        subst (λ (x : List GeneralLedgerEntry). assert_balanced_by_transaction x ≡ ok tt) same b,
        built ∙ ap (λ (x : List GeneralLedgerEntry). record { as_of = as_of; entries = x }) same,
      )

  -- A report holds the sorted entries, which net to zero.
  pub general_ledger-entries :
      (gl : GeneralLedger)
      → All (IsPosting l.accounts) l.postings
      → general_ledger_as_of l as_of ≡ ok gl
      → (gl ≡ record { as_of = as_of; entries = sorted_entries })
        × (sum_of entry_amount sorted_entries ≡ pos 0)
  general_ledger-entries gl h e =
      let (_, _, b, built) = general_ledger_inv gl h e in
      (built, assert_balanced-sum sorted_entries b)

  general_ledger_of :
      All (IsPosting l.accounts) l.postings
      → l.completeness ≡ complete
      → first_ambiguous as_of l.postings ≡ none
      → assert_balanced_by_transaction sorted_entries ≡ ok tt
      → general_ledger_as_of l as_of ≡ ok (record { as_of = as_of; entries = sorted_entries })
  unfolding general_ledger_as_of
  general_ledger_of h c a b = rw (current_postings-sorted h c a) (rw b)

compare_entries-lt_of_gt :
    (a b : GeneralLedgerEntry) → compare_entries a b ≡ gt → compare_entries b a ≡ lt
compare_entries-lt_of_gt a b = ground (
  arith,
  text-IsLawful.lt_of_gt a.account.id b.account.id,
  text-IsLawful.lt_of_gt a.posting.transaction_id b.posting.transaction_id,
  text-IsLawful.lt_of_gt a.posting.id b.posting.id,
  cmp_eq_sym a.account.id b.account.id,
  cmp_eq_sym a.posting.transaction_id b.posting.transaction_id,
  cmp_eq_sym a.posting.id b.posting.id,
)

-- On a valid ledger the General Ledger report exists exactly when the ledger is complete, no posting
-- through the date is ambiguous, and the current postings through the date of every transaction net
-- to zero.
pub general_ledger_iff :
    (l : Ledger) (as_of : AccountingDate)
    → IsLedger l
    → ((gl : GeneralLedger) × (general_ledger_as_of l as_of ≡ ok gl)) ↔ (
        (l.completeness ≡ complete)
        × (first_ambiguous as_of l.postings ≡ none)
        × ((t : TransactionId) → reported as_of (in_transaction t) l.postings ≡ pos 0))
general_ledger_iff l as_of v = (
  λ (gl, e).
      let (c, a, b, _) = general_ledger_inv l as_of gl v.postings_known e in
      (
        c,
        a,
        λ t.
            sym (sum-sorted_entries l as_of (in_transaction t) v.postings_known)
            ∙ (assert_balanced_iff (sorted_entries l as_of)).0 b t,
      ),
  λ (c, a, z). (
    record { as_of = as_of; entries = sorted_entries l as_of },
    general_ledger_of l as_of v.postings_known c a (
        (assert_balanced_iff (sorted_entries l as_of)).1
          (λ t. sum-sorted_entries l as_of (in_transaction t) v.postings_known ∙ z t)),
  ),
)

-- The report shows exactly the current postings through the date, each once and with the account that
-- it names, in the order of date, account, transaction and posting id.
pub general_ledger_contents :
    (l : Ledger) (as_of : AccountingDate) (gl : GeneralLedger)
    → IsLedger l
    → general_ledger_as_of l as_of ≡ ok gl
    → (gl.as_of ≡ as_of)
      × IsOrdered compare_entries gl.entries
      × Perm (map (λ e. e.posting) gl.entries) (shown as_of l.postings)
      × All (IsEntry l.accounts as_of) gl.entries
general_ledger_contents l as_of gl v e =
    let (_, _, _, built) = general_ledger_inv l as_of gl v.postings_known e in
    rw built (
      refl,
      sort_by-IsOrdered compare_entries compare_entries-lt_of_gt
          (entries_of l.accounts as_of l.postings),
      rw (← map-entries_of l.accounts as_of l.postings v.postings_known) (
          Perm.map (λ e. e.posting)
            (sort_by-perm compare_entries (entries_of l.accounts as_of l.postings))),
      sort_by-All compare_entries (IsEntry l.accounts as_of)
          (entries_of l.accounts as_of l.postings) (entries_of-IsEntry l.accounts as_of l.postings),
    )

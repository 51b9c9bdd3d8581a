-- ===== src/Contract/Build.antt =====
-- `LedgerAdapter::build`: what the two hand-offs together promise of the ledger.
use openqbw.Base.{
  map_err-eq-ok, ◌≡◌, ◌≢◌, ◌↔◌, ◌<◌, ◌^◌, List, [], ok, err, Outcome, map_err, >>=-eq-ok,
  Bool-cases, inl, inr, none, length, arith, ℕ,
}
use openqbw.Base.Int.{pos}
use openqbw.Base.Text.{Text, text_ord}
use openqbw.Base.Order.{◌=?◌, eq_of_=?}
use openqbw.Accounting.Types.{
  Account, AccountingDate, TransactionId, Ledger, GeneralLedger, complete,
}
use openqbw.Accounting.Errors.{AccountingError, duplicate_provenance}
use openqbw.Accounting.Validity.{IsLedger, new_ledger-IsLedger}
use openqbw.Accounting.Reports.{general_ledger_as_of}
use openqbw.Accounting.Selection.{first_ambiguous, in_transaction, reported}
use openqbw.Accounting.GeneralLedger.{general_ledger_iff}
use openqbw.Contract.{
  PostingDisposition, SourceSnapshotId, DecoderIdentity, CompleteCoverage, DecodedAccounts,
  DecodedPostings, invalid_normalized_ledger, validate_materialized_count, unique_rows,
  new_decoded_accounts, new_decoded_postings, validate_unique_candidate_provenance, postings_of,
  build,
}
use openqbw.Contract.Provenance.{new_ledger-ne-duplicate}

map_err-eq-err {ℓ} :
    {A : Type ℓ} (m : Outcome AccountingError A) (x : AccountingError)
    → map_err invalid_normalized_ledger m ≡ err (invalid_normalized_ledger x)
    → m ≡ err x
map_err-eq-err m x e = ground arith

new_decoded_postings_unique :
    (snapshot : SourceSnapshotId) (decoder : DecoderIdentity) (ds : List PostingDisposition)
    (coverage : CompleteCoverage) (p : DecodedPostings)
    → new_decoded_postings snapshot decoder ds coverage ≡ ok p
    → (unique_rows [] ds ≡ ok tt) × (p.dispositions ≡ ds)
unfolding new_decoded_postings validate_unique_candidate_provenance
new_decoded_postings_unique snapshot decoder ds coverage p e =
    let (_, _, e1) = >>=-eq-ok (validate_materialized_count coverage (length ds)) _ e in
    let (_, unique, e2) = >>=-eq-ok (unique_rows [] ds) _ e1 in (unique, cc e2)

-- A ledger that the adapter builds is a valid and complete ledger of one snapshot, and its postings
-- are the postings among the dispositions, in their order.
pub build-IsLedger :
    (a : DecodedAccounts) (p : DecodedPostings) (l : Ledger)
    → build a p ≡ ok l
    → IsLedger l
      × (l.completeness ≡ complete)
      × (l.postings ≡ postings_of p.dispositions)
      × (a.snapshot ≡ p.snapshot)
unfolding build
build-IsLedger a p l e = elim (Bool-cases (a.snapshot =? p.snapshot)) [
  | inl same ↦
      let made = map_err-eq-ok invalid_normalized_ledger _ (rw same at e) in
      let (v, ps, c) =
        new_ledger-IsLedger a.accounts (postings_of p.dispositions) complete l made in
      (v, c, ps, eq_of_=? a.snapshot p.snapshot same)
  | inr differs ↦ cc (rw differs at e)
]

-- From postings that the hand-off accepted, the adapter never fails on a duplicate source row: the
-- ledger's own check of the provenance repeats one that is already passed.
build-ne-duplicate :
    (snapshot : SourceSnapshotId) (decoder : DecoderIdentity) (ds : List PostingDisposition)
    (coverage : CompleteCoverage) (a : DecodedAccounts) (p : DecodedPostings) (row : Text)
    → new_decoded_postings snapshot decoder ds coverage ≡ ok p
    → build a p ≢ err (invalid_normalized_ledger (duplicate_provenance row))
unfolding build
build-ne-duplicate snapshot decoder ds coverage a p row accepted e =
    elim (Bool-cases (a.snapshot =? p.snapshot)) [
      | inl same ↦
          let (unique, kept) =
            new_decoded_postings_unique snapshot decoder ds coverage p accepted in
          new_ledger-ne-duplicate a.accounts p.dispositions complete row (rw (← kept) at unique)
            (map_err-eq-err _ _ (rw same at e))
      | inr differs ↦ cc (rw differs at e)
    ]

-- The General Ledger of a ledger that the adapter builds exists exactly when no posting through the
-- date is ambiguous and the current postings through the date of every transaction net to zero.
pub build-general_ledger :
    (a : DecodedAccounts) (p : DecodedPostings) (l : Ledger) (as_of : AccountingDate)
    → build a p ≡ ok l
    → ((gl : GeneralLedger) × (general_ledger_as_of l as_of ≡ ok gl)) ↔ (
        (first_ambiguous as_of (postings_of p.dispositions) ≡ none)
        × ((t : TransactionId)
            → reported as_of (in_transaction t) (postings_of p.dispositions) ≡ pos 0))
build-general_ledger a p l as_of e =
    let (v, done, kept, _) = build-IsLedger a p l e in
    let exact = general_ledger_iff l as_of v in
    (
      λ h. let (_, clear, zero) = exact.0 h in (rw (← kept) clear, λ t. rw (← kept) (zero t)),
      λ h. exact.1 (done, rw kept h.0, λ t. rw kept (h.1 t)),
    )

-- Whether account rows are accepted does not depend on how many candidates the coverage says were
-- recognized: a coverage that was written out with more recognized than handled candidates is
-- accepted with any list of as many accounts as it says were handled.
pub new_decoded_accounts_unrecognized :
    (snapshot : SourceSnapshotId) (decoder : DecoderIdentity) (accounts : List Account)
    (recognized : ℕ)
    → length accounts < 2 ^ 64
    → new_decoded_accounts snapshot decoder accounts
        (record { recognized_candidates = recognized; handled_candidates = length accounts })
      ≡ ok (record { snapshot = snapshot; decoder = decoder; accounts = accounts })
unfolding new_decoded_accounts
new_decoded_accounts_unrecognized snapshot decoder accounts recognized h = ground arith

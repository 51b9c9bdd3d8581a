-- ===== src/Contract.antt =====
-- crates/openqbw/src/decoder_contract.rs: the hand-off from the decoders to the ledger.
pub mod Provenance
pub mod Build
use openqbw.Base.{
  ℕ, ◌^◌, Bool, not, List, [], ◌∷◌, Outcome, ok, err, ◌>>=◌, ◌>>◌, map_err, length, ltb, ◌==◌,
  if◌then◌else◌,
}
use openqbw.Base.Text.{Text, text_ord, is_blank}
use openqbw.Base.Order.{◌=?◌}
use openqbw.Base.Set.{contains}
use openqbw.Accounting.Types.{Account, Posting, PostingProvenance, Ledger, complete}
use openqbw.Accounting.Errors.{AccountingError}
use openqbw.Accounting.NewLedger.{new_ledger}

abbrev pub SourceSnapshotId : Type 0
SourceSnapshotId = Text

abbrev pub DecoderIdentity : Type 0
DecoderIdentity = Text

pub data DecoderContractError : Type 0 where
  empty_source_snapshot_id empty_decoder_identity materialized_count_overflow : DecoderContractError
  coverage_mismatch materialized_count_mismatch : ℕ → ℕ → DecoderContractError
  duplicate_candidate_provenance : Text → DecoderContractError
  snapshot_mismatch : SourceSnapshotId → SourceSnapshotId → DecoderContractError
  invalid_normalized_ledger : AccountingError → DecoderContractError

abbrev pub Contract {ℓ} : Type ℓ → Type ℓ
Contract A = Outcome DecoderContractError A

-- `SourceSnapshotId::new`
unfoldable pub new_snapshot_id : Text → Contract SourceSnapshotId
new_snapshot_id value = if is_blank value then err empty_source_snapshot_id else ok value

-- `DecoderIdentity::new`
unfoldable pub new_decoder_identity : Text → Contract DecoderIdentity
new_decoder_identity value = if is_blank value then err empty_decoder_identity else ok value

pub record CompleteCoverage : Type 0 where
  pub recognized_candidates : ℕ
  pub handled_candidates : ℕ

-- `CompleteCoverage::new`
unfoldable pub new_coverage : ℕ → ℕ → Contract CompleteCoverage
new_coverage recognized handled =
    if not (recognized == handled)
    then err (coverage_mismatch recognized handled)
    else ok (record { recognized_candidates = recognized; handled_candidates = handled })

pub data PostingExclusionReason : Type 0 where
  source_or_link_row deletion_tombstone canonical_zero_voided_row canonical_zero_amount :
      PostingExclusionReason

pub record PostingExclusion : Type 0 where
  pub provenance : PostingProvenance
  pub reason : PostingExclusionReason

pub data PostingDisposition : Type 0 where
  posting : Posting → PostingDisposition
  excluded : PostingExclusion → PostingDisposition

-- `PostingDisposition::provenance`
abbrev pub disposition_provenance : PostingDisposition → PostingProvenance
disposition_provenance (posting p) = p.provenance
disposition_provenance (excluded e) = e.provenance

pub record DecodedAccounts : Type 0 where
  pub snapshot : SourceSnapshotId
  pub decoder : DecoderIdentity
  pub accounts : List Account

pub record DecodedPostings : Type 0 where
  pub snapshot : SourceSnapshotId
  pub decoder : DecoderIdentity
  pub dispositions : List PostingDisposition

unfoldable pub validate_materialized_count : CompleteCoverage → ℕ → Contract (Unit {0})
validate_materialized_count coverage actual_rows =
    if not (ltb actual_rows (2 ^ 64))
    then err materialized_count_overflow
    else if not (coverage.handled_candidates == actual_rows)
    then err (materialized_count_mismatch coverage.handled_candidates actual_rows)
    else ok tt

-- The loop of `validate_unique_candidate_provenance`, with the source rows seen so far.
unfoldable pub unique_rows : List Text → List PostingDisposition → Contract (Unit {0})
unfolding contains
unique_rows rows [] = ok tt
unique_rows rows (d ∷ rest) =
    let source_row = (disposition_provenance d).source_row in
    if contains source_row rows
    then err (duplicate_candidate_provenance source_row)
    else unique_rows (source_row ∷ rows) rest

unfoldable pub validate_unique_candidate_provenance : List PostingDisposition → Contract (Unit {0})
unfolding unique_rows
validate_unique_candidate_provenance dispositions = unique_rows [] dispositions

-- `DecodedAccounts::new`
unfoldable pub new_decoded_accounts :
    SourceSnapshotId → DecoderIdentity → List Account → CompleteCoverage → Contract DecodedAccounts
unfolding validate_materialized_count
new_decoded_accounts snapshot decoder accounts coverage = do
  validate_materialized_count coverage (length accounts)
  ok (record { snapshot = snapshot; decoder = decoder; accounts = accounts })

-- `DecodedPostings::new`
unfoldable pub new_decoded_postings :
    SourceSnapshotId
    → DecoderIdentity
    → List PostingDisposition
    → CompleteCoverage
    → Contract DecodedPostings
unfolding validate_materialized_count validate_unique_candidate_provenance
new_decoded_postings snapshot decoder dispositions coverage = do
  validate_materialized_count coverage (length dispositions)
  validate_unique_candidate_provenance dispositions
  ok (record { snapshot = snapshot; decoder = decoder; dispositions = dispositions })

-- `DecodedPostings::into_postings`
unfoldable pub postings_of : List PostingDisposition → List Posting
postings_of [] = []
postings_of (posting p ∷ rest) = p ∷ postings_of rest
postings_of (excluded e ∷ rest) = postings_of rest

-- `LedgerAdapter::build`
unfoldable pub build : DecodedAccounts → DecodedPostings → Contract Ledger
unfolding new_ledger postings_of
build accounts postings =
    if not (accounts.snapshot =? postings.snapshot)
    then err (snapshot_mismatch accounts.snapshot postings.snapshot)
    else map_err invalid_normalized_ledger
        (new_ledger accounts.accounts (postings_of postings.dispositions) complete)

-- ===== src/Examples/Handoff.antt =====
-- The sample ledger, handed over by two decoders.
use openqbw.Base.{◌≡◌, ◌↔◌, refl, arith, none, ok, ◌∷◌, List, map}
use openqbw.Base.Int.{pos}
use openqbw.Base.Text.{codes}
use openqbw.Accounting.Types.{complete, GeneralLedger, TransactionId}
use openqbw.Accounting.Validity.{IsLedger}
use openqbw.Accounting.Reports.{general_ledger_as_of}
use openqbw.Accounting.Selection.{first_ambiguous, in_transaction, reported}
use openqbw.Contract.{
  PostingDisposition, posting, excluded, canonical_zero_amount, CompleteCoverage, DecodedAccounts,
  DecodedPostings, new_decoded_accounts, new_decoded_postings, postings_of, build,
}
use openqbw.Contract.Build.{build-IsLedger, build-general_ledger, new_decoded_accounts_unrecognized}
use openqbw.Examples.Data.{chart, postings, ledger}

abbrev voided : PostingDisposition
voided = excluded (record {
  provenance = record {
    source_row = codes "z";
    page_number = none;
    slot_number = none;
    decoder = codes "d";
  };
  reason = canonical_zero_amount;
})

abbrev dispositions : List PostingDisposition
dispositions = voided ∷ map posting postings

abbrev accounts_read : DecodedAccounts
accounts_read = record { snapshot = codes "s"; decoder = codes "d"; accounts = chart }

abbrev postings_read : DecodedPostings
postings_read = record { snapshot = codes "s"; decoder = codes "d"; dispositions = dispositions }

abbrev coverage : CompleteCoverage
coverage = record { recognized_candidates = 8; handled_candidates = 8 }

postings_accepted :
    new_decoded_postings (codes "s") (codes "d") dispositions coverage ≡ ok postings_read
unfolding new_decoded_postings
postings_accepted = refl

built : build accounts_read postings_read ≡ ok ledger
unfolding build
built = refl

build-IsLedger_example :
    IsLedger ledger
    × (ledger.completeness ≡ complete)
    × (ledger.postings ≡ postings_of dispositions)
    × (codes "s" ≡ codes "s")
build-IsLedger_example = build-IsLedger accounts_read postings_read ledger built

new_decoded_accounts_unrecognized_example :
    new_decoded_accounts
      (codes "s")
      (codes "d")
      chart
      (record { recognized_candidates = 9; handled_candidates = 5 })
    ≡ ok accounts_read
new_decoded_accounts_unrecognized_example =
    new_decoded_accounts_unrecognized (codes "s") (codes "d") chart 9 (omega arith)

build-general_ledger_example :
    ((gl : GeneralLedger) × (general_ledger_as_of ledger (pos 21) ≡ ok gl)) ↔ (
      (first_ambiguous (pos 21) (postings_of dispositions) ≡ none)
      × ((t : TransactionId)
          → reported (pos 21) (in_transaction t) (postings_of dispositions) ≡ pos 0))
build-general_ledger_example =
    build-general_ledger accounts_read postings_read ledger (pos 21) built

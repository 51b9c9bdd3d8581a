-- ===== src/Accounting/NewLedger.antt =====
-- `Ledger::new` of crates/openqbw/src/accounting.rs.
use openqbw.Base.{List, [], ◌∷◌, ok, err, ◌>>=◌, ◌>>◌, not, ◌||◌, if◌then◌else◌}
use openqbw.Base.Int.{pos, eq_ℤ, i64_min}
use openqbw.Base.Text.{Text, text_ord}
use openqbw.Base.Map.{Map, get, insert, contains_key}
use openqbw.Base.Set.{contains}
use openqbw.Accounting.Types.{AccountId, PostingId, Account, Posting, LedgerCompleteness, Ledger}
use openqbw.Accounting.Errors.{
  Result, duplicate_account, zero_posting, unknown_account, duplicate_posting, duplicate_provenance,
}
use openqbw.Accounting.Hierarchy.{validate_account_hierarchy}

-- The loop over the accounts; `insert` returns the old value, if there was one.
unfoldable pub collect_accounts :
    Map AccountId Account → List Account → Result (Map AccountId Account)
unfolding get insert
collect_accounts m [] = ok m
collect_accounts m (account ∷ rest) =
    if contains_key account.id m
    then err (duplicate_account account.id)
    else collect_accounts (insert account.id account m) rest

-- The loop over the postings, with the ids and the source rows seen so far.
unfoldable pub check_postings :
    Map AccountId Account → List PostingId → List Text → List Posting → Result (Unit {0})
unfolding get contains
check_postings m ids rows [] = ok tt
check_postings m ids rows (p ∷ rest) =
    if eq_ℤ p.signed_minor_units (pos 0) || eq_ℤ p.signed_minor_units i64_min
    then err (zero_posting p.id)
    else if not (contains_key p.account_id m)
    then err (unknown_account p.id p.account_id)
    else if contains p.id ids
    then err (duplicate_posting p.id)
    else if contains p.provenance.source_row rows
    then err (duplicate_provenance p.provenance.source_row)
    else check_postings m (p.id ∷ ids) (p.provenance.source_row ∷ rows) rest

unfoldable pub new_ledger : List Account → List Posting → LedgerCompleteness → Result Ledger
unfolding collect_accounts check_postings validate_account_hierarchy
new_ledger accounts postings completeness = do
  m ← collect_accounts [] accounts
  validate_account_hierarchy m
  check_postings m [] [] postings
  ok (record { accounts = m; postings = postings; completeness = completeness })

-- ===== src/Contract/Provenance.antt =====
-- The provenance of the dispositions: what the hand-off rules out for the ledger.
use openqbw.Base.{
  ℕ, ◌≡◌, ◌≢◌, List, [], ◌∷◌, Outcome, ok, err, panic, stuck, Option-cases, zero, suc, ◌>>=◌, false,
  ◌||◌, arith, inl, inr, Bool-cases, length,
}
use openqbw.Base.Text.{Text, text_ord}
use openqbw.Base.Order.{◌=?◌}
use openqbw.Base.Map.{Map, contains_key, get, values, insert}
use openqbw.Base.Set.{contains}
use openqbw.Accounting.Types.{AccountId, PostingId, Account, LedgerCompleteness}
use openqbw.Accounting.Errors.{duplicate_provenance}
use openqbw.Accounting.Hierarchy.{
  walk_parents, validate_account, validate_accounts, validate_account_hierarchy,
}
use openqbw.Accounting.NewLedger.{collect_accounts, check_postings, new_ledger}
use openqbw.Contract.{PostingDisposition, posting, excluded, unique_rows, postings_of}

-- A row of `rows` is also one of `more`.
abbrev Within : List Text → List Text → Type 0
Within rows more = (r : Text) → contains r more ≡ false → contains r rows ≡ false

Within-cons : (s : Text) (rows more : List Text) → Within rows more → Within (s ∷ rows) (s ∷ more)
unfolding contains
Within-cons s rows more w r h = ground (arith, w r)

Within-skip : (s : Text) (rows more : List Text) → Within rows more → Within rows (s ∷ more)
unfolding contains
Within-skip s rows more w r h = w r (ground arith)

check_postings-ne-duplicate :
    (m : Map AccountId Account) (ids : List PostingId) (rows more : List Text)
    (ds : List PostingDisposition) (r : Text)
    → Within rows more
    → unique_rows more ds ≡ ok tt
    → check_postings m ids rows (postings_of ds) ≢ err (duplicate_provenance r)
unfolding unique_rows postings_of check_postings
check_postings-ne-duplicate m ids rows more [] r w u e = cc
check_postings-ne-duplicate m ids rows more (excluded x ∷ ds) r w u e =
    elim (Bool-cases (contains x.provenance.source_row more)) [
      | inl seen ↦ cc (rw seen at u)
      | inr fresh ↦
          check_postings-ne-duplicate m ids rows (x.provenance.source_row ∷ more) ds r
            (Within-skip x.provenance.source_row rows more w) (rw fresh at u) e
    ]
check_postings-ne-duplicate m ids rows more (posting p ∷ ds) r w u e =
    elim (Bool-cases (contains p.provenance.source_row more)) [
      | inl seen ↦ cc (rw seen at u)
      | inr fresh ↦
          let later =
            check_postings-ne-duplicate m (p.id ∷ ids) (p.provenance.source_row ∷ rows)
              (p.provenance.source_row ∷ more) ds r
              (Within-cons p.provenance.source_row rows more w) (rw fresh at u) in
          let unseen = w p.provenance.source_row fresh in ground arith
    ]

-- An error of a chain is that of its first part, or of the rest.
>>=-ne-err {ℓ κ μ} :
    {E : Type κ} {A : Type ℓ} {B : Type μ} (m : Outcome E A) (f : A → Outcome E B) (e : E)
    → m ≢ err e
    → ((a : A) → f a ≢ err e)
    → (m >>= f) ≢ err e
>>=-ne-err (ok a) f e here later h = later a h
>>=-ne-err (err x) f e here later h = here (cc)
>>=-ne-err panic f e here later h = cc
>>=-ne-err stuck f e here later h = cc

collect_accounts-ne-duplicate :
    (m : Map AccountId Account) (accounts : List Account) (r : Text)
    → collect_accounts m accounts ≢ err (duplicate_provenance r)
unfolding collect_accounts
collect_accounts-ne-duplicate m [] r e = cc
collect_accounts-ne-duplicate m (a ∷ rest) r e = elim (Bool-cases (contains_key a.id m)) [
  | inl seen ↦ cc (rw seen at e)
  | inr fresh ↦ collect_accounts-ne-duplicate (insert a.id a m) rest r (rw fresh at e)
]

module _ (m : Map AccountId Account) (r : Text) where
  walk_parents-ne-duplicate :
      (fuel : ℕ) (id : AccountId) (visited : List AccountId) (cursor : AccountId)
      → walk_parents fuel m id visited cursor ≢ err (duplicate_provenance r)
  unfolding walk_parents
  walk_parents-ne-duplicate zero id visited cursor e = cc
  walk_parents-ne-duplicate (suc fuel) id visited cursor e = elim (Option-cases (get cursor m)) [
    | inl missing ↦ cc (rw (missing, walk_parents) at e)
    | inr (a, found) ↦ elim (Option-cases a.parent_account_id) [
      | inl top ↦ cc (rw top at (rw (found, walk_parents) at e))
      | inr (parent, up) ↦
          let later = walk_parents-ne-duplicate fuel id (cursor ∷ visited) parent in
          let e1 = rw up at (rw (found, walk_parents) at e) in
          elim (Bool-cases (contains cursor visited || parent =? id)) [
            | inl cycle ↦ cc (rw cycle at e1)
            | inr on ↦ later (rw on at e1)
          ]
    ]
  ]

  validate_account-ne-duplicate :
      (a : Account) → validate_account m a ≢ err (duplicate_provenance r)
  unfolding validate_account
  validate_account-ne-duplicate a e = elim (Option-cases a.parent_account_id) [
    | inl top ↦ cc (rw (top, validate_account) at e)
    | inr (parent, up) ↦
        let e1 = rw (up, validate_account) at e in
        elim (Bool-cases (parent =? a.id)) [
          | inl self ↦ cc (rw self at e1)
          | inr other ↦ elim (Bool-cases (contains_key parent m)) [
            | inl known ↦
                walk_parents-ne-duplicate (suc (length m)) a.id [] a.id
                  (rw known at (rw other at e1))
            | inr unknown ↦ cc (rw unknown at (rw other at e1))
          ]
        ]
  ]

  validate_accounts-ne-duplicate :
      (accounts : List Account) → validate_accounts m accounts ≢ err (duplicate_provenance r)
  unfolding validate_accounts
  validate_accounts-ne-duplicate [] e = cc
  validate_accounts-ne-duplicate (a ∷ rest) e =
      >>=-ne-err (validate_account m a) _ (duplicate_provenance r) (validate_account-ne-duplicate a)
        (λ _. validate_accounts-ne-duplicate rest) e

-- The ledger of accepted dispositions has no two postings of one source row to complain about.
pub new_ledger-ne-duplicate :
    (accounts : List Account) (ds : List PostingDisposition) (c : LedgerCompleteness) (r : Text)
    → unique_rows [] ds ≡ ok tt
    → new_ledger accounts (postings_of ds) c ≢ err (duplicate_provenance r)
unfolding new_ledger validate_account_hierarchy
new_ledger-ne-duplicate accounts ds c r u =
    >>=-ne-err (collect_accounts [] accounts) _ (duplicate_provenance r)
      (collect_accounts-ne-duplicate [] accounts r)
      (λ m.
        >>=-ne-err (validate_accounts m (values m)) _ (duplicate_provenance r)
          (validate_accounts-ne-duplicate m r (values m))
          (λ _.
            >>=-ne-err (check_postings m [] [] (postings_of ds)) _ (duplicate_provenance r)
              (check_postings-ne-duplicate m [] [] [] ds r (λ _ h. h) u) (λ _ e. cc)))

-- ===== src/Accounting/Validity.antt =====
-- The representation invariant of a ledger, which `Ledger::new` establishes.
use openqbw.Base.{
  ◌≡◌, ◌≢◌, refl, sym, List, [], ◌∷◌, Outcome, some, ok, >>=-eq-ok, true, false, arith, All,
  All-map, DistinctBy, inl, inr, Bool-cases,
}
use openqbw.Base.Int.{pos, i64_min}
use openqbw.Base.Text.{Text, text_ord}
use openqbw.Base.Order.{◌=?◌, ne_of_=?}
use openqbw.Base.Map.{Map, get, insert, contains_key}
use openqbw.Base.Map.Laws.{IsSorted, insert-IsSorted}
use openqbw.Base.Map.Totals.{IsKeyed}
use openqbw.Base.Set.{contains}
use openqbw.Accounting.Types.{AccountId, PostingId, Account, Posting, LedgerCompleteness, Ledger}
use openqbw.Accounting.Errors.{AccountingError}
use openqbw.Accounting.Hierarchy.{validate_account_hierarchy}
use openqbw.Accounting.NewLedger.{collect_accounts, check_postings, new_ledger}

abbrev pub account_id : Account → AccountId
account_id a = a.id

-- A chart of accounts: in the order of the identifiers, each account under its own.
pub record IsChart (m : Map AccountId Account) : Type 0 where
  pub sorted : IsSorted m
  pub keyed : IsKeyed account_id m

-- A posting that the ledger accepts: a non-zero amount other than i64::MIN, on a known account.
pub record IsPosting (m : Map AccountId Account) (p : Posting) : Type 0 where
  pub nonzero : p.signed_minor_units ≢ pos 0
  pub not_min : p.signed_minor_units ≢ i64_min
  pub known : contains_key p.account_id m ≡ true

abbrev pub posting_id : Posting → PostingId
posting_id p = p.id

abbrev pub posting_row : Posting → Text
posting_row p = p.provenance.source_row

pub record IsLedger (l : Ledger) : Type 0 where
  pub chart : IsChart l.accounts
  pub hierarchy : validate_account_hierarchy l.accounts ≡ ok tt
  pub postings_known : All (IsPosting l.accounts) l.postings
  pub ids_distinct : DistinctBy posting_id l.postings
  pub rows_distinct : DistinctBy posting_row l.postings

-- What a lookup finds stands under its own id.
pub get_keyed :
    (k : AccountId) (m : Map AccountId Account) (a : Account)
    → IsKeyed account_id m
    → get k m ≡ some a
    → k ≡ a.id
unfolding get
get_keyed k [] a d h = cc
get_keyed k ((j, b) ∷ m) a d h = ground (arith, text_ord.eq_of_cmp k j, get_keyed k m a d.1)

insert-IsKeyed :
    (a : Account) (m : Map AccountId Account)
    → IsKeyed account_id m
    → IsKeyed account_id (insert a.id a m)
unfolding insert
insert-IsKeyed a [] d = (refl, tt)
insert-IsKeyed a ((k, b) ∷ m) d = ground (arith, insert-IsKeyed a m d.1)

pub insert-IsChart :
    (a : Account) (m : Map AccountId Account) → IsChart m → IsChart (insert a.id a m)
insert-IsChart a m c = record {
  sorted = insert-IsSorted a.id a m c.sorted;
  keyed = insert-IsKeyed a m c.keyed;
}

pub empty_IsChart : IsChart []
empty_IsChart = record { sorted = tt; keyed = tt }

collect_accounts-IsChart :
    (m : Map AccountId Account) (accounts : List Account) {r : Map AccountId Account}
    → IsChart m
    → collect_accounts m accounts ≡ ok r
    → IsChart r
unfolding collect_accounts
collect_accounts-IsChart m [] c e = ground arith
collect_accounts-IsChart m (a ∷ rest) c e = elim (Bool-cases (contains_key a.id m)) [
  | inl seen ↦ cc (rw (seen, collect_accounts) at e)
  | inr fresh ↦
      collect_accounts-IsChart (insert a.id a m) rest (insert-IsChart a m c)
        (rw (fresh, collect_accounts) at e)
]

-- What the loop over the postings has tested, given the ids and rows that it has seen.
record Checked (m : Map AccountId Account) (ids : List PostingId) (rows : List Text) (p : Posting)
    : Type 0 where
  posting : IsPosting m p
  new_id : contains p.id ids ≡ false
  new_row : contains p.provenance.source_row rows ≡ false

head_Checked :
    (m : Map AccountId Account) (ids : List PostingId) (rows : List Text) (p : Posting)
    (rest : List Posting)
    → check_postings m ids rows (p ∷ rest) ≡ ok tt
    → Checked m ids rows p
      × (check_postings m (p.id ∷ ids) (p.provenance.source_row ∷ rows) rest ≡ ok tt)
unfolding check_postings
head_Checked m ids rows p rest e = ground arith

seen_before :
    (ids : List Text) (x y : Text)
    → contains y (x ∷ ids) ≡ false
    → ¬ (x ≡ y) × (contains y ids ≡ false)
unfolding contains
seen_before ids x y h = elim (Bool-cases (y =? x)) [
  | inl e ↦ cc (rw e at h)
  | inr e ↦ (λ p. ne_of_=? y x e (sym p), rw e at h)
]

check_postings-Checked :
    (m : Map AccountId Account) (ids : List PostingId) (rows : List Text) (ps : List Posting)
    → check_postings m ids rows ps ≡ ok tt
    → All (Checked m ids rows) ps × DistinctBy posting_id ps × DistinctBy posting_row ps
check_postings-Checked m ids rows [] e = (tt, tt, tt)
check_postings-Checked m ids rows (p ∷ rest) e =
    let (here, later) = head_Checked m ids rows p rest e in
    let (all, distinct_ids, distinct_rows) =
      check_postings-Checked m (p.id ∷ ids) (p.provenance.source_row ∷ rows) rest later in
    let row = p.provenance.source_row in
    (
      (
        here,
        All-map (Checked m (p.id ∷ ids) (row ∷ rows)) (Checked m ids rows)
            (λ q c. record {
              posting = c.posting;
              new_id = (seen_before ids p.id q.id c.new_id).1;
              new_row = (seen_before rows row q.provenance.source_row c.new_row).1;
            })
            rest all,
      ),
      (
        All-map (Checked m (p.id ∷ ids) (row ∷ rows)) (λ q. ¬ (p.id ≡ q.id))
            (λ q c. (seen_before ids p.id q.id c.new_id).0) rest all,
        distinct_ids,
      ),
      (
        All-map (Checked m (p.id ∷ ids) (row ∷ rows)) (λ q. ¬ (row ≡ q.provenance.source_row))
            (λ q c. (seen_before rows row q.provenance.source_row c.new_row).0) rest all,
        distinct_rows,
      ),
    )

-- The ledger that is built from checked parts.
ok_IsLedger :
    (m : Map AccountId Account) (postings : List Posting) (completeness : LedgerCompleteness)
    (l : Ledger)
    → IsChart m
    → validate_account_hierarchy m ≡ ok tt
    → All (Checked m [] []) postings
      × DistinctBy posting_id postings
      × DistinctBy posting_row postings
    → Path
        (Outcome AccountingError Ledger)
        (ok (record { accounts = m; postings = postings; completeness = completeness }))
        (ok l)
    → IsLedger l × (l.postings ≡ postings) × (l.completeness ≡ completeness)
ok_IsLedger m postings completeness l chart valid checked e =
    let built : l ≡ record { accounts = m; postings = postings; completeness = completeness } =
      cc in
    rw built (
      record {
        chart = chart;
        hierarchy = valid;
        postings_known =
            All-map (Checked m [] []) (IsPosting m) (λ q c. c.posting) postings checked.0;
        ids_distinct = checked.1;
        rows_distinct = checked.2;
      },
      refl,
      refl,
    )

-- A ledger that `Ledger::new` returns has its accounts sorted and under their own ids, a validated
-- hierarchy, and postings on known accounts with amounts other than zero and i64::MIN, whose ids and
-- source rows are distinct. Its postings and its completeness are the given ones.
pub new_ledger-IsLedger :
    (accounts : List Account) (postings : List Posting) (completeness : LedgerCompleteness)
    (l : Ledger)
    → new_ledger accounts postings completeness ≡ ok l
    → IsLedger l × (l.postings ≡ postings) × (l.completeness ≡ completeness)
unfolding new_ledger
new_ledger-IsLedger accounts postings completeness l e =
    let (m, collected, e1) = >>=-eq-ok (collect_accounts [] accounts) _ e in
    let (_, valid, e2) = >>=-eq-ok (validate_account_hierarchy m) _ e1 in
    let (_, checked, e3) = >>=-eq-ok (check_postings m [] [] postings) _ e2 in
    ok_IsLedger m postings completeness l
      (collect_accounts-IsChart [] accounts empty_IsChart collected) valid
      (check_postings-Checked m [] [] postings checked) e3

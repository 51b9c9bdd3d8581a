-- ===== src/Accounting/Selection.antt =====
-- `current_postings_as_of`: which postings of a ledger a report shows.
use openqbw.Base.{
  ◌≡◌, refl, List, [], ◌∷◌, map, Option, none, some, ok, err, Bool, true, false, ◌&&◌, arith, All,
  DistinctBy, inl, inr, Bool-cases, if◌then◌else◌,
}
use openqbw.Base.Int.{ℤ, pos, leb_ℤ, int_laws}
use openqbw.Base.Text.{Text, text_ord}
use openqbw.Base.Order.{◌=?◌}
use openqbw.Base.Map.{Map, get, contains_key}
use openqbw.Base.Sum.{sum_of}
use openqbw.Accounting.Types.{
  AccountId, TransactionId, AccountingDate, Account, Posting, CurrentState, current, superseded,
  deleted, PostingId, ambiguous, GeneralLedgerEntry,
}
use openqbw.Accounting.Errors.{Result, ambiguous_current_state}
use openqbw.Accounting.Validity.{IsPosting}
use openqbw.Accounting.Reports.{select_current}

abbrev pub is_current : CurrentState → Bool
is_current current = true
is_current superseded = false
is_current deleted = false
is_current ambiguous = false

abbrev pub is_ambiguous : CurrentState → Bool
is_ambiguous ambiguous = true
is_ambiguous current = false
is_ambiguous superseded = false
is_ambiguous deleted = false

-- A posting that a report through `as_of` shows.
abbrev pub in_scope : AccountingDate → Posting → Bool
in_scope as_of p = is_current p.current_state && leb_ℤ p.date as_of

-- The sum of `f` over the postings that a report through `as_of` shows.
abbrev pub reported : AccountingDate → (Posting → ℤ) → List Posting → ℤ
reported as_of f ps = sum_of (λ p. if in_scope as_of p then f p else pos 0) ps

abbrev pub posting_amount : Posting → ℤ
posting_amount p = p.signed_minor_units

abbrev pub entry_amount : GeneralLedgerEntry → ℤ
entry_amount e = e.posting.signed_minor_units

abbrev pub entry_transaction : GeneralLedgerEntry → TransactionId
entry_transaction e = e.posting.transaction_id

-- What a posting counts toward the transaction `t`.
abbrev pub in_transaction : TransactionId → Posting → ℤ
in_transaction t p = if t =? p.transaction_id then p.signed_minor_units else pos 0

-- The posting of an entry is in scope and its account is the one that it names.
pub record IsEntry (m : Map AccountId Account) (as_of : AccountingDate) (e : GeneralLedgerEntry)
    : Type 0 where
  pub named : get e.posting.account_id m ≡ some e.account
  pub scope : in_scope as_of e.posting ≡ true

-- The first posting through `as_of` that is ambiguous.
abbrev pub first_ambiguous : AccountingDate → List Posting → Option PostingId
first_ambiguous as_of [] = none
first_ambiguous as_of (p ∷ ps) =
    if is_ambiguous p.current_state && leb_ℤ p.date as_of
    then some p.id
    else first_ambiguous as_of ps

-- The postings in scope, in the ledger's order.
abbrev pub shown : AccountingDate → List Posting → List Posting
shown as_of [] = []
shown as_of (p ∷ ps) = if in_scope as_of p then p ∷ shown as_of ps else shown as_of ps

module _ (m : Map AccountId Account) (as_of : AccountingDate) where
  -- The postings in scope, each with its account.
  unfoldable pub entries_of : List Posting → List GeneralLedgerEntry
  entries_of [] = []
  entries_of (p ∷ ps) =
      if in_scope as_of p
      then elim (get p.account_id m) [
        | none ↦ entries_of ps
        | some a ↦ record { account = a; posting = p } ∷ entries_of ps
      ]
      else entries_of ps

  abbrev pub selection : Option PostingId → List Posting → Result (List GeneralLedgerEntry)
  selection none ps = ok (entries_of ps)
  selection (some id) ps = err (ambiguous_current_state id)

  -- On known accounts the selection meets an ambiguous posting, or yields the postings in scope.
  pub select_current-selection :
      (ps : List Posting)
      → All (IsPosting m) ps
      → select_current m as_of ps ≡ selection (first_ambiguous as_of ps) ps
  unfolding select_current entries_of
  select_current-selection [] h = refl
  select_current-selection (p ∷ ps) h =
      let known : contains_key p.account_id m ≡ true = h.0.known in
      ground (arith, select_current-selection ps h.1)

  pub entries_of-IsEntry : (ps : List Posting) → All (IsEntry m as_of) (entries_of ps)
  unfolding entries_of
  entries_of-IsEntry [] = tt
  entries_of-IsEntry (p ∷ ps) = ground (arith, entries_of-IsEntry ps)

  pub map-entries_of :
      (ps : List Posting)
      → All (IsPosting m) ps
      → map (λ e. e.posting) (entries_of ps) ≡ shown as_of ps
  unfolding entries_of
  map-entries_of [] h = refl
  map-entries_of (p ∷ ps) h =
      let known : contains_key p.account_id m ≡ true = h.0.known in
      ground (arith, map-entries_of ps h.1)

  pub sum-shown :
      (f : Posting → ℤ) (ps : List Posting) → sum_of f (shown as_of ps) ≡ reported as_of f ps
  unfolding sum_of
  sum-shown f [] = refl
  sum-shown f (p ∷ ps) = elim (Bool-cases (in_scope as_of p)) [
    | inl e ↦ rw e (rw (sum-shown f ps))
    | inr e ↦ rw e (rw (sum-shown f ps) (omega int_laws))
  ]

  -- What holds of the postings holds of the entries' postings.
  pub entries_of-All :
      (P : Posting → Type 0) (ps : List Posting) → All P ps → All (λ e. P e.posting) (entries_of ps)
  unfolding entries_of
  entries_of-All P [] h = tt
  entries_of-All P (p ∷ ps) h = ground (arith, entries_of-All P ps h.1)

  pub entries_of-DistinctBy :
      (key : Posting → Text) (ps : List Posting)
      → DistinctBy key ps
      → DistinctBy (λ e. key e.posting) (entries_of ps)
  unfolding entries_of
  entries_of-DistinctBy key [] d = tt
  entries_of-DistinctBy key (p ∷ ps) d =
      let apart = entries_of-All (λ q. ¬ (key p ≡ key q)) ps d.0 in
      ground (arith, entries_of-DistinctBy key ps d.1)

-- ===== src/Rows/BillLine.antt =====
-- crates/openqbw/src/materialized_bill_posting.rs: Bill lines, with the amount at their end.
pub mod Amount
pub mod Parsed
use openqbw.Base.{
  ℕ, zero, suc, ◌+◌, ◌-◌, Bool, true, false, not, ◌&&◌, ◌||◌, List, [], ◌∷◌, Option, none, some,
  Outcome, ok, err, panic, stuck, ◌>>=◌, length, drop, leb, ltb, ◌==◌, if◌then◌else◌,
}
use openqbw.Base.Int.{ℤ, eq_ℤ}
use openqbw.Cents.{PostingCents, parse_cents}
use openqbw.Rows.{byte_at, u16_at, u32_at, slice, eq_bytes}

abbrev pub expected_flags : ℕ
expected_flags = 0x40

abbrev pub expected_row_class : ℕ
expected_row_class = 0x02

abbrev pub expected_row_kind : ℕ
expected_row_kind = 0xe4

abbrev pub target_offset : ℕ
target_offset = 0x0c

abbrev pub master_offset : ℕ
master_offset = 0x10

abbrev pub account_offset : ℕ
account_offset = 0x14

abbrev pub date_raw_offset : ℕ
date_raw_offset = 0x18

abbrev pub view_type_offset : ℕ
view_type_offset = 0x1c

abbrev pub trailing_amount_end_gap : ℕ
trailing_amount_end_gap = 8

-- `FIXED_FIELDS_END + TRAILING_AMOUNT_END_GAP + 3`
abbrev pub minimum_len : ℕ
minimum_len = 41

abbrev pub trailing_canonical_zero : List ℕ
trailing_canonical_zero = 0 ∷ 0 ∷ 0 ∷ 0 ∷ 0x81 ∷ []

pub data BillTransactionKind : Type 0 where
  bill vendor_credit : BillTransactionKind

pub record BillLineRow : Type 0 where
  pub target_record_number : ℕ
  pub master_record_number : ℕ
  pub account_record_number : ℕ
  pub date_raw : ℕ
  pub view_type : ℕ
  pub signed_cents : ℤ
  pub canonical_zero_amount : Bool

pub data BillLineError : Type 0 where
  segment_too_short declared_length_mismatch : ℕ → ℕ → BillLineError
  unexpected_flags unexpected_row_class unexpected_row_kind unsupported_zero_amount_marker
        unsupported_amount_marker invalid_base100_digit :
      ℕ → BillLineError
  amount_overflow unexpected_trailing_suffix amount_outside_segment ambiguous_trailing_amount :
      BillLineError
  missing_required_record_reference : BillLineError

-- A token at the end of the row that reads as an amount.
pub record Candidate : Type 0 where
  pub start : ℕ
  pub amount : PostingCents

-- `input[start..start + count]`, which panics behind the end.
unfoldable pub bytes_at : List ℕ → ℕ → ℕ → Outcome BillLineError (List ℕ)
unfolding slice
bytes_at input start count = elim (slice input start count) [ none ↦ panic | some bytes ↦ ok bytes ]

-- The match on `MaterializedPostingCents::parse`: a token that it refuses is passed over.
abbrev pub accepted_candidate {κ} :
    {E : Type κ} → ℕ → Outcome E PostingCents → Outcome BillLineError (Option Candidate)
accepted_candidate start (ok amount) = ok (some (record { start = start; amount = amount }))
accepted_candidate start (err e) = ok none
accepted_candidate start panic = panic
accepted_candidate start stuck = stuck

-- The body of the loop over the number of digits.
unfoldable pub candidate_at : List ℕ → ℕ → ℕ → Outcome BillLineError (Option Candidate)
unfolding byte_at bytes_at parse_cents
candidate_at input amount_end digits = if ltb amount_end (digits + 2) then ok none else do
  count ← byte_at input (amount_end - (digits + 2))
  if not (count == digits) then ok none else do
    token ← bytes_at input (amount_end - (digits + 2)) (digits + 2)
    accepted_candidate (amount_end - (digits + 2)) (parse_cents token)

abbrev pub push : Option Candidate → List Candidate → List Candidate
push none cs = cs
push (some c) cs = c ∷ cs

unfoldable pub candidates : List ℕ → ℕ → List ℕ → Outcome BillLineError (List Candidate)
unfolding candidate_at
candidates input amount_end [] = ok []
candidates input amount_end (digits ∷ more) = do
  found ← candidate_at input amount_end digits
  later ← candidates input amount_end more
  ok (push found later)

-- `0..=MAX_OBSERVED_AMOUNT_DIGITS`
abbrev pub digit_counts : List ℕ
digit_counts = 0 ∷ 1 ∷ 2 ∷ 3 ∷ 4 ∷ []

abbrev pub eq_amount : PostingCents → PostingCents → Bool
eq_amount a b =
    eq_ℤ a.signed_cents b.signed_cents
    && (if a.canonical_zero then b.canonical_zero else not b.canonical_zero)

-- `distinct.len() == 1`, of a list that begins with this amount.
unfoldable pub all_same : PostingCents → List Candidate → Bool
all_same amount [] = true
all_same amount (c ∷ cs) = eq_amount c.amount amount && all_same amount cs

-- The condition of the filter.
unfoldable pub is_repeated : List ℕ → ℕ → Candidate → Outcome BillLineError Bool
unfolding bytes_at eq_bytes
is_repeated input amount_end c =
    let len = amount_end - c.start in
    if not (leb (len + 5) c.start) then ok false else do
      before ← bytes_at input (c.start - len - 5) len
      token ← bytes_at input c.start len
      ok (eq_bytes before token)

unfoldable pub repeated : List ℕ → ℕ → List Candidate → Outcome BillLineError (List Candidate)
unfolding is_repeated
repeated input amount_end [] = ok []
repeated input amount_end (c ∷ cs) = do
  keep ← is_repeated input amount_end c
  later ← repeated input amount_end cs
  ok (if keep then c ∷ later else later)

-- The only element of the list.
abbrev pub only : List Candidate → Outcome BillLineError PostingCents
only [] = err ambiguous_trailing_amount
only (c ∷ []) = ok c.amount
only (c ∷ d ∷ rest) = err ambiguous_trailing_amount

unfoldable pub parse_trailing_amount : List ℕ → ℕ → Outcome BillLineError PostingCents
unfolding candidates all_same repeated
parse_trailing_amount input amount_end = candidates input amount_end digit_counts >>= λ cs.
    elim cs [
      | [] ↦ err amount_outside_segment
      | c ∷ rest ↦
          if all_same c.amount rest
          then ok c.amount
          else repeated input amount_end (c ∷ rest) >>= only
    ]

-- The amount and the references behind the checked header.
unfoldable pub parse_bill_fields : List ℕ → Outcome BillLineError BillLineRow
unfolding parse_trailing_amount u16_at u32_at
parse_bill_fields input = do
  amount ← parse_trailing_amount input (length input - trailing_amount_end_gap)
  target ← u32_at input target_offset
  master ← u32_at input master_offset
  account ← u32_at input account_offset
  if (target == 0) || (master == 0) || (account == 0)
      then err missing_required_record_reference
      else do
        date ← u32_at input date_raw_offset
        view ← u16_at input view_type_offset
        ok (record {
          target_record_number = target;
          master_record_number = master;
          account_record_number = account;
          date_raw = date;
          view_type = view;
          signed_cents = amount.signed_cents;
          canonical_zero_amount = amount.canonical_zero;
        })

-- `MaterializedBillPostingRow::parse`; an input this long has an end of the amount.
unfoldable pub parse_bill_line : List ℕ → Outcome BillLineError BillLineRow
unfolding byte_at u16_at eq_bytes parse_bill_fields
parse_bill_line input =
    if ltb (length input) minimum_len
    then err (segment_too_short (length input) minimum_len)
    else do
      declared ← u16_at input 0
      if not (declared == length input)
          then err (declared_length_mismatch declared (length input))
          else do
            flags ← byte_at input 2
            if not (flags == expected_flags) then err (unexpected_flags flags) else do
              row_class ← byte_at input 3
              if not (row_class == expected_row_class)
                  then err (unexpected_row_class row_class)
                  else do
                    row_kind ← byte_at input 4
                    if not (row_kind == expected_row_kind)
                        then err (unexpected_row_kind row_kind)
                        else if not
                            (eq_bytes (drop (length input - 5) input) trailing_canonical_zero)
                        then err unexpected_trailing_suffix
                        else parse_bill_fields input

-- `transaction_kind`
unfoldable pub transaction_kind : BillLineRow → Option BillTransactionKind
transaction_kind row =
    if row.view_type == 9
    then some bill
    else if row.view_type == 12
    then some vendor_credit
    else none

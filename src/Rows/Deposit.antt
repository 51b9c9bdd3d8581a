-- ===== src/Rows/Deposit.antt =====
-- crates/openqbw/src/materialized_deposit_posting.rs: Deposit rows and their counterparts.
pub mod Parsed
pub mod Counterpart
pub mod Unique
pub mod Settled
use openqbw.Base.{
  ℕ, zero, suc, ◌+◌, ◌-◌, Bool, true, false, not, List, [], ◌∷◌, Option, none, some, Outcome, ok,
  err, panic, stuck, map_err, ◌>>=◌, ◌>>◌, length, drop, leb, ltb, ◌==◌, if◌then◌else◌,
}
use openqbw.Base.Int.{ℤ}
use openqbw.Cents.{PostingCents, PostingCentsError, parse_cents}
use openqbw.Rows.{byte_at, u16_at, u32_at, slice}

abbrev pub deposit_posting_kind : ℕ
deposit_posting_kind = 0xe1

abbrev pub deposit_terminal_posting_kind : ℕ
deposit_terminal_posting_kind = 0xe0

abbrev pub deposit_counterpart_f0_kind : ℕ
deposit_counterpart_f0_kind = 0xf0

abbrev pub deposit_counterpart_f1_kind : ℕ
deposit_counterpart_f1_kind = 0xf1

pub record CounterpartRow : Type 0 where
  pub master_record_number : ℕ
  pub account_record_number : ℕ
  pub date_raw : ℕ
  pub kind : ℕ
  pub signed_cents : ℤ
  pub canonical_zero_amount : Bool

pub record DepositRow : Type 0 where
  pub target_record_number : ℕ
  pub master_record_number : ℕ
  pub account_record_number : ℕ
  pub date_raw : ℕ
  pub view_type : ℕ
  pub next_target_record_number : Option ℕ
  pub source_account_record_number : ℕ
  pub signed_cents : ℤ
  pub canonical_zero_amount : Bool

-- The labels of the required references.
pub data ReferenceField : Type 0 where
  target master account source_account next_target : ReferenceField

pub data DepositError : Type 0 where
  missing_required_reference : ReferenceField → DepositError
  ambiguous_tail_amount unexpected_flags unexpected_kind unsupported_zero_amount_marker
        unsupported_amount_marker invalid_base100_digit :
      ℕ → DepositError
  segment_too_short declared_length_mismatch amount_outside_segment
        unexpected_trailing_amount_data :
      ℕ → ℕ → DepositError
  amount_overflow : DepositError

unfoldable pub ensure_minimum : List ℕ → ℕ → Outcome DepositError (Unit {0})
ensure_minimum input minimum =
    if ltb (length input) minimum then err (segment_too_short (length input) minimum) else ok tt

unfoldable pub require_reference : ℕ → ReferenceField → Outcome DepositError (Unit {0})
require_reference value label = if value == 0 then err (missing_required_reference label) else ok tt

abbrev pub nonzero_reference : ℕ → Option ℕ
nonzero_reference value = if value == 0 then none else some value

-- The conversion of a refused token, in a segment of `segment_len` bytes.
abbrev pub amount_error : ℕ → PostingCentsError → DepositError
amount_error segment_len (PostingCentsError.token_too_short n) =
    amount_outside_segment 0 segment_len
amount_error segment_len (PostingCentsError.digits_outside_token digits n) =
    amount_outside_segment digits segment_len
amount_error segment_len (PostingCentsError.unsupported_zero_marker marker) =
    unsupported_zero_amount_marker marker
amount_error segment_len (PostingCentsError.unsupported_marker marker) =
    unsupported_amount_marker marker
amount_error segment_len (PostingCentsError.invalid_base100_digit digit) =
    DepositError.invalid_base100_digit digit
amount_error segment_len PostingCentsError.cents_overflow = amount_overflow

unfoldable pub decode_amount : List ℕ → ℕ → Outcome DepositError PostingCents
unfolding parse_cents
decode_amount [] amount_offset = err (amount_outside_segment 0 amount_offset)
decode_amount (digits ∷ rest) amount_offset =
    let len = suc (length rest) in
    if ltb len (digits + 2)
    then err (amount_outside_segment digits (len + amount_offset))
    else if ltb (digits + 2) len
    then err (unexpected_trailing_amount_data (amount_offset + (digits + 2)) (len + amount_offset))
    else map_err (amount_error (len + amount_offset)) (parse_cents (digits ∷ rest))

-- `input[start..start + count]` and `input[start..]`, which panic behind the end.
unfoldable pub bytes_of : List ℕ → ℕ → ℕ → Outcome DepositError (List ℕ)
unfolding slice
bytes_of input start count = elim (slice input start count) [ none ↦ panic | some bytes ↦ ok bytes ]

unfoldable pub bytes_from : List ℕ → ℕ → Outcome DepositError (List ℕ)
bytes_from input start = if ltb (length input) start then panic else ok (drop start input)

-- The checks that both parsers begin with; they yield the kind.
unfoldable pub check_head : List ℕ → Outcome DepositError ℕ
unfolding byte_at u16_at
check_head input = if ltb (length input) 4 then err (segment_too_short (length input) 4) else do
  declared ← u16_at input 0
  if not (declared == length input)
      then err (declared_length_mismatch declared (length input))
      else do
        flags ← byte_at input 2
        if not (flags == 0) then err (unexpected_flags flags) else byte_at input 3

-- The next target, the source account and the place of the amount, in the two forms.
unfoldable pub linked_form : List ℕ → Outcome DepositError (Option ℕ × ℕ × ℕ)
unfolding u32_at ensure_minimum
linked_form input = do
  ensure_minimum input 0x34
  next ← u32_at input 0x1a
  source ← u32_at input 0x1e
  ok (nonzero_reference next, source, 0x32)

unfoldable pub terminal_form : List ℕ → Outcome DepositError (Option ℕ × ℕ × ℕ)
unfolding u32_at ensure_minimum
terminal_form input = do
  ensure_minimum input 0x30
  source ← u32_at input 0x1a
  ok (none, source, 0x2e)

unfoldable pub deposit_form : List ℕ → ℕ → Outcome DepositError (Option ℕ × ℕ × ℕ)
unfolding linked_form terminal_form
deposit_form input kind =
    if kind == deposit_posting_kind
    then linked_form input
    else if kind == deposit_terminal_posting_kind
    then terminal_form input
    else err (unexpected_kind kind)

-- The test of the next target, which `nonzero_reference` has made true.
abbrev pub require_next : Option ℕ → Outcome DepositError (Unit {0})
require_next none = ok tt
require_next (some next) = require_reference next next_target

-- `MaterializedDepositPostingRow::parse`
unfoldable pub parse_deposit : List ℕ → Outcome DepositError DepositRow
unfolding check_head deposit_form ensure_minimum require_reference decode_amount bytes_from u16_at
    u32_at
parse_deposit input = do
  kind ← check_head input
  ensure_minimum input 0x1a
  target_number ← u32_at input 0x08
  require_reference target_number target
  master_number ← u32_at input 0x0c
  require_reference master_number master
  account_number ← u32_at input 0x10
  require_reference account_number account
  form ← deposit_form input kind
  require_reference form.1 source_account
  require_next form.0
  token ← bytes_from input form.2
  amount ← decode_amount token form.2
  date ← u32_at input 0x14
  view ← u16_at input 0x18
  ok (record {
    target_record_number = target_number;
    master_record_number = master_number;
    account_record_number = account_number;
    date_raw = date;
    view_type = view;
    next_target_record_number = form.0;
    source_account_record_number = form.1;
    signed_cents = amount.signed_cents;
    canonical_zero_amount = amount.canonical_zero;
  })

-- The candidate with this many digits; a token that is refused is passed over.
abbrev pub passed_over :
    Outcome DepositError PostingCents → Outcome DepositError (Option PostingCents)
passed_over (ok amount) = ok (some amount)
passed_over (err e) = ok none
passed_over panic = panic
passed_over stuck = stuck

unfoldable pub tail_candidate : List ℕ → ℕ → ℕ → Outcome DepositError (Option PostingCents)
unfolding byte_at bytes_of decode_amount
tail_candidate input suffix_start digits = if ltb suffix_start (digits + 2) then ok none else do
  count ← byte_at input (suffix_start - (digits + 2))
  if not (count == digits) then ok none else do
    token ← bytes_of input (suffix_start - (digits + 2)) (digits + 2)
    passed_over (decode_amount token (suffix_start - (digits + 2)))

abbrev pub push_amount : Option PostingCents → List PostingCents → List PostingCents
push_amount none found = found
push_amount (some amount) found = amount ∷ found

unfoldable pub tail_candidates : List ℕ → ℕ → List ℕ → Outcome DepositError (List PostingCents)
unfolding tail_candidate
tail_candidates input suffix_start [] = ok []
tail_candidates input suffix_start (digits ∷ more) = do
  found ← tail_candidate input suffix_start digits
  later ← tail_candidates input suffix_start more
  ok (push_amount found later)

-- The match on the candidates, in a segment of `segment_len` bytes.
abbrev pub only_amount : ℕ → List PostingCents → Outcome DepositError PostingCents
only_amount segment_len [] = err (amount_outside_segment 0 segment_len)
only_amount segment_len (amount ∷ []) = ok amount
only_amount segment_len (a ∷ b ∷ rest) = err (ambiguous_tail_amount (suc (suc (length rest))))

-- The place of the account, by the kind.
unfoldable pub counterpart_account_offset : ℕ → Outcome DepositError ℕ
counterpart_account_offset kind =
    if kind == deposit_counterpart_f0_kind
    then ok 0x1e
    else if kind == deposit_counterpart_f1_kind
    then ok 0x22
    else err (unexpected_kind kind)

-- `MaterializedDepositCounterpartPostingRow::parse`
unfoldable pub parse_counterpart : List ℕ → Outcome DepositError CounterpartRow
unfolding check_head counterpart_account_offset ensure_minimum require_reference tail_candidates
    u32_at
parse_counterpart input = do
  kind ← check_head input
  account_offset ← counterpart_account_offset kind
  ensure_minimum input (account_offset + 11)
  master_number ← u32_at input 0x0c
  require_reference master_number master
  account_number ← u32_at input account_offset
  require_reference account_number account
  found ← tail_candidates input (length input - 5) (4 ∷ 3 ∷ 2 ∷ 1 ∷ 0 ∷ [])
  amount ← only_amount (length input) found
  date ← u32_at input 0x14
  ok (record {
    master_record_number = master_number;
    account_record_number = account_number;
    date_raw = date;
    kind = kind;
    signed_cents = amount.signed_cents;
    canonical_zero_amount = amount.canonical_zero;
  })

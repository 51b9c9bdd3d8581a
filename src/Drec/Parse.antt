-- ===== src/Drec/Parse.antt =====
-- `parse_drec`. The bytes and the cursor are kept as the cursor and the bytes behind it, whose number
-- is `bytes.len() - cursor`.
use openqbw.Base.{
  ℕ, zero, suc, ◌+◌, ◌-◌, ◌^◌, Bool, true, false, not, List, [], ◌∷◌, Option, none, some, ok, err,
  stuck, map_err, ◌>>=◌, length, take, drop, ltb, leb, ◌==◌, if◌then◌else◌,
}
use openqbw.Base.Order.{nat_ord}
use openqbw.Base.Map.{Map, get, insert, contains_key}
use openqbw.Balance.{BalanceBytes, balance_from_disk_bytes}
use openqbw.Drec.{
  drec_max_len, u16_max, DrecByteOrder, read_u16, read_u32, DrecClass, DrecValue, DrecDescriptor,
  DrecSchema, DrecField, DrecRecord, Drec, DrecError, truncated, length_overflow,
  unterminated_string, unexpected_end_descriptor, pointer_sized_field_unsupported,
  invalid_legacy_balance, record_too_large, trailing_bytes, non_increasing_ordinal,
  ordinal_out_of_range, duplicate_ordinal,
}
use openqbw.Drec.Schema.{field, field_count}

pub record Input : Type 0 where
  pub cursor : ℕ
  pub rest : List ℕ

abbrev pub advance : ℕ → List ℕ → Input → Input
advance count rest input = record { cursor = input.cursor + count; rest = rest }

abbrev pub truncated_at : Input → ℕ → DrecError
truncated_at input needed = truncated input.cursor needed (length input.rest)

-- A range of more than 2^64 bytes overflows usize.
abbrev pub fits_usize : ℕ → Bool
fits_usize n = ltb n (2 ^ 64)

unfoldable pub take_slice : Input → ℕ → Drec (List ℕ × Input)
take_slice input count =
    if not (fits_usize (input.cursor + count))
    then err length_overflow
    else if ltb (length input.rest) count
    then err (truncated_at input count)
    else ok (take count input.rest, advance count (drop count input.rest) input)

-- `take` at 2, 4 and 6 bytes; the cursor is far from overflow, since the bytes are at most 30,000.
unfoldable pub take_2 : (ℕ → ℕ → ℕ) → Input → Drec (ℕ × Input)
take_2 read input = elim input.rest [
  | a ∷ b ∷ rest ↦ ok (read a b, advance 2 rest input)
  | _ ↦ err (truncated_at input 2)
]

unfoldable pub take_4 : (ℕ → ℕ → ℕ → ℕ → ℕ) → Input → Drec (ℕ × Input)
take_4 read input = elim input.rest [
  | a ∷ b ∷ c ∷ d ∷ rest ↦ ok (read a b c d, advance 4 rest input)
  | _ ↦ err (truncated_at input 4)
]

unfoldable pub take_6 : Input → Drec (BalanceBytes × Input)
take_6 input = elim input.rest [
  | a ∷ b ∷ c ∷ d ∷ e ∷ f ∷ rest ↦
      ok (record { b0 = a; b1 = b; b2 = c; b3 = d; b4 = e; b5 = f }, advance 6 rest input)
  | _ ↦ err (truncated_at input 6)
]

-- The first NUL among `bound` bytes: what stands before it, and what behind.
unfoldable pub split_nul : ℕ → List ℕ → Option (List ℕ × List ℕ)
split_nul zero bytes = none
split_nul (suc bound) [] = none
split_nul (suc bound) (b ∷ bytes) =
    let later = split_nul bound bytes in
    if b == 0
    then some ([], bytes)
    else elim later [ none ↦ none | some (found, rest) ↦ some (b ∷ found, rest) ]

unfoldable pub parse_string : Input → ℕ → Drec (DrecValue × Input)
unfolding split_nul
parse_string input bound =
    if not (fits_usize (input.cursor + bound))
    then err length_overflow
    else elim (split_nul bound input.rest) [
      | none ↦
          if ltb (length input.rest) bound
          then err (truncated_at input bound)
          else err (unterminated_string input.cursor bound)
      | some (found, rest) ↦ ok (DrecValue.string found, advance (suc (length found)) rest input)
    ]

unfoldable pub parse_value : Input → DrecDescriptor → DrecByteOrder → Drec (DrecValue × Input)
unfolding parse_string take_slice take_2 take_4 take_6 balance_from_disk_bytes
parse_value input d order = elim d.kind [
  | DrecClass.string ↦ parse_string input d.length
  | DrecClass.bytes ↦ do (v, next) ← take_slice input d.length; ok (DrecValue.bytes v, next)
  | DrecClass.f ↦ do (v, next) ← take_4 (read_u32 order) input; ok (DrecValue.u32 v, next)
  | DrecClass.i ↦ do (v, next) ← take_4 (read_u32 order) input; ok (DrecValue.u32 v, next)
  | DrecClass.l ↦ do (v, next) ← take_4 (read_u32 order) input; ok (DrecValue.u32 v, next)
  | DrecClass.h ↦ do (v, next) ← take_2 (read_u16 order) input; ok (DrecValue.u16 v, next)
  | DrecClass.u ↦ do (v, next) ← take_2 (read_u16 order) input; ok (DrecValue.u16 v, next)
  | DrecClass.legacy_balance ↦ do
    (six, next) ← take_6 input
    v ← map_err invalid_legacy_balance (balance_from_disk_bytes six)
    ok (DrecValue.legacy_balance v, next)
  | DrecClass.z ↦ do (v, next) ← take_slice input 9; ok (DrecValue.z v, next)
  | DrecClass.end ↦ err unexpected_end_descriptor
  | DrecClass.pointer_sized_d ↦ err (pointer_sized_field_unsupported (2 ^ 64 - 1))
]

abbrev pub not_after : Option ℕ → ℕ → Option ℕ
not_after none ordinal = none
not_after (some previous) ordinal = if leb ordinal previous then some previous else none

-- The body of the loop behind the ordinal; `again` is the next round, from the ordinal before it.
unfoldable pub parse_field :
    DrecSchema
    → DrecByteOrder
    → ℕ
    → Option ℕ
    → Map ℕ DrecField
    → ℕ
    → ℕ
    → Input
    → (Option ℕ → Map ℕ DrecField → Input → Drec DrecRecord)
    → Drec DrecRecord
unfolding parse_value get insert
parse_field schema order flag previous fields start ordinal at_value again =
    elim (ordinal == u16_max) [
      | true ↦ elim at_value.rest [
        | [] ↦ ok (record { flag = flag; fields = fields })
        | _ ∷ _ ↦ err (trailing_bytes at_value.cursor (length at_value.rest))
      ]
      | false ↦ elim (not_after previous ordinal) [
        | some p ↦ err (non_increasing_ordinal p ordinal)
        | none ↦ elim (field schema ordinal) [
          | none ↦ err (ordinal_out_of_range ordinal (field_count schema))
          | some d ↦
              if contains_key ordinal fields
              then err (duplicate_ordinal ordinal)
              else parse_value at_value d order >>= λ r.
                  again (some ordinal)
                    (insert ordinal
                      (record {
                        ordinal = ordinal;
                        value = r.0;
                        byte_range = record { start = start; stop = r.1.cursor };
                        payload_range = record { start = at_value.cursor; stop = r.1.cursor };
                      })
                      fields)
                    r.1
        ]
      ]
    ]

-- The loop, with fuel; `previous` is the ordinal of the field before.
unfoldable pub parse_fields :
    ℕ → DrecSchema → DrecByteOrder → ℕ → Option ℕ → Map ℕ DrecField → Input → Drec DrecRecord
unfolding take_2 parse_field read_u16
parse_fields zero schema order flag previous fields input = stuck
parse_fields (suc fuel) schema order flag previous fields input =
    take_2 (read_u16 order) input >>= λ x.
    parse_field schema order flag previous fields input.cursor x.0 x.1
      (λ last read rest. parse_fields fuel schema order flag last read rest)

-- A round of the loop takes two bytes at least.
unfoldable pub parse_drec : List ℕ → DrecSchema → DrecByteOrder → Drec DrecRecord
unfolding parse_fields
parse_drec bytes schema order =
    if ltb drec_max_len (length bytes)
    then err (record_too_large (length bytes) drec_max_len)
    else elim bytes [
      | [] ↦ err (truncated 0 1 0)
      | flag ∷ rest ↦
          parse_fields (suc (length rest)) schema order flag none []
            (record { cursor = 1; rest = rest })
    ]

-- ===== src/Rows/BillHeader.antt =====
-- crates/openqbw/src/materialized_bill_header.rs: Bill headers.
use openqbw.Base.{
  ℕ, ◌≡◌, ◌≢◌, ◌↔◌, true, not, List, ◌∷◌, ◌++◌, Outcome, ok, err, ◌>>=◌, is_settled, length, ltb,
  ◌==◌, if◌then◌else◌, arith, All,
}
use openqbw.Base.Bytes.{IsByte, IsU16, IsU32}
use openqbw.Rows.{byte_at, u16_at, u32_at, le16, le32}

abbrev pub expected_flags : ℕ
expected_flags = 0x40

abbrev pub expected_row_class : ℕ
expected_row_class = 0x02

abbrev pub master_record_offset : ℕ
master_record_offset = 7

abbrev pub min_len : ℕ
min_len = 11

pub data BillHeaderKind : Type 0 where
  ordinary alternate : BillHeaderKind

pub record BillHeaderRow : Type 0 where
  pub bill_master_record_number : ℕ
  pub kind : BillHeaderKind

pub data BillHeaderError : Type 0 where
  segment_too_short : ℕ → BillHeaderError
  declared_length_mismatch : ℕ → ℕ → BillHeaderError
  unexpected_flags unexpected_row_class unexpected_row_kind : ℕ → BillHeaderError
  missing_master_record_reference : BillHeaderError

-- The match on the row kind.
unfoldable pub header_kind : ℕ → Outcome BillHeaderError BillHeaderKind
header_kind byte =
    if byte == 0xff
    then ok ordinary
    else if byte == 0xf7
    then ok alternate
    else err (unexpected_row_kind byte)

unfoldable pub parse_bill_header : List ℕ → Outcome BillHeaderError BillHeaderRow
unfolding byte_at u16_at u32_at header_kind
parse_bill_header input =
    if ltb (length input) min_len then err (segment_too_short (length input)) else do
      declared ← u16_at input 0
      if not (declared == length input)
          then err (declared_length_mismatch declared (length input))
          else do
            flags ← byte_at input 2
            if not (flags == expected_flags) then err (unexpected_flags flags) else do
              row_class ← byte_at input 3
              if not (row_class == expected_row_class)
                  then err (unexpected_row_class row_class)
                  else do
                    byte ← byte_at input 4
                    kind ← header_kind byte
                    number ← u32_at input master_record_offset
                    if number == 0
                        then err missing_master_record_reference
                        else ok (record { bill_master_record_number = number; kind = kind })

abbrev pub kind_byte : BillHeaderKind → ℕ
kind_byte ordinary = 0xff
kind_byte alternate = 0xf7

-- The bytes of a Bill header: its length, the fixed bytes, the kind, two bytes, and the number.
abbrev pub header_bytes : ℕ → BillHeaderRow → ℕ → ℕ → List ℕ → List ℕ
header_bytes len row x y rest =
    le16 len
    ++ (0x40 ∷ 0x02 ∷ kind_byte row.kind ∷ x ∷ y ∷ le32 row.bill_master_record_number)
    ++ rest

-- Bytes parse as a Bill header exactly when they begin with their own length, the flags, the class and
-- the kind of the row, and with the number, not zero, of the transaction behind two bytes.
pub parse_bill_header_iff :
    (input : List ℕ) (row : BillHeaderRow)
    → All IsByte input
    → (parse_bill_header input ≡ ok row) ↔ (
        IsU16 (length input)
        × IsU32 row.bill_master_record_number
        × (row.bill_master_record_number ≢ 0)
        × ((x : ℕ) × (y : ℕ) × (rest : List ℕ) × (input
              ≡ header_bytes (length input) row x y rest)))
unfolding parse_bill_header header_kind
parse_bill_header_iff (a ∷ b ∷ flags ∷ class ∷ byte ∷ x ∷ y ∷ n0 ∷ n1 ∷ n2 ∷ n3 ∷ rest) row h = (
  λ e. (ground arith, ground arith, ground arith, (x, y, rest, ground arith)),
  λ (u, v, nonzero, (x', y', rest', same)). ground arith,
)
parse_bill_header_iff input row h = (λ e. cc, λ e. absurd (cc e.3.3))

-- No input makes the parser panic.
pub parse_bill_header-is_settled : (input : List ℕ) → is_settled (parse_bill_header input) ≡ true
unfolding parse_bill_header header_kind
parse_bill_header-is_settled (a ∷ b ∷ flags ∷ class ∷ byte ∷ x ∷ y ∷ n0 ∷ n1 ∷ n2 ∷ n3 ∷ rest) =
    ground arith
parse_bill_header-is_settled input = ground arith

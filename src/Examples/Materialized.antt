-- ===== src/Examples/Materialized.antt =====
-- Rows of the materialized tables.
use openqbw.Base.{
  zero, suc, ltb, ◌≡◌, ◌≢◌, ◌↔◌, ◌&&◌, refl, arith, Bool, true, false, none, some, ok, List, [],
  ◌∷◌, All, is_settled, ℕ, length,
}
use openqbw.Base.Bytes.{IsByte, IsU16, IsU32}
use openqbw.Base.Int.{pos, negsuc}
use openqbw.Cents.{parse_cents}
use openqbw.Rows.LongValue.{LongValueRef, parse_long_value_ref}
use openqbw.Rows.BillHeader.{
  BillHeaderRow, ordinary, parse_bill_header, header_bytes, parse_bill_header_iff,
}
use openqbw.Rows.BillLine.{BillLineRow, parse_bill_line}
use openqbw.Rows.BillLine.Parsed.{IsBillLine, parse_bill_line-IsBillLine}
use openqbw.Rows.Deposit.{DepositRow, CounterpartRow, parse_deposit, parse_counterpart}
use openqbw.Rows.Deposit.Parsed.{IsDeposit, parse_deposit-IsDeposit}
use openqbw.Rows.Deposit.Counterpart.{IsCounterpart, parse_counterpart-IsCounterpart}
use openqbw.Rows.VoidCompanion.{
  Carrier, parse_companion, IsCarrier, carrier_bytes, parse_companion_iff,
}
use openqbw.Rows.MasterRow.{MasterRow, parse_master_row}
use openqbw.Rows.MasterRow.Framed.{IsMasterRow, parse_master_row-IsMasterRow}
use openqbw.Rows.NoPanic.{row_parsers-is_settled}

abbrev locator : LongValueRef
locator = record { marker = 0x80; payload_len = 300; target_page = 7; reserved = 0; selector = 3 }

abbrev locator_input : List ℕ
locator_input = 0x80 ∷ 0 ∷ 44 ∷ 1 ∷ 0 ∷ 0 ∷ 7 ∷ 0 ∷ 0 ∷ 0 ∷ 0 ∷ 0 ∷ 3 ∷ 0 ∷ []

locator_read : parse_long_value_ref locator_input 10 ≡ ok locator
unfolding parse_long_value_ref
locator_read = refl

abbrev header : BillHeaderRow
header = record { bill_master_record_number = 258; kind = ordinary }

abbrev header_input : List ℕ
header_input = 13 ∷ 0 ∷ 0x40 ∷ 2 ∷ 0xff ∷ 9 ∷ 9 ∷ 2 ∷ 1 ∷ 0 ∷ 0 ∷ 5 ∷ 6 ∷ []

parse_bill_header_iff_example : (parse_bill_header header_input ≡ ok header) ↔ (
    IsU16 13
    × IsU32 258
    × (header.bill_master_record_number ≢ 0)
    × ((x : ℕ) × (y : ℕ) × (rest : List ℕ) × (header_input ≡ header_bytes 13 header x y rest)))
parse_bill_header_iff_example = parse_bill_header_iff header_input header (ground arith)

abbrev line_input : List ℕ
line_input =
    48 ∷ 0 ∷ 0x40 ∷ 2 ∷ 0xe4 ∷ 0 ∷ 0 ∷ 0 ∷ 0 ∷ 0 ∷ 0 ∷ 0 ∷ 1 ∷ 0 ∷ 0 ∷ 0 ∷ 2 ∷ 0 ∷ 0 ∷ 0 ∷ 3 ∷ 0 ∷ 0
    ∷ 0 ∷ 4 ∷ 0 ∷ 0 ∷ 0 ∷ 9 ∷ 0 ∷ 0 ∷ 0 ∷ 0 ∷ 0 ∷ 0 ∷ 0 ∷ 2 ∷ 0xbf ∷ 34 ∷ 12 ∷ 7 ∷ 7 ∷ 7 ∷ 0 ∷ 0 ∷ 0
    ∷ 0 ∷ 0x81 ∷ []

abbrev line : BillLineRow
line = record {
  target_record_number = 1;
  master_record_number = 2;
  account_record_number = 3;
  date_raw = 4;
  view_type = 9;
  signed_cents = pos 1_234;
  canonical_zero_amount = false;
}

line_parsed : parse_bill_line line_input ≡ ok line
unfolding parse_bill_line
line_parsed = refl

parse_bill_line-IsBillLine_example : IsBillLine line_input line
parse_bill_line-IsBillLine_example = parse_bill_line-IsBillLine line_input line line_parsed

abbrev zeros : ℕ → List ℕ
zeros zero = []
zeros (suc n) = 0 ∷ zeros n

zeros-IsByte : (n : ℕ) → All IsByte (zeros n)
zeros-IsByte zero = tt
zeros-IsByte (suc n) = (omega arith, zeros-IsByte n)

abbrev carrier : Carrier
carrier = record { target_record_number = 5; master_record_number = 6; envelope_len = 185 }

abbrev companion_input : List ℕ
companion_input =
    185 ∷ 0 ∷ 0 ∷ 0x64 ∷ 0 ∷ 0 ∷ 0 ∷ 0 ∷ 0 ∷ 0 ∷ 0 ∷ 0 ∷ 5 ∷ 0 ∷ 0 ∷ 0 ∷ 6 ∷ 0 ∷ 0 ∷ 0 ∷ zeros 165

companion_parsed : parse_companion companion_input ≡ ok carrier
unfolding parse_companion
companion_parsed = refl

companion_input-IsByte : All IsByte companion_input
companion_input-IsByte = let later = zeros-IsByte 165 in ground arith

parse_companion_iff_example : (parse_companion companion_input ≡ ok carrier) ↔ (
    IsCarrier (length companion_input) carrier
    × ((gap : List ℕ) × (rest : List ℕ) × (length gap ≡ 8)
        × (companion_input ≡ carrier_bytes carrier gap rest)))
parse_companion_iff_example = parse_companion_iff companion_input carrier companion_input-IsByte

abbrev master_input : List ℕ
master_input =
    27 ∷ 0 ∷ 0x40 ∷ 2 ∷ 0 ∷ 0 ∷ 0 ∷ 0 ∷ 5 ∷ 0 ∷ 0 ∷ 0 ∷ 6 ∷ 0 ∷ 0 ∷ 0 ∷ 0 ∷ 0 ∷ 0 ∷ 0 ∷ 7 ∷ 0 ∷ 4
    ∷ 65 ∷ 66 ∷ 67 ∷ 68 ∷ []

abbrev master : MasterRow
master = record {
  declared_len = 27;
  flags = 0x40;
  kind = 2;
  master_record_number = 5;
  adjacent_record_number = 6;
  opaque_type = 7;
  opaque_token = some (65 ∷ 66 ∷ 67 ∷ 68 ∷ []);
  document_reference = none;
  void_memo_witness = none;
}

-- Texts of ASCII bytes.
abbrev is_ascii : List ℕ → Bool
is_ascii [] = true
is_ascii (b ∷ bytes) = ltb b 128 && is_ascii bytes

master_parsed : parse_master_row is_ascii master_input ≡ ok master
unfolding parse_master_row
master_parsed = refl

parse_master_row-IsMasterRow_example : IsMasterRow is_ascii master_input master
parse_master_row-IsMasterRow_example =
    parse_master_row-IsMasterRow is_ascii master_input master master_parsed

row_parsers-is_settled_example :
    (is_settled (parse_bill_header line_input) ≡ true)
    × (is_settled (parse_bill_line line_input) ≡ true)
    × (is_settled (parse_deposit line_input) ≡ true)
    × (is_settled (parse_counterpart line_input) ≡ true)
    × (is_settled (parse_companion line_input) ≡ true)
    × (is_settled (parse_master_row is_ascii line_input) ≡ true)
    × (is_settled (parse_long_value_ref line_input 10) ≡ true)
    × (is_settled (parse_cents line_input) ≡ true)
row_parsers-is_settled_example = row_parsers-is_settled is_ascii 10 line_input

abbrev deposit_input : List ℕ
deposit_input =
    54 ∷ 0 ∷ 0 ∷ 0xe1 ∷ 0 ∷ 0 ∷ 0 ∷ 0 ∷ 1 ∷ 0 ∷ 0 ∷ 0 ∷ 2 ∷ 0 ∷ 0 ∷ 0 ∷ 3 ∷ 0 ∷ 0 ∷ 0 ∷ 4 ∷ 0 ∷ 0
    ∷ 0 ∷ 5 ∷ 0 ∷ 6 ∷ 0 ∷ 0 ∷ 0 ∷ 7 ∷ 0 ∷ 0 ∷ 0 ∷ 0 ∷ 0 ∷ 0 ∷ 0 ∷ 0 ∷ 0 ∷ 0 ∷ 0 ∷ 0 ∷ 0 ∷ 0 ∷ 0 ∷ 0
    ∷ 0 ∷ 0 ∷ 0 ∷ 2 ∷ 0xbf ∷ 34 ∷ 12 ∷ []

abbrev deposit : DepositRow
deposit = record {
  target_record_number = 1;
  master_record_number = 2;
  account_record_number = 3;
  date_raw = 4;
  view_type = 5;
  next_target_record_number = some 6;
  source_account_record_number = 7;
  signed_cents = pos 1_234;
  canonical_zero_amount = false;
}

deposit_parsed : parse_deposit deposit_input ≡ ok deposit
unfolding parse_deposit
deposit_parsed = refl

parse_deposit-IsDeposit_example : IsDeposit deposit_input deposit
parse_deposit-IsDeposit_example = parse_deposit-IsDeposit deposit_input deposit deposit_parsed

abbrev counterpart_input : List ℕ
counterpart_input =
    43 ∷ 0 ∷ 0 ∷ 0xf0 ∷ 9 ∷ 9 ∷ 9 ∷ 9 ∷ 9 ∷ 9 ∷ 9 ∷ 9 ∷ 2 ∷ 0 ∷ 0 ∷ 0 ∷ 9 ∷ 9 ∷ 9 ∷ 9 ∷ 4 ∷ 0 ∷ 0
    ∷ 0 ∷ 9 ∷ 9 ∷ 9 ∷ 9 ∷ 9 ∷ 9 ∷ 3 ∷ 0 ∷ 0 ∷ 0 ∷ 2 ∷ 0x3f ∷ 34 ∷ 12 ∷ 9 ∷ 9 ∷ 9 ∷ 9 ∷ 9 ∷ []

abbrev counterpart : CounterpartRow
counterpart = record {
  master_record_number = 2;
  account_record_number = 3;
  date_raw = 4;
  kind = 0xf0;
  signed_cents = negsuc 1_233;
  canonical_zero_amount = false;
}

counterpart_parsed : parse_counterpart counterpart_input ≡ ok counterpart
unfolding parse_counterpart
counterpart_parsed = refl

parse_counterpart-IsCounterpart_example : IsCounterpart counterpart_input counterpart
parse_counterpart-IsCounterpart_example =
    parse_counterpart-IsCounterpart counterpart_input counterpart counterpart_parsed

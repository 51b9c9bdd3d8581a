-- ===== src/Drec.antt =====
-- crates/openqbw/src/cindex_drec.rs: the sparse `drec` record bodies, their descriptors and values.
pub mod Schema
pub mod Parse
pub mod Encode
pub mod Words
pub mod Values
pub mod Readings
pub mod Places
pub mod Steps
pub mod Written
pub mod Forward
pub mod Backward
pub mod Termination
pub mod Defaults
use openqbw.Base.{
  ℕ, zero, suc, ◌+◌, ◌≡◌, Bool, true, false, not, ◌&&◌, ◌||◌, List, [], ◌∷◌, Option, none, some,
  Outcome, ok, err, length, leb, ◌==◌, if◌then◌else◌,
}
use openqbw.Base.Bytes.{u16_from_be, u32_from_be, byte0, byte1, byte2, byte3}
use openqbw.Base.Map.{Map}
use openqbw.Balance.{LegacyBalance, BalanceError}

abbrev pub drec_max_len : ℕ
drec_max_len = 0x7530

abbrev pub u16_max : ℕ
u16_max = 0xffff

pub data DrecByteOrder : Type 0 where
  little big : DrecByteOrder

-- `DrecByteOrder::read_u16`, `read_u32`, `write_u16` and `write_u32`
unfoldable pub read_u16 : DrecByteOrder → ℕ → ℕ → ℕ
unfolding u16_from_be
read_u16 little a b = u16_from_be b a
read_u16 big a b = u16_from_be a b

unfoldable pub read_u32 : DrecByteOrder → ℕ → ℕ → ℕ → ℕ → ℕ
unfolding u32_from_be
read_u32 little a b c d = u32_from_be d c b a
read_u32 big a b c d = u32_from_be a b c d

unfoldable pub write_u16 : DrecByteOrder → ℕ → List ℕ
write_u16 little v = byte0 v ∷ byte1 v ∷ []
write_u16 big v = byte1 v ∷ byte0 v ∷ []

unfoldable pub write_u32 : DrecByteOrder → ℕ → List ℕ
write_u32 little v = byte0 v ∷ byte1 v ∷ byte2 v ∷ byte3 v ∷ []
write_u32 big v = byte3 v ∷ byte2 v ∷ byte1 v ∷ byte0 v ∷ []

pub data DrecClass : Type 0 where
  end string bytes f i l h u legacy_balance z pointer_sized_d : DrecClass

pub data DrecValue : Type 0 where
  string bytes z : List ℕ → DrecValue
  u32 u16 : ℕ → DrecValue
  legacy_balance : LegacyBalance → DrecValue

pub record DrecDescriptor : Type 0 where
  pub kind : DrecClass
  pub length : ℕ
  pub default : Option DrecValue

pub record DrecSchema : Type 0 where
  pub fields : List DrecDescriptor

-- A range `start..end`.
pub record ByteRange : Type 0 where
  pub start : ℕ
  pub stop : ℕ

pub record DrecField : Type 0 where
  pub ordinal : ℕ
  pub value : DrecValue
  pub byte_range : ByteRange
  pub payload_range : ByteRange

pub record DrecRecord : Type 0 where
  pub flag : ℕ
  pub fields : Map ℕ DrecField

pub data DrecError : Type 0 where
  unknown_class early_descriptor_terminator pointer_sized_field_unsupported schema_too_large
        duplicate_ordinal :
      ℕ → DrecError
  missing_descriptor_terminator invalid_end_descriptor unexpected_end_descriptor length_overflow :
      DrecError
  invalid_descriptor_length : ℕ → DrecClass → ℕ → DrecError
  truncated : ℕ → ℕ → ℕ → DrecError
  record_too_large ordinal_out_of_range non_increasing_ordinal field_ordinal_mismatch
        unterminated_string trailing_bytes :
      ℕ → ℕ → DrecError
  value_does_not_match_descriptor : DrecClass → ℕ → DrecError
  invalid_legacy_balance : BalanceError → DrecError

-- `Result<A, DrecError>`
abbrev pub Drec {ℓ} : Type ℓ → Type ℓ
Drec A = Outcome DrecError A

-- `!value.contains(&0)`
unfoldable pub has_no_nul : List ℕ → Bool
has_no_nul [] = true
has_no_nul (b ∷ rest) = not (b == 0) && has_no_nul rest

-- The match in `ensure_value_matches`.
unfoldable pub value_matches : DrecClass → ℕ → DrecValue → Bool
unfolding has_no_nul
value_matches DrecClass.string len (DrecValue.string v) = leb (suc (length v)) len && has_no_nul v
value_matches DrecClass.bytes len (DrecValue.bytes v) = length v == len
value_matches DrecClass.f len (DrecValue.u32 v) = true
value_matches DrecClass.i len (DrecValue.u32 v) = true
value_matches DrecClass.l len (DrecValue.u32 v) = true
value_matches DrecClass.h len (DrecValue.u16 v) = true
value_matches DrecClass.u len (DrecValue.u16 v) = true
value_matches DrecClass.legacy_balance len (DrecValue.legacy_balance v) = true
value_matches DrecClass.z len (DrecValue.z v) = true
value_matches _ len _ = false

unfoldable pub ensure_value_matches : DrecDescriptor → DrecValue → Drec (Unit {0})
unfolding value_matches
ensure_value_matches d v =
    if value_matches d.kind d.length v
    then ok tt
    else err (value_does_not_match_descriptor d.kind d.length)

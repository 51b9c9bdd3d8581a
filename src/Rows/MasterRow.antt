-- ===== src/Rows/MasterRow.antt =====
-- crates/openqbw/src/materialized_transaction_master.rs: transaction-master rows. A text is its UTF-8
-- bytes; whether bytes are UTF-8 is told by the parameter `is_utf8` (`str::from_utf8` of the standard
-- library).
pub mod Framed
use openqbw.Base.{
  ℕ, zero, suc, ◌+◌, ◌≡◌, ◌≢◌, ◌≤◌, ◌<◌, refl, Bool, true, false, not, ◌&&◌, ◌⊎◌, inl, inr, List,
  [], ◌∷◌, ◌++◌, Option, none, some, Outcome, ok, err, ◌>>=◌, >>=-eq-ok, is_settled, is_settled->>=,
  length, take, drop, get_elem?, length-take, length-drop, leb, ltb, ◌==◌, if◌then◌else◌, arith,
  Bool-cases, Option-cases, List-cases,
}
use openqbw.Rows.{byte_at, u16_at, u32_at, slice, is_settled-guard, guard-eq-ok}

abbrev pub master_flags : ℕ
master_flags = 0x40

abbrev pub master_kind : ℕ
master_kind = 0x02

abbrev pub fixed_header_len : ℕ
fixed_header_len = 0x16

abbrev pub opaque_token_offset : ℕ
opaque_token_offset = 0x16

abbrev pub document_reference_offset : ℕ
document_reference_offset = 0x37

abbrev pub void_memo_witness_offset : ℕ
void_memo_witness_offset = 0x83

pub record MasterRow : Type 0 where
  pub declared_len : ℕ
  pub flags : ℕ
  pub kind : ℕ
  pub master_record_number : ℕ
  pub adjacent_record_number : ℕ
  pub opaque_type : ℕ
  pub opaque_token : Option (List ℕ)
  pub document_reference : Option (List ℕ)
  pub void_memo_witness : Option (List ℕ)

-- The labels of the length-prefixed fields.
pub data FieldLabel : Type 0 where
  opaque_token document_reference : FieldLabel

pub data MasterRowError : Type 0 where
  too_short declared_length_mismatch : ℕ → ℕ → MasterRowError
  unexpected_flags unexpected_kind : ℕ → MasterRowError
  length_prefixed_field_out_of_bounds : FieldLabel → ℕ → ℕ → ℕ → MasterRowError
  document_reference_not_utf8 : MasterRowError

abbrev nonempty : List ℕ → Option (List ℕ)
nonempty [] = none
nonempty (b ∷ bytes) = some (b ∷ bytes)

unfoldable pub parse_optional_bytes :
    List ℕ → ℕ → FieldLabel → Outcome MasterRowError (Option (List ℕ))
unfolding slice
parse_optional_bytes input offset label = elim (get_elem? input offset) [
  | none ↦ ok none
  | some len ↦ elim (slice input (offset + 1) len) [
    | none ↦ err (length_prefixed_field_out_of_bounds label offset len (length input))
    | some bytes ↦ ok (nonempty bytes)
  ]
]

unfoldable pub parse_optional_bytes_if_bounded : List ℕ → ℕ → Option (List ℕ)
unfolding slice
parse_optional_bytes_if_bounded input offset = elim (get_elem? input offset) [
  | none ↦ none
  | some len ↦ elim (slice input (offset + 1) len) [ none ↦ none | some bytes ↦ nonempty bytes ]
]

-- `value.starts_with("VOID: ")`
unfoldable pub starts_with_void : List ℕ → Bool
starts_with_void (v ∷ o ∷ i ∷ d ∷ colon ∷ space ∷ rest) =
    (v == 86) && (o == 79) && (i == 73) && (d == 68) && (colon == 58) && (space == 32)
starts_with_void _ = false

module _ (is_utf8 : List ℕ → Bool) where
  unfoldable pub check_reference : Option (List ℕ) → Outcome MasterRowError (Option (List ℕ))
  check_reference none = ok none
  check_reference (some bytes) =
      if is_utf8 bytes then ok (some bytes) else err document_reference_not_utf8

  unfoldable pub void_memo : Option (List ℕ) → Option (List ℕ)
  unfolding starts_with_void
  void_memo none = none
  void_memo (some bytes) = if is_utf8 bytes && starts_with_void bytes then some bytes else none

  -- The fields behind the checked header.
  unfoldable pub parse_master_fields : List ℕ → ℕ → ℕ → ℕ → Outcome MasterRowError MasterRow
  unfolding u16_at u32_at parse_optional_bytes parse_optional_bytes_if_bounded check_reference
      void_memo
  parse_master_fields input declared flags kind = do
    token ← parse_optional_bytes input opaque_token_offset FieldLabel.opaque_token
    reference_bytes ←
        parse_optional_bytes input document_reference_offset FieldLabel.document_reference
    reference ← check_reference reference_bytes
    master ← u32_at input 8
    adjacent ← u32_at input 12
    opaque_type ← u16_at input 20
    ok (record {
      declared_len = declared;
      flags = flags;
      kind = kind;
      master_record_number = master;
      adjacent_record_number = adjacent;
      opaque_type = opaque_type;
      opaque_token = token;
      document_reference = reference;
      void_memo_witness =
          void_memo (parse_optional_bytes_if_bounded input void_memo_witness_offset);
    })

  unfoldable pub parse_master_row : List ℕ → Outcome MasterRowError MasterRow
  unfolding byte_at u16_at parse_master_fields
  parse_master_row input =
      if ltb (length input) fixed_header_len
      then err (too_short (length input) fixed_header_len)
      else do
        declared ← u16_at input 0
        if not (declared == length input)
            then err (declared_length_mismatch declared (length input))
            else do
              flags ← byte_at input 2
              if not (flags == master_flags) then err (unexpected_flags flags) else do
                kind ← byte_at input 3
                if not (kind == master_kind)
                    then err (unexpected_kind kind)
                    else parse_master_fields input declared flags kind

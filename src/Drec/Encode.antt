-- ===== src/Drec/Encode.antt =====
-- `encode_drec`, and the records of `DrecRecord::new` and `materialize_schema_defaults`.
use openqbw.Base.{
  ℕ, suc, ◌+◌, not, List, [], ◌∷◌, ◌++◌, none, some, ok, err, ◌>>=◌, ◌>>◌, length, ltb, ◌==◌,
  if◌then◌else◌,
}
use openqbw.Base.Order.{nat_ord}
use openqbw.Base.Map.{Map, get, insert, contains_key}
use openqbw.Balance.{BalanceBytes, balance_to_disk_bytes}
use openqbw.Drec.{
  drec_max_len, u16_max, DrecByteOrder, write_u16, write_u32, DrecValue, DrecDescriptor, DrecSchema,
  DrecField, DrecRecord, Drec, ordinal_out_of_range, record_too_large, field_ordinal_mismatch,
  duplicate_ordinal, ensure_value_matches,
}
use openqbw.Drec.Schema.{field, field_count}

-- A field with the empty ranges of one that was not read from bytes.
abbrev pub unplaced : ℕ → DrecValue → DrecField
unplaced ordinal value = record {
  ordinal = ordinal;
  value = value;
  byte_range = record { start = 0; stop = 0 };
  payload_range = record { start = 0; stop = 0 };
}

-- The loop of `DrecRecord::new`.
unfoldable pub collect_fields : Map ℕ DrecField → List (ℕ × DrecValue) → Drec (Map ℕ DrecField)
unfolding get insert
collect_fields parsed [] = ok parsed
collect_fields parsed ((ordinal, value) ∷ rest) =
    if contains_key ordinal parsed
    then err (duplicate_ordinal ordinal)
    else collect_fields (insert ordinal (unplaced ordinal value) parsed) rest

-- `DrecRecord::new`
unfoldable pub new_record : ℕ → List (ℕ × DrecValue) → Drec DrecRecord
unfolding collect_fields
new_record flag fields = do
  parsed ← collect_fields [] fields
  ok (record { flag = flag; fields = parsed })

-- The loop of `materialize_schema_defaults`, from the descriptor with this ordinal on.
unfoldable pub add_defaults : ℕ → List DrecDescriptor → Map ℕ DrecField → Map ℕ DrecField
unfolding get insert
add_defaults ordinal [] fields = fields
add_defaults ordinal (d ∷ rest) fields = add_defaults (suc ordinal) rest (
    if contains_key ordinal fields
    then fields
    else elim d.default [ none ↦ fields | some v ↦ insert ordinal (unplaced ordinal v) fields ])

unfoldable pub materialize_schema_defaults : DrecRecord → DrecSchema → DrecRecord
unfolding add_defaults
materialize_schema_defaults r schema = record r { fields = add_defaults 0 schema.fields r.fields }

unfoldable pub value_encoded_len : DrecValue → ℕ
value_encoded_len (DrecValue.string v) = length v + 1
value_encoded_len (DrecValue.bytes v) = length v
value_encoded_len (DrecValue.u32 v) = 4
value_encoded_len (DrecValue.u16 v) = 2
value_encoded_len (DrecValue.legacy_balance v) = 6
value_encoded_len (DrecValue.z v) = 9

abbrev pub balance_list : BalanceBytes → List ℕ
balance_list six = six.b0 ∷ six.b1 ∷ six.b2 ∷ six.b3 ∷ six.b4 ∷ six.b5 ∷ []

-- What `encode_value` appends.
unfoldable pub value_bytes : DrecByteOrder → DrecValue → List ℕ
unfolding write_u16 write_u32 balance_to_disk_bytes
value_bytes order (DrecValue.string v) = v ++ 0 ∷ []
value_bytes order (DrecValue.bytes v) = v
value_bytes order (DrecValue.u32 v) = write_u32 order v
value_bytes order (DrecValue.u16 v) = write_u16 order v
value_bytes order (DrecValue.legacy_balance v) = balance_list (balance_to_disk_bytes v)
value_bytes order (DrecValue.z v) = v

unfoldable pub encode_value : DrecDescriptor → DrecValue → DrecByteOrder → Drec (List ℕ)
unfolding ensure_value_matches value_bytes
encode_value d v order = ensure_value_matches d v >> ok (value_bytes order v)

-- The first loop of `encode_drec`: the checks and the length, which stays far below 2^64.
unfoldable pub encoded_length : DrecSchema → ℕ → Map ℕ DrecField → Drec ℕ
unfolding ensure_value_matches value_encoded_len
encoded_length schema len [] = ok len
encoded_length schema len ((ordinal, f) ∷ rest) = elim (field schema ordinal) [
  | none ↦ err (ordinal_out_of_range ordinal (field_count schema))
  | some d ↦
      ensure_value_matches d f.value
      >> (let longer = len + 2 + value_encoded_len f.value in
          if ltb drec_max_len longer
          then err (record_too_large longer drec_max_len)
          else encoded_length schema longer rest)
]

-- The second loop: what it appends to the output.
unfoldable pub encode_fields : DrecSchema → DrecByteOrder → Map ℕ DrecField → Drec (List ℕ)
unfolding encode_value write_u16
encode_fields schema order [] = ok []
encode_fields schema order ((ordinal, f) ∷ rest) =
    let later = encode_fields schema order rest in
    if not (f.ordinal == ordinal)
    then err (field_ordinal_mismatch ordinal f.ordinal)
    else elim (field schema ordinal) [
      | none ↦ err (ordinal_out_of_range ordinal (field_count schema))
      | some d ↦ do
        value ← encode_value d f.value order
        bytes ← later
        ok (write_u16 order ordinal ++ (value ++ bytes))
    ]

unfoldable pub encode_drec : DrecRecord → DrecSchema → DrecByteOrder → Drec (List ℕ)
unfolding encoded_length encode_fields write_u16
encode_drec r schema order = do
  _ ← encoded_length schema 3 r.fields
  bytes ← encode_fields schema order r.fields
  ok (r.flag ∷ (bytes ++ write_u16 order u16_max))

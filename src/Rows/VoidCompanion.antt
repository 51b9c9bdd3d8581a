-- ===== src/Rows/VoidCompanion.antt =====
-- crates/openqbw/src/materialized_check_void_companion.rs: the companions of voided checks.
use openqbw.Base.{
  ℕ, ◌≡◌, ◌≢◌, ◌↔◌, refl, Bool, true, not, ◌||◌, List, [], ◌∷◌, ◌++◌, Outcome, ok, err, ◌>>=◌,
  is_settled, length, ◌==◌, if◌then◌else◌, arith, All,
}
use openqbw.Base.Bytes.{IsByte, IsU32}
use openqbw.Rows.{byte_at, u16_at, u32_at, le16, le32}

abbrev pub companion_len : ℕ
companion_len = 185

abbrev pub companion_long_len : ℕ
companion_long_len = 212

abbrev pub companion_extended_len : ℕ
companion_extended_len = 220

abbrev pub companion_variable_219_len : ℕ
companion_variable_219_len = 219

abbrev pub companion_variable_222_len : ℕ
companion_variable_222_len = 222

abbrev pub companion_variable_223_len : ℕ
companion_variable_223_len = 223

abbrev pub companion_flags : ℕ
companion_flags = 0

abbrev pub companion_kind : ℕ
companion_kind = 0x64

pub record Carrier : Type 0 where
  pub target_record_number : ℕ
  pub master_record_number : ℕ
  pub envelope_len : ℕ

pub record MasterEvidence : Type 0 where
  pub canonical_zero_e4_row_count : ℕ
  pub nonzero_posting_row_count : ℕ

pub data Classification : Type 0 where
  void_companion_carrier : Classification

pub data CompanionError : Type 0 where
  length_mismatch declared_length_mismatch unexpected_flags unexpected_kind : ℕ → CompanionError
  zero_required_record_id : CompanionError
  canonical_zero_row_count_mismatch nonzero_postings_present : ℕ → CompanionError

-- The lengths of the observed envelopes.
abbrev pub is_envelope_len : ℕ → Bool
is_envelope_len n =
    (n == companion_len)
    || (n == companion_long_len)
    || (n == companion_extended_len)
    || (n == companion_variable_219_len)
    || (n == companion_variable_222_len)
    || (n == companion_variable_223_len)

unfoldable pub parse_companion : List ℕ → Outcome CompanionError Carrier
unfolding byte_at u16_at u32_at
parse_companion input =
    if not (is_envelope_len (length input)) then err (length_mismatch (length input)) else do
      declared ← u16_at input 0
      if not (declared == length input) then err (declared_length_mismatch declared) else do
        flags ← byte_at input 2
        if not (flags == companion_flags) then err (unexpected_flags flags) else do
          kind ← byte_at input 3
          if not (kind == companion_kind) then err (unexpected_kind kind) else do
            target ← u32_at input 12
            master ← u32_at input 16
            if (target == 0) || (master == 0)
                then err zero_required_record_id
                else ok (record {
                  target_record_number = target;
                  master_record_number = master;
                  envelope_len = length input;
                })

unfoldable pub is_long_envelope : Carrier → Bool
is_long_envelope c = not (c.envelope_len == companion_len)

-- `classify_materialized_check_void_companion`
unfoldable pub classify : Carrier → MasterEvidence → Outcome CompanionError Classification
classify carrier evidence =
    if not (evidence.canonical_zero_e4_row_count == 2)
    then err (canonical_zero_row_count_mismatch evidence.canonical_zero_e4_row_count)
    else if not (evidence.nonzero_posting_row_count == 0)
    then err (nonzero_postings_present evidence.nonzero_posting_row_count)
    else ok void_companion_carrier

-- The bytes of a carrier: its length, the fixed bytes, eight bytes, and the two numbers.
abbrev pub carrier_bytes : Carrier → List ℕ → List ℕ → List ℕ
carrier_bytes c gap rest =
    le16 c.envelope_len
    ++ (0 ∷ 0x64 ∷ [])
    ++ gap
    ++ le32 c.target_record_number
    ++ le32 c.master_record_number
    ++ rest

-- A carrier that the parser promises, of an input of `len` bytes.
pub record IsCarrier (len : ℕ) (c : Carrier) : Type 0 where
  pub envelope : is_envelope_len len ≡ true
  pub whole : c.envelope_len ≡ len
  pub target : IsU32 c.target_record_number
  pub master : IsU32 c.master_record_number
  pub some_target : c.target_record_number ≢ 0
  pub some_master : c.master_record_number ≢ 0

carrier_parsed :
    (c : Carrier) (gap rest : List ℕ)
    → length gap ≡ 8
    → IsCarrier (length (carrier_bytes c gap rest)) c
    → parse_companion (carrier_bytes c gap rest) ≡ ok c
unfolding parse_companion
carrier_parsed c (g0 ∷ g1 ∷ g2 ∷ g3 ∷ g4 ∷ g5 ∷ g6 ∷ g7 ∷ []) rest eight v =
    ground (arith, v.envelope)
carrier_parsed c gap rest eight v = absurd (omega arith)

input_parsed :
    (input : List ℕ) (c : Carrier) (gap rest : List ℕ)
    → length gap ≡ 8
    → input ≡ carrier_bytes c gap rest
    → IsCarrier (length input) c
    → parse_companion input ≡ ok c
input_parsed input c gap rest eight same v =
    rw same (carrier_parsed c gap rest eight (rw same at v))

-- Bytes parse as a companion exactly when they have one of the observed lengths and begin with that
-- length, the flags and the kind, and, behind eight bytes, with two record numbers other than zero.
pub parse_companion_iff :
    (input : List ℕ) (c : Carrier)
    → All IsByte input
    → (parse_companion input ≡ ok c) ↔ (
        IsCarrier (length input) c
        × ((gap : List ℕ) × (rest : List ℕ) × (length gap ≡ 8)
            × (input ≡ carrier_bytes c gap rest)))
unfolding parse_companion
parse_companion_iff
      (b0 ∷ b1 ∷ b2 ∷ b3 ∷ g0 ∷ g1 ∷ g2 ∷ g3 ∷ g4 ∷ g5 ∷ g6 ∷ g7 ∷ t0 ∷ t1 ∷ t2 ∷ t3 ∷ m0 ∷ m1 ∷ m2
        ∷ m3 ∷ rest)
      c h =
    (
      λ e. (ground arith, (g0 ∷ g1 ∷ g2 ∷ g3 ∷ g4 ∷ g5 ∷ g6 ∷ g7 ∷ [], rest, refl, ground arith)),
      λ (v, (gap, rest', eight, same)). input_parsed _ c gap rest' eight same v,
    )
parse_companion_iff input c h = (λ e. cc, λ e. absurd (ground (arith, e.0.envelope)))

-- The same for panics: no input makes the parser panic.
pub parse_companion-is_settled : (input : List ℕ) → is_settled (parse_companion input) ≡ true
unfolding parse_companion
parse_companion-is_settled
      (b0 ∷ b1 ∷ b2 ∷ b3 ∷ g0 ∷ g1 ∷ g2 ∷ g3 ∷ g4 ∷ g5 ∷ g6 ∷ g7 ∷ t0 ∷ t1 ∷ t2 ∷ t3 ∷ m0 ∷ m1 ∷ m2
        ∷ m3 ∷ rest) =
    ground arith
parse_companion-is_settled input = ground arith

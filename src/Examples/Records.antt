-- ===== src/Examples/Records.antt =====
-- A directory record in both directions.
use openqbw.Base.{◌≡◌, ◌<◌, refl, arith, true, some, ok, List, [], ◌∷◌, All, is_settled, ℕ}
use openqbw.Balance.{LegacyBalance}
use openqbw.Balance.RoundTrip.{IsBalance}
use openqbw.Drec.{little, DrecClass, DrecValue, DrecSchema, DrecRecord}
use openqbw.Drec.Schema.{new_descriptor, with_default, end_descriptor, new_schema}
use openqbw.Drec.Parse.{parse_drec}
use openqbw.Base.Map.{get}
use openqbw.Base.Order.{nat_ord}
use openqbw.Drec.Defaults.{get-materialize_schema_defaults}
use openqbw.Drec.Encode.{materialize_schema_defaults, encode_drec, unplaced}
use openqbw.Drec.Places.{placed}
use openqbw.Drec.Forward.{IsAddressable, parse_drec-encode_drec}
use openqbw.Drec.Backward.{encode_drec-parse_drec}
use openqbw.Drec.Termination.{parse_drec-is_settled}

abbrev schema : DrecSchema
schema = record {
  fields =
      new_descriptor DrecClass.string 8
      ∷ new_descriptor DrecClass.h 2
      ∷ new_descriptor DrecClass.legacy_balance 6
      ∷ new_descriptor DrecClass.i 4
      ∷ [];
}

schema_made :
    new_schema (
      new_descriptor DrecClass.string 8
      ∷ new_descriptor DrecClass.h 2
      ∷ new_descriptor DrecClass.legacy_balance 6
      ∷ new_descriptor DrecClass.i 4
      ∷ end_descriptor
      ∷ [])
    ≡ ok schema
unfolding new_schema new_descriptor end_descriptor
schema_made = refl

-- The same schema, with a default for its second field.
abbrev with_count : DrecSchema
with_count = record {
  fields =
      new_descriptor DrecClass.string 8
      ∷ with_default (new_descriptor DrecClass.h 2) (DrecValue.u16 5)
      ∷ [];
}

abbrev owed : LegacyBalance
owed = record { fraction = 7; flags = record { raw = 2 }; dollars = 300 }

abbrev entry : DrecRecord
entry = record {
  flag = 1;
  fields =
      (0, unplaced 0 (DrecValue.string (65 ∷ 66 ∷ [])))
      ∷ (2, unplaced 2 (DrecValue.legacy_balance owed))
      ∷ (3, unplaced 3 (DrecValue.u32 258))
      ∷ [];
}

abbrev entry_bytes : List ℕ
entry_bytes =
    1 ∷ 0 ∷ 0 ∷ 65 ∷ 66 ∷ 0 ∷ 2 ∷ 0 ∷ 7 ∷ 2 ∷ 0 ∷ 0 ∷ 1 ∷ 44 ∷ 3 ∷ 0 ∷ 2 ∷ 1 ∷ 0 ∷ 0 ∷ 255 ∷ 255
    ∷ []

entry_encoded : encode_drec entry schema little ≡ ok entry_bytes
unfolding encode_drec new_descriptor
entry_encoded = refl

schema-IsAddressable : IsAddressable schema
unfolding new_descriptor
schema-IsAddressable = record {
  few = omega arith;
  short = (omega arith, (omega arith, (omega arith, (omega arith, tt))));
}

owed-IsBalance : IsBalance owed
owed-IsBalance = record { known = refl; cents = λ e. omega arith; width = omega arith }

parse_drec-encode_drec_example :
    parse_drec entry_bytes schema little ≡ ok (record { flag = 1; fields = placed 1 entry.fields })
parse_drec-encode_drec_example =
    parse_drec-encode_drec entry schema little entry_bytes schema-IsAddressable
      (refl, (refl, (tt, tt))) (tt, (owed-IsBalance, (omega arith, tt))) entry_encoded

abbrev read_entry : DrecRecord
read_entry = record { flag = 1; fields = placed 1 entry.fields }

entry_bytes-IsByte : All (λ b. b < 256) entry_bytes
entry_bytes-IsByte = ground arith

encode_drec-parse_drec_example : encode_drec read_entry schema little ≡ ok entry_bytes
encode_drec-parse_drec_example =
    encode_drec-parse_drec entry_bytes schema little read_entry entry_bytes-IsByte
      parse_drec-encode_drec_example

parse_drec-is_settled_example : is_settled (parse_drec entry_bytes schema little) ≡ true
parse_drec-is_settled_example = parse_drec-is_settled entry_bytes schema little entry_bytes-IsByte

get-materialize_schema_defaults_example :
    get 1 (materialize_schema_defaults entry with_count).fields
    ≡ some (unplaced 1 (DrecValue.u16 5))
unfolding new_descriptor with_default get
get-materialize_schema_defaults_example = get-materialize_schema_defaults entry with_count 1

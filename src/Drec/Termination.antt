-- ===== src/Drec/Termination.antt =====
-- `parse_drec` ends on every input.
use openqbw.Base.{
  ℕ, zero, suc, ◌≡◌, ◌<◌, refl, ap, List, [], ◌∷◌, Option, none, some, ok, arith, All, length,
  length-append, true, ◌==◌, ltb, inl, inr, Bool-cases, Option-cases,
}
use openqbw.Base.Order.{nat_ord}
use openqbw.Base.Map.{Map, insert, contains_key}
use openqbw.Base.Bytes.{IsByte}
use openqbw.Drec.{
  drec_max_len, u16_max, DrecByteOrder, DrecValue, DrecDescriptor, DrecSchema, DrecField,
  DrecRecord, Drec, write_u16, read_u16,
}
use openqbw.Drec.Schema.{field}
use openqbw.Drec.Parse.{Input, take_2, not_after, parse_value, parse_fields, parse_drec}
use openqbw.Drec.Encode.{value_bytes}
use openqbw.Drec.Words.{input_at}
use openqbw.Drec.Steps.{read_field}
use openqbw.Drec.Written.{length-write_u16}
use openqbw.Drec.Readings.{parse_value-IsRead}
use openqbw.Drec.Words.{take_2_inv}
use openqbw.Base.{List-cases, is_settled, is_settled->>=, is_settled-map_err, map_err, ltb}
use openqbw.Balance.{BalanceBytes, balance_from_disk_bytes, flags_from_raw}
use openqbw.Drec.{DrecClass, invalid_legacy_balance, read_u32}
use openqbw.Drec.Parse.{parse_field, take_slice, take_4, take_6, parse_string}
use openqbw.Drec.Values.{descriptor}
use openqbw.Drec.Steps.{body, read_field}

balance-is_settled : (six : BalanceBytes) → is_settled (balance_from_disk_bytes six) ≡ true
unfolding balance_from_disk_bytes flags_from_raw
balance-is_settled six = ground arith

take_slice-is_settled : (input : Input) (n : ℕ) → is_settled (take_slice input n) ≡ true
unfolding take_slice
take_slice-is_settled input n = ground arith

take_2-is_settled : (read : ℕ → ℕ → ℕ) (input : Input) → is_settled (take_2 read input) ≡ true
unfolding take_2
take_2-is_settled read input = ground arith

take_4-is_settled :
    (read : ℕ → ℕ → ℕ → ℕ → ℕ) (input : Input) → is_settled (take_4 read input) ≡ true
unfolding take_4
take_4-is_settled read input = ground arith

take_6-is_settled : (input : Input) → is_settled (take_6 input) ≡ true
unfolding take_6
take_6-is_settled input = ground arith

string-is_settled : (input : Input) (n : ℕ) → is_settled (parse_string input n) ≡ true
unfolding parse_string
string-is_settled input n = ground arith

value-is_settled :
    (input : Input) (order : DrecByteOrder) (default : Option DrecValue) (kind : DrecClass)
    (len : ℕ)
    → is_settled (parse_value input (descriptor kind len default) order) ≡ true
unfolding parse_value
value-is_settled input order default DrecClass.string len = string-is_settled input len
value-is_settled input order default DrecClass.bytes len =
    is_settled->>= (take_slice input len) _ (take_slice-is_settled input len) (λ a e. refl)
value-is_settled input order default DrecClass.f len =
    is_settled->>= (take_4 (read_u32 order) input) _ (take_4-is_settled (read_u32 order) input)
      (λ a e. refl)
value-is_settled input order default DrecClass.i len =
    is_settled->>= (take_4 (read_u32 order) input) _ (take_4-is_settled (read_u32 order) input)
      (λ a e. refl)
value-is_settled input order default DrecClass.l len =
    is_settled->>= (take_4 (read_u32 order) input) _ (take_4-is_settled (read_u32 order) input)
      (λ a e. refl)
value-is_settled input order default DrecClass.h len =
    is_settled->>= (take_2 (read_u16 order) input) _ (take_2-is_settled (read_u16 order) input)
      (λ a e. refl)
value-is_settled input order default DrecClass.u len =
    is_settled->>= (take_2 (read_u16 order) input) _ (take_2-is_settled (read_u16 order) input)
      (λ a e. refl)
value-is_settled input order default DrecClass.legacy_balance len =
    is_settled->>= (take_6 input) _ (take_6-is_settled input) (λ six e.
      is_settled->>= (map_err invalid_legacy_balance (balance_from_disk_bytes six.0)) _
        (is_settled-map_err invalid_legacy_balance (balance_from_disk_bytes six.0)
          (balance-is_settled six.0))
        (λ b e'. refl))
value-is_settled input order default DrecClass.z len =
    is_settled->>= (take_slice input 9) _ (take_slice-is_settled input 9) (λ a e. refl)
value-is_settled input order default DrecClass.end len = refl
value-is_settled input order default DrecClass.pointer_sized_d len = refl

-- A round of the loop ends if the round behind the value that it reads does.
body-is_settled :
    (schema : DrecSchema) (order : DrecByteOrder) (flag : ℕ) (previous : Option ℕ)
    (fields : Map ℕ DrecField) (start ordinal : ℕ) (at_value : Input)
    (again : Option ℕ → Map ℕ DrecField → Input → Drec DrecRecord)
    → ((d : DrecDescriptor) (r : DrecValue × Input)
        → parse_value at_value d order ≡ ok r
        → (last : Option ℕ) (read : Map ℕ DrecField) → is_settled (again last read r.1) ≡ true)
    → is_settled (body schema order flag previous fields start ordinal at_value again) ≡ true
unfolding parse_field
body-is_settled schema order flag previous fields start ordinal at_value again next =
    elim (Bool-cases (ordinal == u16_max)) [
      | inl last ↦ elim (List-cases at_value.rest) [
        | inl nothing ↦ rw (last, parse_field) (rw nothing refl)
        | inr (b, more, left) ↦ rw (last, parse_field) (rw left refl)
      ]
      | inr more ↦ elim (Option-cases (not_after previous ordinal)) [
        | inr (p, early) ↦ rw (more, parse_field) (rw early refl)
        | inl after ↦ elim (Option-cases (field schema ordinal)) [
          | inl unknown ↦ rw (more, parse_field) (rw after (rw unknown refl))
          | inr (d, known) ↦ elim (Bool-cases (contains_key ordinal fields)) [
            | inl twice ↦ rw (more, parse_field) (rw after (rw known (rw twice refl)))
            | inr fresh ↦
                rw (more, parse_field)
                  (rw after (
                    rw known (
                      rw fresh (
                        is_settled->>= (parse_value at_value d order) _
                          (value-is_settled at_value order d.default d.kind d.length)
                          (λ r e.
                            next d r e (some ordinal)
                              (insert ordinal (read_field start ordinal at_value r) fields))))))
          ]
        ]
      ]
    ]

fields-is_settled :
    (fuel : ℕ) (schema : DrecSchema) (order : DrecByteOrder) (flag : ℕ) (previous : Option ℕ)
    (acc : Map ℕ DrecField) (input : Input)
    → All IsByte input.rest
    → length input.rest < fuel
    → is_settled (parse_fields fuel schema order flag previous acc input) ≡ true
unfolding parse_fields
fields-is_settled zero schema order flag previous acc input h enough = absurd (omega arith)
fields-is_settled (suc fuel) schema order flag previous acc input h enough =
    is_settled->>= (take_2 (read_u16 order) input) _ (take_2-is_settled (read_u16 order) input)
      (λ x read.
        let (word, split, moved, left) = take_2_inv order input.cursor input.rest x h read in
        body-is_settled schema order flag previous acc input.cursor x.0 x.1
          (λ last so_far rest. parse_fields fuel schema order flag last so_far rest)
          (λ d r value last so_far.
            let v = parse_value-IsRead order x.1.cursor x.1.rest left d r value in
            fields-is_settled fuel schema order flag last so_far r.1 v.left (
              omega (
                arith,
                enough,
                ap length split,
                ap length v.written,
                length-append (write_u16 order x.0) x.1.rest,
                length-append (value_bytes order r.0) r.1.rest,
                length-write_u16 order x.0,
              ))))

-- On bytes, `parse_drec` ends, without a panic, with a record or an error: no input uses up the fuel
-- of its loop.
pub parse_drec-is_settled :
    (bytes : List ℕ) (schema : DrecSchema) (order : DrecByteOrder)
    → All IsByte bytes
    → is_settled (parse_drec bytes schema order) ≡ true
unfolding parse_drec
parse_drec-is_settled [] schema order h = refl
parse_drec-is_settled (flag ∷ rest) schema order h =
    elim (Bool-cases (ltb drec_max_len (suc (length rest)))) [
      | inl large ↦ rw (large, parse_drec) refl
      | inr small ↦
          rw (small, parse_drec)
            (fields-is_settled (suc (length rest)) schema order flag none [] (input_at 1 rest) h.1
              (omega arith))
    ]

-- ===== src/Drec/Forward.antt =====
-- What `encode_drec` writes, `parse_drec` reads.
use openqbw.Base.{
  ℕ, zero, suc, ◌+◌, ◌≡◌, ◌≤◌, ◌<◌, ◌^◌, refl, ap, ◌∙◌, List, [], ◌∷◌, ◌++◌, Option, none, some, ok,
  >>=-eq-ok, arith, All, length, length-append, false, ◌==◌, ltb,
}
use openqbw.Base.Order.{nat_ord}
use openqbw.Base.Map.{Map}
use openqbw.Base.Map.Laws.{Below, IsSorted}
use openqbw.Drec.{
  drec_max_len, u16_max, DrecByteOrder, DrecDescriptor, DrecSchema, DrecField, DrecRecord,
  write_u16,
}
use openqbw.Drec.Schema.{field_count}
use openqbw.Drec.Parse.{parse_fields, parse_drec}
use openqbw.Drec.Encode.{value_encoded_len, value_bytes, encoded_length, encode_fields, encode_drec}
use openqbw.Drec.Words.{input_at, take_2-write_u16}
use openqbw.Drec.Values.{IsValue, parse_value-value_bytes}
use openqbw.Drec.Places.{
  placed_field, placed, Increasing, Under, first_allowed, not_after-none, contains_Under,
  insert-Under, Under-snoc,
}
use openqbw.Drec.Steps.{parse_fields_end, parse_fields_next}
use openqbw.Drec.Written.{
  get_elem?-lt-length, All-get_elem?, encode_fields-IsWritten, length-write_u16, length-value_bytes,
  encoded_length-length,
}
use mathlib.Core.List.{append-nil, append_assoc}

-- A schema whose ordinals are 16-bit words and whose descriptors are shorter than 2^63 bytes.
pub record IsAddressable (schema : DrecSchema) : Type 0 where
  pub few : field_count schema ≤ u16_max
  pub short : All (λ d. d.length < 2 ^ 63) schema.fields

ne_last : (k : ℕ) → k < u16_max → (k == u16_max) ≡ false
ne_last k h = ground arith

module _ (schema : DrecSchema) (order : DrecByteOrder) (flag : ℕ) (s : IsAddressable schema) where
  fields_written :
      (fuel c : ℕ) (previous : Option ℕ) (acc fs : Map ℕ DrecField) (bytes : List ℕ)
      → length fs < fuel
      → Increasing (first_allowed previous) fs
      → Under (first_allowed previous) acc
      → All (λ e. IsValue e.1.value) fs
      → c + length bytes ≤ drec_max_len
      → encode_fields schema order fs ≡ ok bytes
      → parse_fields fuel schema order flag previous acc
          (input_at c (bytes ++ write_u16 order u16_max))
        ≡ ok (record { flag = flag; fields = acc ++ placed c fs })
  unfolding placed encode_fields
  fields_written zero c previous acc fs bytes enough inc und w small e = absurd (omega arith)
  fields_written (suc fuel) c previous acc [] bytes enough inc und w small e =
      let nothing : bytes ≡ [] = cc e in
      rw (nothing, append-nil acc)
        (parse_fields_end schema order flag fuel previous acc (input_at c (write_u16 order u16_max))
          (input_at (c + 2) [])
          (rw (append-nil (write_u16 order u16_max)) at
            (take_2-write_u16 order u16_max c [] (omega arith)))
          refl)
  fields_written (suc fuel) c previous acc ((k, f) ∷ rest) bytes enough inc und w small e =
      let x = encode_fields-IsWritten schema order k f rest bytes e in
      let addressed = get_elem?-lt-length schema.fields k x.known in
      let width =
        All-get_elem? (λ (d : DrecDescriptor). d.length < 2 ^ 63) schema.fields k x.descriptor
          s.short x.known in
      let stop = c + 2 + value_encoded_len f.value in
      let v = f.value in
      let tail = x.later ++ write_u16 order u16_max in
      let size =
        (ap length x.together
          ∙ length-append (write_u16 order k) (value_bytes order v ++ x.later)
          ∙ ap (λ (n : ℕ). length (write_u16 order k) + n)
              (length-append (value_bytes order v) x.later)) in
      let sized : c + 2 + value_encoded_len v + length x.later ≤ drec_max_len =
        omega (arith, small, size, length-write_u16 order k, length-value_bytes order v w.0) in
      let regroup : bytes ++ write_u16 order u16_max
          ≡ write_u16 order k ++ (value_bytes order v ++ tail) =
        ap (λ (b : List ℕ). b ++ write_u16 order u16_max) x.together
        ∙ append_assoc (write_u16 order k) (value_bytes order v ++ x.later)
            (write_u16 order u16_max)
        ∙ ap (λ (b : List ℕ). write_u16 order k ++ b)
            (append_assoc (value_bytes order v) x.later (write_u16 order u16_max)) in
      rw regroup (
        parse_fields_next schema order flag fuel previous acc
          (input_at c (write_u16 order k ++ (value_bytes order v ++ tail))) k
          (input_at (c + 2) (value_bytes order v ++ tail)) x.descriptor (v, input_at stop tail)
          (take_2-write_u16 order k c (value_bytes order v ++ tail) (omega (arith, s.few)))
          (ne_last k (omega (arith, s.few))) (not_after-none previous k inc.0) x.known
          (contains_Under (first_allowed previous) k acc und inc.0)
          (parse_value-value_bytes (c + 2) tail x.descriptor v order x.matching w.0
            (omega (arith, sized)) (omega (arith, sized)))
        ∙ rw (insert-Under (first_allowed previous) k (placed_field c k v) acc und inc.0) (
            fields_written fuel stop (some k) (acc ++ (k, placed_field c k v) ∷ []) rest x.later
              (omega arith) inc.1
              (Under-snoc (first_allowed previous) k (placed_field c k v) acc und inc.0) w.1
              (omega (arith, sized)) x.rest_written
            ∙ ap (λ (m : Map ℕ DrecField). ok (record { flag = flag; fields = m }))
                (append_assoc acc ((k, placed_field c k v) ∷ []) (placed stop rest))))

Increasing-of_Below :
    (k : ℕ) (fs : Map ℕ DrecField) → Below k fs → IsSorted fs → Increasing (suc k) fs
Increasing-of_Below k [] b h = tt
Increasing-of_Below k ((j, f) ∷ fs) b h = (ground arith, Increasing-of_Below j fs h.0 h.1)

Increasing-of_IsSorted : (fs : Map ℕ DrecField) → IsSorted fs → Increasing 0 fs
Increasing-of_IsSorted [] h = tt
Increasing-of_IsSorted ((k, f) ∷ fs) h = (omega arith, Increasing-of_Below k fs h.0 h.1)

-- Parts of a successful `encode_drec`.
pub record IsEncoded (r : DrecRecord) (schema : DrecSchema) (order : DrecByteOrder) (bytes : List ℕ)
    : Type 0 where
  pub size : ℕ
  pub body : List ℕ
  pub measured : encoded_length schema 3 r.fields ≡ ok size
  pub written : encode_fields schema order r.fields ≡ ok body
  pub together : bytes ≡ r.flag ∷ (body ++ write_u16 order u16_max)

encode_drec-IsEncoded :
    (r : DrecRecord) (schema : DrecSchema) (order : DrecByteOrder) (bytes : List ℕ)
    → encode_drec r schema order ≡ ok bytes
    → IsEncoded r schema order bytes
unfolding encode_drec
encode_drec-IsEncoded r schema order bytes e =
    let (size, measured, e1) = >>=-eq-ok (encoded_length schema 3 r.fields) _ e in
    let (body, written, e2) = >>=-eq-ok (encode_fields schema order r.fields) _ e1 in
    record { size = size; body = body; measured = measured; written = written; together = cc e2 }

-- Every field takes a byte at least.
encode_fields-count :
    (schema : DrecSchema) (order : DrecByteOrder) (fs : Map ℕ DrecField) (bytes : List ℕ)
    → encode_fields schema order fs ≡ ok bytes
    → length fs ≤ length bytes
encode_fields-count schema order [] bytes e = omega arith
encode_fields-count schema order ((k, f) ∷ fs) bytes e =
    let x = encode_fields-IsWritten schema order k f fs bytes e in
    omega (
      arith,
      ap length x.together,
      length-append (write_u16 order k) (value_bytes order f.value ++ x.later),
      length-append (value_bytes order f.value) x.later,
      length-write_u16 order k,
      encode_fields-count schema order fs x.later x.rest_written,
    )

-- Reading what was written: for a schema of at most 0xffff fields, each of a declared length below
-- 2^63 bytes, a record with sorted ordinals and values of their types that `encode_drec` accepts is
-- read back by `parse_drec` with the same flag and the same values, its fields at the places where
-- they stand in the bytes.
pub parse_drec-encode_drec :
    (r : DrecRecord) (schema : DrecSchema) (order : DrecByteOrder) (bytes : List ℕ)
    → IsAddressable schema
    → IsSorted r.fields
    → All (λ e. IsValue e.1.value) r.fields
    → encode_drec r schema order ≡ ok bytes
    → parse_drec bytes schema order ≡ ok (record { flag = r.flag; fields = placed 1 r.fields })
unfolding parse_drec
parse_drec-encode_drec r schema order bytes s sorted w e =
    let x = encode_drec-IsEncoded r schema order bytes e in
    let (sum, bound) =
      encoded_length-length schema order 3 x.size r.fields x.body w (omega arith) x.measured
        x.written in
    let tail = length-append x.body (write_u16 order u16_max) in
    let two = length-write_u16 order u16_max in
    let small : ltb drec_max_len (suc (length (x.body ++ write_u16 order u16_max))) ≡ false =
      ground (arith, sum, bound, tail, two) in
    rw (x.together, parse_drec)
      (rw small (
        fields_written schema order r.flag s (suc (length (x.body ++ write_u16 order u16_max))) 1
          none [] r.fields x.body
          (omega (arith, encode_fields-count schema order r.fields x.body x.written, tail))
          (Increasing-of_IsSorted r.fields sorted) tt w (omega (arith, sum, bound)) x.written))

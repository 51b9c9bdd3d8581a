-- ===== src/Drec/Written.antt =====
-- What a successful `encode_fields` has checked, and how many bytes it writes.
use openqbw.Base.{
  ℕ, zero, suc, ◌+◌, ◌≡◌, ◌≤◌, ◌<◌, refl, ap, ◌∙◌, List, [], ◌∷◌, ◌++◌, some, ok, >>=-eq-ok, arith,
  All, length, length-append, get_elem?, true, ◌==◌, ltb, inl, inr, Bool-cases, Option-cases,
}
use openqbw.Base.Order.{nat_ord}
use openqbw.Base.Map.{Map}
use openqbw.Drec.{
  drec_max_len, DrecByteOrder, little, big, write_u32, DrecValue, DrecDescriptor, DrecSchema,
  DrecField, write_u16, value_matches, ensure_value_matches,
}
use openqbw.Drec.Schema.{field}
use openqbw.Drec.Encode.{
  value_encoded_len, value_bytes, encode_value, encoded_length, encode_fields,
}
use openqbw.Drec.Values.{IsValue}

pub get_elem?-lt-length {ℓ} :
    {A : Type ℓ} (xs : List A) (i : ℕ) {x : A} → get_elem? xs i ≡ some x → i < length xs
get_elem?-lt-length [] i e = cc
get_elem?-lt-length (y ∷ ys) zero e = omega arith
get_elem?-lt-length (y ∷ ys) (suc i) e = omega (arith, get_elem?-lt-length ys i e)

pub All-get_elem? :
    {A : Type 0} (P : A → Type 0) (xs : List A) (i : ℕ) (x : A)
    → All P xs
    → get_elem? xs i ≡ some x
    → P x
All-get_elem? P [] i x h e = cc
All-get_elem? P (y ∷ ys) zero x h e = let same : y ≡ x = cc e in rw (← same) h.0
All-get_elem? P (y ∷ ys) (suc i) x h e = All-get_elem? P ys i x h.1 e

ensure_inv :
    (d : DrecDescriptor) (v : DrecValue) {u : Unit {0}}
    → ensure_value_matches d v ≡ ok u
    → value_matches d.kind d.length v ≡ true
unfolding ensure_value_matches
ensure_inv d v e = elim (Bool-cases (value_matches d.kind d.length v)) [
  | inl matches ↦ matches
  | inr bad ↦ cc (rw bad at e)
]

pub ensure_ok :
    (d : DrecDescriptor) (v : DrecValue)
    → value_matches d.kind d.length v ≡ true
    → ensure_value_matches d v ≡ ok tt
unfolding ensure_value_matches
ensure_ok d v m = rw m

-- One field of a successful encoding.
pub record IsWritten (schema : DrecSchema) (order : DrecByteOrder) (k : ℕ) (f : DrecField)
    (rest : Map ℕ DrecField) (bytes : List ℕ) : Type 0 where
  pub descriptor : DrecDescriptor
  pub later : List ℕ
  pub own : f.ordinal ≡ k
  pub known : field schema k ≡ some descriptor
  pub matching : value_matches descriptor.kind descriptor.length f.value ≡ true
  pub rest_written : encode_fields schema order rest ≡ ok later
  pub together : bytes ≡ write_u16 order k ++ (value_bytes order f.value ++ later)

pub encode_fields-IsWritten :
    (schema : DrecSchema) (order : DrecByteOrder) (k : ℕ) (f : DrecField) (rest : Map ℕ DrecField)
    (bytes : List ℕ)
    → encode_fields schema order ((k, f) ∷ rest) ≡ ok bytes
    → IsWritten schema order k f rest bytes
unfolding encode_fields encode_value
encode_fields-IsWritten schema order k f rest bytes e = elim (Bool-cases (f.ordinal == k)) [
  | inr other ↦ cc (rw other at e)
  | inl own ↦
      let e1 = rw own at e in
      elim (Option-cases (field schema k)) [
        | inl unknown ↦ cc (rw unknown at e1)
        | inr (d, known) ↦
            let (value, encoded, e2) =
              >>=-eq-ok (encode_value d f.value order) _ (rw known at e1) in
            let (later, more, e3) = >>=-eq-ok (encode_fields schema order rest) _ e2 in
            let (_, fits, e4) = >>=-eq-ok (ensure_value_matches d f.value) _ encoded in
            let same : value ≡ value_bytes order f.value = cc e4 in
            let all : bytes ≡ write_u16 order k ++ (value ++ later) = cc e3 in
            record {
              descriptor = d;
              later = later;
              own = ground arith;
              known = known;
              matching = ensure_inv d f.value fits;
              rest_written = more;
              together = all ∙ ap (λ (v : List ℕ). write_u16 order k ++ (v ++ later)) same;
            }
      ]
]

pub length-write_u16 : (order : DrecByteOrder) (v : ℕ) → length (write_u16 order v) ≡ 2
unfolding write_u16
length-write_u16 little v = refl
length-write_u16 big v = refl

length-write_u32 : (order : DrecByteOrder) (v : ℕ) → length (write_u32 order v) ≡ 4
unfolding write_u32
length-write_u32 little v = refl
length-write_u32 big v = refl

pub length-value_bytes :
    (order : DrecByteOrder) (v : DrecValue)
    → IsValue v
    → length (value_bytes order v) ≡ value_encoded_len v
unfolding value_bytes value_encoded_len
length-value_bytes order (DrecValue.string v) w = rw (length-append v (0 ∷ []))
length-value_bytes order (DrecValue.bytes v) w = refl
length-value_bytes order (DrecValue.u32 v) w = length-write_u32 order v
length-value_bytes order (DrecValue.u16 v) w = length-write_u16 order v
length-value_bytes order (DrecValue.legacy_balance v) w = refl
length-value_bytes order (DrecValue.z v) w = w

length_field :
    (order : DrecByteOrder) (k : ℕ) (v : DrecValue) (later : List ℕ)
    → IsValue v
    → length (write_u16 order k ++ (value_bytes order v ++ later))
      ≡ 2 + value_encoded_len v + length later
length_field order k v later w =
    rw
      (
        length-append (write_u16 order k) (value_bytes order v ++ later),
        length-append (value_bytes order v) later,
        length-write_u16 order k,
        length-value_bytes order v w,
      )
      (omega arith)

-- The length that the first loop computes is that of the bytes that the second writes.
pub encoded_length-length :
    (schema : DrecSchema) (order : DrecByteOrder) (len n : ℕ) (fs : Map ℕ DrecField)
    (bytes : List ℕ)
    → All (λ e. IsValue e.1.value) fs
    → len ≤ drec_max_len
    → encoded_length schema len fs ≡ ok n
    → encode_fields schema order fs ≡ ok bytes
    → (len + length bytes ≡ n) × (n ≤ drec_max_len)
unfolding encoded_length encode_fields
encoded_length-length schema order len n [] bytes w small e b =
    let nothing : bytes ≡ [] = cc b in ground arith
encoded_length-length schema order len n ((k, f) ∷ rest) bytes w small e b =
    let x = encode_fields-IsWritten schema order k f rest bytes b in
    let e1 = rw (x.known, encoded_length) at e in
    let (_, _, e2) = >>=-eq-ok (ensure_value_matches x.descriptor f.value) _ e1 in
    elim (Bool-cases (ltb drec_max_len (len + 2 + value_encoded_len f.value))) [
      | inl large ↦ cc (rw large at e2)
      | inr fits ↦
          let (sum, bound) =
            encoded_length-length schema order (len + 2 + value_encoded_len f.value) n rest x.later
              w.1 (ground arith) (rw fits at e2) x.rest_written in
          (
            omega (arith, sum, ap length x.together, length_field order k f.value x.later w.0),
            bound,
          )
    ]

-- ===== src/Drec/Backward.antt =====
-- What `parse_drec` reads, `encode_drec` writes.
use openqbw.Base.{
  ℕ, zero, suc, ◌+◌, ◌≡◌, ◌≤◌, refl, sym, ap, ◌∙◌, List, [], ◌∷◌, ◌++◌, Option, none, some, ok,
  arith, All, length, length-append, true, false, ◌==◌, ltb, inl, inr, Bool-cases,
}
use openqbw.Base.Order.{nat_ord}
use openqbw.Base.Map.{Map}
use openqbw.Base.Bytes.{IsByte}
use openqbw.Drec.{
  drec_max_len, u16_max, DrecByteOrder, DrecDescriptor, DrecSchema, DrecField, DrecRecord,
  write_u16, value_matches,
}
use openqbw.Drec.Schema.{field}
use openqbw.Drec.Parse.{not_after, parse_fields, parse_drec}
use openqbw.Drec.Encode.{
  value_encoded_len, value_bytes, encode_value, encoded_length, encode_fields, encode_drec,
}
use openqbw.Drec.Words.{input_at}
use openqbw.Drec.Places.{Under, first_allowed, insert-Under, Under-snoc}
use openqbw.Drec.Steps.{read_field}
use openqbw.Drec.Written.{length-write_u16, length-value_bytes, ensure_ok}
use mathlib.Core.List.{append-nil, append_assoc}
use openqbw.Drec.Steps.{parse_fields-Round, ended, went_on}
use openqbw.Drec.Readings.{parse_value-IsRead}
use openqbw.Drec.Words.{take_2_inv}

-- The fields of a record that `parse_fields` extends: those read before, and those still to read.
record IsRest (schema : DrecSchema) (order : DrecByteOrder) (flag c : ℕ) (acc : Map ℕ DrecField)
    (bytes : List ℕ) (result : DrecRecord) : Type 0 where
  later : Map ℕ DrecField
  body : List ℕ
  flagged : result.flag ≡ flag
  fields : result.fields ≡ acc ++ later
  written : encode_fields schema order later ≡ ok body
  whole : bytes ≡ body ++ write_u16 order u16_max
  size :
      (n : ℕ)
      → n + length body ≤ drec_max_len
      → encoded_length schema n later ≡ ok (n + length body)

allowed : (previous : Option ℕ) (k : ℕ) → not_after previous k ≡ none → first_allowed previous ≤ k
allowed none k e = omega arith
allowed (some p) k e = ground arith

module _ (schema : DrecSchema) (order : DrecByteOrder) (k : ℕ) (f : DrecField) (d : DrecDescriptor)
    (own : f.ordinal ≡ k) (known : field schema k ≡ some d)
    (m : value_matches d.kind d.length f.value ≡ true) (rest : Map ℕ DrecField)
    (body : List ℕ) where
  encode_fields_cons :
      encode_fields schema order rest ≡ ok body
      → encode_fields schema order ((k, f) ∷ rest)
        ≡ ok (write_u16 order k ++ (value_bytes order f.value ++ body))
  unfolding encode_fields encode_value
  encode_fields_cons e =
      let same : (f.ordinal == k) ≡ true = ground arith in
      rw (same, encode_fields) (rw known (rw (ensure_ok d f.value m) (rw e refl)))

  encoded_length_cons :
      (n total : ℕ)
      → n + 2 + value_encoded_len f.value ≤ drec_max_len
      → encoded_length schema (n + 2 + value_encoded_len f.value) rest ≡ ok total
      → encoded_length schema n ((k, f) ∷ rest) ≡ ok total
  unfolding encoded_length
  encoded_length_cons n total small e =
      let fits : ltb drec_max_len (n + 2 + value_encoded_len f.value) ≡ false = ground arith in
      rw (known, encoded_length) (rw (ensure_ok d f.value m) (rw fits e))

module _ (schema : DrecSchema) (order : DrecByteOrder) (flag : ℕ) where
  fields_read :
      (fuel c : ℕ) (previous : Option ℕ) (acc : Map ℕ DrecField) (bytes : List ℕ)
      (result : DrecRecord)
      → Under (first_allowed previous) acc
      → All IsByte bytes
      → parse_fields fuel schema order flag previous acc (input_at c bytes) ≡ ok result
      → IsRest schema order flag c acc bytes result
  unfolding parse_fields encode_fields encoded_length
  fields_read zero c previous acc bytes result und h e = absurd (cc e)
  fields_read (suc fuel) c previous acc bytes result und h e =
      let (x, read, round) =
        parse_fields-Round schema order flag fuel previous acc (input_at c bytes) result e in
      let (word, split, moved, left) = take_2_inv order c bytes x h read in
      elim round [
        | ended last nothing same ↦ record {
          later = [];
          body = [];
          flagged = ap (λ (r : DrecRecord). r.flag) same;
          fields = ap (λ (r : DrecRecord). r.fields) same ∙ sym (append-nil acc);
          written = refl;
          whole = rw (split, nothing, last) (append-nil (write_u16 order u16_max));
          size = λ n small. ground arith;
        }
        | went_on d r after known value more ↦
            let v = parse_value-IsRead order x.1.cursor x.1.rest left d r value in
            let f = read_field c x.0 x.1 r in
            let order_kept = allowed previous x.0 after in
            let snoc = insert-Under (first_allowed previous) x.0 f acc und order_kept in
            let y =
              fields_read fuel r.1.cursor (some x.0) (acc ++ (x.0, f) ∷ []) r.1.rest result
                (Under-snoc (first_allowed previous) x.0 f acc und order_kept) v.left
                (rw snoc at more) in
            let count = length-append (write_u16 order x.0) (value_bytes order r.0 ++ y.body) in
            let inner = length-append (value_bytes order r.0) y.body in
            record {
              later = (x.0, f) ∷ y.later;
              body = write_u16 order x.0 ++ (value_bytes order r.0 ++ y.body);
              flagged = y.flagged;
              fields = y.fields ∙ append_assoc acc ((x.0, f) ∷ []) y.later;
              written =
                  encode_fields_cons schema order x.0 f d refl known v.matching y.later y.body
                    y.written;
              whole =
                  split
                  ∙ ap (λ (b : List ℕ). write_u16 order x.0 ++ b)
                      (v.written
                        ∙ ap (λ (b : List ℕ). value_bytes order r.0 ++ b) y.whole
                        ∙ sym
                            (append_assoc (value_bytes order r.0) y.body (write_u16 order u16_max)))
                  ∙ sym (
                      append_assoc (write_u16 order x.0) (value_bytes order r.0 ++ y.body)
                        (write_u16 order u16_max));
              size = λ n small.
                  let sum : n + 2 + value_encoded_len r.0 + length y.body
                      ≡ n + length (write_u16 order x.0 ++ (value_bytes order r.0 ++ y.body)) =
                    omega (
                      arith,
                      count,
                      inner,
                      length-write_u16 order x.0,
                      length-value_bytes order r.0 v.value,
                    ) in
                  encoded_length_cons schema order x.0 f d refl known v.matching y.later y.body n
                    (n + length (write_u16 order x.0 ++ (value_bytes order r.0 ++ y.body)))
                    (omega (arith, sum))
                    (y.size (n + 2 + value_encoded_len r.0) (omega (arith, sum))
                      ∙ ap (λ (t : ℕ). ok t) sum);
            }
      ]

-- Writing what was read: of bytes, a record that `parse_drec` reads is written by `encode_drec` with the
-- same schema and byte order, and the bytes are the ones it was read from.
pub encode_drec-parse_drec :
    (bytes : List ℕ) (schema : DrecSchema) (order : DrecByteOrder) (r : DrecRecord)
    → All IsByte bytes
    → parse_drec bytes schema order ≡ ok r
    → encode_drec r schema order ≡ ok bytes
unfolding parse_drec encode_drec
encode_drec-parse_drec [] schema order r h e = cc e
encode_drec-parse_drec (flag ∷ rest) schema order r h e =
    elim (Bool-cases (ltb drec_max_len (suc (length rest)))) [
      | inl large ↦ cc (rw large at e)
      | inr small ↦
          let y =
            fields_read schema order flag (suc (length rest)) 1 none [] rest r tt h.1
              (rw small at e) in
          let sum = ap length y.whole ∙ length-append y.body (write_u16 order u16_max) in
          let room : 3 + length y.body ≤ drec_max_len =
            ground (arith, sum, length-write_u16 order u16_max) in
          rw (y.fields, encode_drec)
            (rw (y.size 3 room) (
              rw y.written (
                ap (λ (f : ℕ). ok (f ∷ (y.body ++ write_u16 order u16_max))) y.flagged
                ∙ ap (λ (b : List ℕ). ok (flag ∷ b)) (sym y.whole))))
    ]

-- ===== src/Drec/Steps.antt =====
-- One round of the loop of `parse_drec`.
use openqbw.Base.{
  ℕ, suc, ◌≡◌, refl, [], Option, none, some, ok, >>=-eq-ok, arith, true, false, ◌==◌, inl, inr,
  Bool-cases, List-cases, Option-cases,
}
use openqbw.Base.Order.{nat_ord}
use openqbw.Base.Map.{Map, insert, contains_key}
use openqbw.Drec.{
  u16_max, DrecByteOrder, DrecValue, DrecDescriptor, DrecSchema, DrecField, DrecRecord, Drec,
  read_u16,
}
use openqbw.Drec.Schema.{field}
use openqbw.Drec.Parse.{Input, take_2, not_after, parse_value, parse_field, parse_fields}

-- A field read from `start` on.
abbrev pub read_field : ℕ → ℕ → Input → DrecValue × Input → DrecField
read_field start ordinal at_value r = record {
  ordinal = ordinal;
  value = r.0;
  byte_range = record { start = start; stop = r.1.cursor };
  payload_range = record { start = at_value.cursor; stop = r.1.cursor };
}

module _ (schema : DrecSchema) (order : DrecByteOrder) (flag : ℕ) (previous : Option ℕ)
    (fields : Map ℕ DrecField) (start ordinal : ℕ) (at_value : Input)
    (again : Option ℕ → Map ℕ DrecField → Input → Drec DrecRecord) where
  abbrev pub body : Drec DrecRecord
  body = parse_field schema order flag previous fields start ordinal at_value again

  body_end :
      (ordinal == u16_max) ≡ true
      → at_value.rest ≡ []
      → body ≡ ok (record { flag = flag; fields = fields })
  unfolding parse_field
  body_end last nothing = rw (last, parse_field) (rw nothing)

  body_next :
      (d : DrecDescriptor) (r : DrecValue × Input)
      → (ordinal == u16_max) ≡ false
      → not_after previous ordinal ≡ none
      → field schema ordinal ≡ some d
      → contains_key ordinal fields ≡ false
      → parse_value at_value d order ≡ ok r
      → body
        ≡ again (some ordinal) (insert ordinal (read_field start ordinal at_value r) fields) r.1
  unfolding parse_field
  body_next d r more after known fresh value =
      rw (more, parse_field) (rw after (rw known (rw fresh (rw value))))

  -- What a round that succeeds has done: it ended at the last bytes, or read a field.
  pub data Round (result : DrecRecord) : Type 0 where
    ended :
        ordinal ≡ u16_max
        → at_value.rest ≡ []
        → result ≡ record { flag = flag; fields = fields }
        → Round result
    went_on :
        (d : DrecDescriptor) (r : DrecValue × Input)
        → not_after previous ordinal ≡ none
        → field schema ordinal ≡ some d
        → parse_value at_value d order ≡ ok r
        → again (some ordinal) (insert ordinal (read_field start ordinal at_value r) fields) r.1
          ≡ ok result
        → Round result

  pub body-Round : (result : DrecRecord) → body ≡ ok result → Round result
  unfolding parse_field
  body-Round result e = elim (Bool-cases (ordinal == u16_max)) [
    | inl last ↦ elim (List-cases at_value.rest) [
      | inl nothing ↦
          ended (ground arith) nothing (cc (rw nothing at (rw (last, parse_field) at e)))
      | inr (b, more, left) ↦ cc (rw left at (rw (last, parse_field) at e))
    ]
    | inr more ↦
        let e1 = rw (more, parse_field) at e in
        elim (Option-cases (not_after previous ordinal)) [
          | inr (p, early) ↦ cc (rw early at e1)
          | inl after ↦
              let e2 = rw after at e1 in
              elim (Option-cases (field schema ordinal)) [
                | inl unknown ↦ cc (rw unknown at e2)
                | inr (d, known) ↦
                    let e3 = rw known at e2 in
                    elim (Bool-cases (contains_key ordinal fields)) [
                      | inl twice ↦ cc (rw twice at e3)
                      | inr fresh ↦
                          let (r, value, e4) =
                            >>=-eq-ok (parse_value at_value d order) _ (rw fresh at e3) in
                          went_on d r after known value e4
                    ]
              ]
        ]
  ]

-- The same for a round of the loop.
module _ (schema : DrecSchema) (order : DrecByteOrder) (flag fuel : ℕ) (previous : Option ℕ)
    (fields : Map ℕ DrecField) (input : Input) where
  abbrev pub next_round : Option ℕ → Map ℕ DrecField → Input → Drec DrecRecord
  next_round last read rest = parse_fields fuel schema order flag last read rest

  pub parse_fields_end :
      (at_value : Input)
      → take_2 (read_u16 order) input ≡ ok (u16_max, at_value)
      → at_value.rest ≡ []
      → parse_fields (suc fuel) schema order flag previous fields input
        ≡ ok (record { flag = flag; fields = fields })
  unfolding parse_fields
  parse_fields_end at_value read nothing =
      rw (read, parse_fields)
        (body_end schema order flag previous fields input.cursor u16_max at_value next_round refl
          nothing)

  pub parse_fields_next :
      (ordinal : ℕ) (at_value : Input) (d : DrecDescriptor) (r : DrecValue × Input)
      → take_2 (read_u16 order) input ≡ ok (ordinal, at_value)
      → (ordinal == u16_max) ≡ false
      → not_after previous ordinal ≡ none
      → field schema ordinal ≡ some d
      → contains_key ordinal fields ≡ false
      → parse_value at_value d order ≡ ok r
      → parse_fields (suc fuel) schema order flag previous fields input
        ≡ parse_fields fuel schema order flag
            (some ordinal)
            (insert ordinal (read_field input.cursor ordinal at_value r) fields)
            r.1
  unfolding parse_fields
  parse_fields_next ordinal at_value d r read more after known fresh value =
      rw (read, parse_fields)
        (body_next schema order flag previous fields input.cursor ordinal at_value next_round d r
          more after known fresh value)

  pub parse_fields-Round :
      (result : DrecRecord)
      → parse_fields (suc fuel) schema order flag previous fields input ≡ ok result
      → (x : ℕ × Input) × (take_2 (read_u16 order) input ≡ ok x)
        × Round schema order flag previous fields input.cursor x.0 x.1 next_round result
  unfolding parse_fields
  parse_fields-Round result e =
      let (x, read, e1) = >>=-eq-ok (take_2 (read_u16 order) input) _ e in
      (
        x,
        read,
        body-Round schema order flag previous fields input.cursor x.0 x.1 next_round result e1,
      )

-- ===== src/Rows/MasterRow/Framed.antt =====
-- The length-prefixed fields of a transaction-master row.
use openqbw.Base.{
  sym, ok_injective, ap, ◌∙◌, ℕ, ◌+◌, ◌≡◌, ◌≢◌, ◌≤◌, refl, Bool, true, not, ◌⊎◌, inl, inr, List, [],
  ◌∷◌, Option, none, some, ok, >>=-eq-ok, is_settled, is_settled->>=, length, take, drop, get_elem?,
  length-take, length-drop, leb, ltb, ◌==◌, arith, Bool-cases, Option-cases,
}
use openqbw.Rows.{byte_at, u16_at, u32_at, slice, is_settled-guard, guard-eq-ok, eq_of_guard}
use openqbw.Rows.{byte_at-is_settled, u16_at-is_settled, u32_at-is_settled}
use openqbw.Rows.MasterRow.{
  MasterRow, FieldLabel, parse_optional_bytes, parse_optional_bytes_if_bounded, check_reference,
  void_memo, starts_with_void, parse_master_fields, parse_master_row, fixed_header_len,
  master_flags, master_kind,
}

-- A field read at an offset: it is absent where the row has ended or the length byte is zero, and else
-- the bytes, as many as the length byte says, behind that byte.
abbrev pub IsFramed : List ℕ → ℕ → Option (List ℕ) → Type 0
IsFramed input offset none = (get_elem? input offset ≡ none) ⊎ (get_elem? input offset ≡ some 0)
IsFramed input offset (some bytes) =
    (bytes ≢ [])
    × (get_elem? input offset ≡ some (length bytes))
    × (slice input (offset + 1) (length bytes) ≡ some bytes)

length-slice :
    (input : List ℕ) (start n : ℕ) (bytes : List ℕ)
    → slice input start n ≡ some bytes
    → length bytes ≡ n
unfolding slice
length-slice input start n bytes e = elim (Bool-cases (leb (start + n) (length input))) [
  | inl fits ↦
      let same : bytes ≡ take n (drop start input) = cc (rw fits at e) in
      rw same (length-take n (drop start input) (ground (arith, length-drop start input)))
  | inr short ↦ cc (rw short at e)
]

nonempty-IsFramed :
    (input : List ℕ) (offset n : ℕ) (bytes : List ℕ) (o : Option (List ℕ))
    → get_elem? input offset ≡ some n
    → slice input (offset + 1) n ≡ some bytes
    → elim bytes [ [] ↦ none | b ∷ rest ↦ some (b ∷ rest) ] ≡ o
    → IsFramed input offset o
nonempty-IsFramed input offset n [] o here cut e =
    let zero_len : n ≡ 0 = omega (arith, length-slice input (offset + 1) n [] cut) in
    rw (← e) (inr (rw zero_len at here))
nonempty-IsFramed input offset n (b ∷ bytes) o here cut e =
    let same = length-slice input (offset + 1) n (b ∷ bytes) cut in
    rw (← e) (λ x. cc, rw (← same) at here, rw (← same) at cut)

parse_optional_bytes-IsFramed :
    (input : List ℕ) (offset : ℕ) (label : FieldLabel) (o : Option (List ℕ))
    → parse_optional_bytes input offset label ≡ ok o
    → IsFramed input offset o
unfolding parse_optional_bytes
parse_optional_bytes-IsFramed input offset label o e =
    elim (Option-cases (get_elem? input offset)) [
      | inl ended ↦
          let nothing : o ≡ none = cc (rw (ended, parse_optional_bytes) at e) in
          rw nothing (inl ended)
      | inr (n, here) ↦ elim (Option-cases (slice input (offset + 1) n)) [
        | inl short ↦ cc (rw short at (rw (here, parse_optional_bytes) at e))
        | inr (bytes, cut) ↦
            nonempty-IsFramed input offset n bytes o here cut
              (cc (rw cut at (rw (here, parse_optional_bytes) at e)))
      ]
    ]

if_bounded-IsFramed :
    (input : List ℕ) (offset : ℕ) (bytes : List ℕ)
    → parse_optional_bytes_if_bounded input offset ≡ some bytes
    → IsFramed input offset (some bytes)
unfolding parse_optional_bytes_if_bounded
if_bounded-IsFramed input offset bytes e = elim (Option-cases (get_elem? input offset)) [
  | inl ended ↦ absurd (cc (rw (ended, parse_optional_bytes_if_bounded) at e))
  | inr (n, here) ↦ elim (Option-cases (slice input (offset + 1) n)) [
    | inl short ↦ absurd (cc (rw short at (rw (here, parse_optional_bytes_if_bounded) at e)))
    | inr (found, cut) ↦
        nonempty-IsFramed input offset n found (some bytes) here cut
          (rw cut at (rw (here, parse_optional_bytes_if_bounded) at e))
  ]
]

module _ (is_utf8 : List ℕ → Bool) where
  check_reference-eq-ok :
      (o checked : Option (List ℕ)) → check_reference is_utf8 o ≡ ok checked → o ≡ checked
  unfolding check_reference
  check_reference-eq-ok none checked e = cc e
  check_reference-eq-ok (some bytes) checked e = ground arith

  void_memo-eq-some :
      (o : Option (List ℕ)) (memo : List ℕ)
      → void_memo is_utf8 o ≡ some memo
      → (o ≡ some memo) × (starts_with_void memo ≡ true)
  unfolding void_memo
  void_memo-eq-some none memo e = cc
  void_memo-eq-some (some bytes) memo e = ground arith

  -- What a parsed master row promises of its bytes.
  pub record IsMasterRow (input : List ℕ) (r : MasterRow) : Type 0 where
    pub whole : r.declared_len ≡ length input
    pub flags : r.flags ≡ master_flags
    pub kind : r.kind ≡ master_kind
    pub token : IsFramed input 0x16 r.opaque_token
    pub reference : IsFramed input 0x37 r.document_reference
    pub memo :
        (text : List ℕ)
        → r.void_memo_witness ≡ some text
        → IsFramed input 0x83 (some text) × (starts_with_void text ≡ true)

  -- A transaction-master row that is parsed declares the length of its bytes and has the fixed flags and
  -- kind. Its token, reference and void memo, where present, are the bytes that follow their length
  -- byte at the fixed offsets, and a token or reference is absent only where that length byte is
  -- missing or zero.
  pub parse_master_row-IsMasterRow :
      (input : List ℕ) (r : MasterRow) → parse_master_row is_utf8 input ≡ ok r → IsMasterRow input r
  unfolding parse_master_row parse_master_fields
  parse_master_row-IsMasterRow input r e =
      let (_, e1) = guard-eq-ok (ltb (length input) fixed_header_len) _ _ e in
      let (declared, _, e2) = >>=-eq-ok (u16_at input 0) _ e1 in
      let (whole, e3) = guard-eq-ok (not (declared == length input)) _ _ e2 in
      let (flags, _, e4) = >>=-eq-ok (byte_at input 2) _ e3 in
      let (flagged, e5) = guard-eq-ok (not (flags == master_flags)) _ _ e4 in
      let (kind, _, e6) = >>=-eq-ok (byte_at input 3) _ e5 in
      let (of_kind, e7) = guard-eq-ok (not (kind == master_kind)) _ _ e6 in
      let (token, has_token, f1) =
        >>=-eq-ok (parse_optional_bytes input 0x16 FieldLabel.opaque_token) _ e7 in
      let (bytes, has_bytes, f2) =
        >>=-eq-ok (parse_optional_bytes input 0x37 FieldLabel.document_reference) _ f1 in
      let (reference, checked, f3) = >>=-eq-ok (check_reference is_utf8 bytes) _ f2 in
      let (master, _, f4) = >>=-eq-ok (u32_at input 8) _ f3 in
      let (adjacent, _, f5) = >>=-eq-ok (u32_at input 12) _ f4 in
      let (opaque_type, _, f6) = >>=-eq-ok (u16_at input 20) _ f5 in
      let built : r ≡ record {
        declared_len = declared;
        flags = flags;
        kind = kind;
        master_record_number = master;
        adjacent_record_number = adjacent;
        opaque_type = opaque_type;
        opaque_token = token;
        document_reference = reference;
        void_memo_witness = void_memo is_utf8 (parse_optional_bytes_if_bounded input 0x83);
      } =
        sym (ok_injective f6) in
      rw built (record {
        whole = eq_of_guard declared (length input) whole;
        flags = eq_of_guard flags master_flags flagged;
        kind = eq_of_guard kind master_kind of_kind;
        token = parse_optional_bytes-IsFramed input 0x16 FieldLabel.opaque_token token has_token;
        reference =
            parse_optional_bytes-IsFramed input 0x37 FieldLabel.document_reference reference (
              has_bytes
              ∙ ap (λ (o : Option (List ℕ)). ok o) (check_reference-eq-ok bytes reference checked));
        memo = λ text found.
            let (read, void) =
              void_memo-eq-some (parse_optional_bytes_if_bounded input 0x83) text found in
            (if_bounded-IsFramed input 0x83 text read, void);
      })

  optional-is_settled :
      (input : List ℕ) (offset : ℕ) (label : FieldLabel)
      → is_settled (parse_optional_bytes input offset label) ≡ true
  unfolding parse_optional_bytes
  optional-is_settled input offset label = elim (Option-cases (get_elem? input offset)) [
    | inl ended ↦ rw (ended, parse_optional_bytes) refl
    | inr (n, here) ↦ elim (Option-cases (slice input (offset + 1) n)) [
      | inl short ↦ rw (here, parse_optional_bytes) (rw short refl)
      | inr (bytes, cut) ↦ rw (here, parse_optional_bytes) (rw cut refl)
    ]
  ]

  reference-is_settled : (o : Option (List ℕ)) → is_settled (check_reference is_utf8 o) ≡ true
  unfolding check_reference
  reference-is_settled none = refl
  reference-is_settled (some bytes) = ground arith

  fields-is_settled :
      (input : List ℕ) (declared flags kind : ℕ)
      → fixed_header_len ≤ length input
      → is_settled (parse_master_fields is_utf8 input declared flags kind) ≡ true
  unfolding parse_master_fields
  fields-is_settled input declared flags kind h =
      is_settled->>= (parse_optional_bytes input 0x16 FieldLabel.opaque_token) _
        (optional-is_settled input 0x16 FieldLabel.opaque_token)
        (λ token _.
          is_settled->>= (parse_optional_bytes input 0x37 FieldLabel.document_reference) _
            (optional-is_settled input 0x37 FieldLabel.document_reference)
            (λ bytes _.
              is_settled->>= (check_reference is_utf8 bytes) _ (reference-is_settled bytes)
                (λ reference _.
                  is_settled->>= (u32_at input 8) _ (u32_at-is_settled _ input 8 (omega arith))
                    (λ master _.
                      is_settled->>= (u32_at input 12) _
                        (u32_at-is_settled _ input 12 (omega arith))
                        (λ adjacent _.
                          is_settled->>= (u16_at input 20) _
                            (u16_at-is_settled _ input 20 (omega arith)) (λ t _. refl))))))

  pub parse_master_row-is_settled :
      (input : List ℕ) → is_settled (parse_master_row is_utf8 input) ≡ true
  unfolding parse_master_row
  parse_master_row-is_settled input =
      is_settled-guard (ltb (length input) fixed_header_len) _ _ (λ long.
        is_settled->>= (u16_at input 0) _ (u16_at-is_settled _ input 0 (ground arith))
          (λ declared _. is_settled-guard (not (declared == length input)) _ _ (λ _.
            is_settled->>= (byte_at input 2) _ (byte_at-is_settled _ input 2 (ground arith))
              (λ flags _. is_settled-guard (not (flags == master_flags)) _ _ (λ _.
                is_settled->>= (byte_at input 3) _ (byte_at-is_settled _ input 3 (ground arith))
                  (λ kind _.
                    is_settled-guard (not (kind == master_kind)) _ _
                      (λ _. fields-is_settled input declared flags kind (ground arith))))))))

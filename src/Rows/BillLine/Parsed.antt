-- ===== src/Rows/BillLine/Parsed.antt =====
-- What a parsed Bill line promises, and that its parser never panics.
use openqbw.Base.{
  ok_injective, ℕ, ◌+◌, ◌-◌, ◌≡◌, ◌≢◌, ◌≤◌, refl, true, false, not, ◌||◌, inl, inr, List, [], ◌∷◌,
  Outcome, ok, err, panic, stuck, >>=-eq-ok, is_settled, is_settled->>=, length, drop, leb, ltb,
  ◌==◌, arith, Bool-cases,
}
use openqbw.Cents.{PostingCents, PostingCentsError, parse_cents}
use openqbw.Cents.Total.{parse_cents-is_settled}
use openqbw.Rows.{eq_bytes}
use openqbw.Rows.BillLine.Amount.{
  IsToken, AllTokens, candidates-AllTokens, pick, parse_trailing_amount-IsToken,
}
use openqbw.Rows.BillLine.{trailing_canonical_zero}
use openqbw.Rows.{
  byte_at, u16_at, u32_at, slice, byte_at-is_settled, u16_at-is_settled, u32_at-is_settled,
  is_settled-guard, guard-eq-ok,
}
use openqbw.Rows.BillLine.{
  BillLineRow, Candidate, bytes_at, accepted_candidate, candidate_at, candidates, digit_counts,
  all_same, is_repeated, repeated, only, parse_trailing_amount, parse_bill_fields, parse_bill_line,
  minimum_len, expected_flags, expected_row_class, expected_row_kind,
}

pub record IsBillLine (input : List ℕ) (r : BillLineRow) : Type 0 where
  pub some_target : r.target_record_number ≢ 0
  pub some_master : r.master_record_number ≢ 0
  pub some_account : r.account_record_number ≢ 0
  pub amount_end : ℕ
  pub ends : amount_end + 8 ≡ length input
  pub amount :
      IsToken input amount_end
        (record { signed_cents = r.signed_cents; canonical_zero = r.canonical_zero_amount })

no_zero : (a b c : ℕ) → ((a == 0) || (b == 0) || (c == 0)) ≡ false → (a ≢ 0) × (b ≢ 0) × (c ≢ 0)
no_zero a b c h = ground arith

fields-IsBillLine :
    (input : List ℕ) (r : BillLineRow) → parse_bill_fields input ≡ ok r → IsBillLine input r
unfolding parse_bill_fields
fields-IsBillLine input r e =
    let (amount, read, e1) = >>=-eq-ok (parse_trailing_amount input (length input - 8)) _ e in
    let (target, _, e2) = >>=-eq-ok (u32_at input 0x0c) _ e1 in
    let (master, _, e3) = >>=-eq-ok (u32_at input 0x10) _ e2 in
    let (account, _, e4) = >>=-eq-ok (u32_at input 0x14) _ e3 in
    let (present, e5) = guard-eq-ok ((target == 0) || (master == 0) || (account == 0)) _ _ e4 in
    let (date, _, e6) = >>=-eq-ok (u32_at input 0x18) _ e5 in
    let (view, _, e7) = >>=-eq-ok (u16_at input 0x1c) _ e6 in
    let (t, m, a) = no_zero target master account present in
    let token = parse_trailing_amount-IsToken input (length input - 8) amount read in
    rw (← ok_injective e7) (record {
      some_target = t;
      some_master = m;
      some_account = a;
      amount_end = length input - 8;
      ends = omega (arith, token.ends);
      amount = token;
    })

-- A Bill line that is parsed names a target, a transaction and an account by numbers other than zero,
-- and its amount is read from a token that ends eight bytes before the end of the row: its first byte
-- counts its base-100 digits, four at most, and it is that many digits and two bytes long.
pub parse_bill_line-IsBillLine :
    (input : List ℕ) (r : BillLineRow) → parse_bill_line input ≡ ok r → IsBillLine input r
unfolding parse_bill_line
parse_bill_line-IsBillLine input r e =
    let (_, e1) = guard-eq-ok (ltb (length input) minimum_len) _ _ e in
    let (declared, _, e2) = >>=-eq-ok (u16_at input 0) _ e1 in
    let (_, e3) = guard-eq-ok (not (declared == length input)) _ _ e2 in
    let (flags, _, e4) = >>=-eq-ok (byte_at input 2) _ e3 in
    let (_, e5) = guard-eq-ok (not (flags == expected_flags)) _ _ e4 in
    let (row_class, _, e6) = >>=-eq-ok (byte_at input 3) _ e5 in
    let (_, e7) = guard-eq-ok (not (row_class == expected_row_class)) _ _ e6 in
    let (row_kind, _, e8) = >>=-eq-ok (byte_at input 4) _ e7 in
    let (_, e9) = guard-eq-ok (not (row_kind == expected_row_kind)) _ _ e8 in
    let (_, e10) =
      guard-eq-ok (not (eq_bytes (drop (length input - 5) input) trailing_canonical_zero)) _ _ e9 in
    fields-IsBillLine input r e10

module _ (input : List ℕ) (amount_end : ℕ) (inside : amount_end ≤ length input) where
  bytes_at-is_settled :
      (start n : ℕ) → start + n ≤ length input → is_settled (bytes_at input start n) ≡ true
  unfolding bytes_at slice
  bytes_at-is_settled start n h =
      let fits : leb (start + n) (length input) ≡ true = ground arith in
      rw (fits, bytes_at, slice) refl

  accepted_candidate-is_settled :
      (start : ℕ) (m : Outcome PostingCentsError PostingCents)
      → is_settled m ≡ true
      → is_settled (accepted_candidate start m) ≡ true
  accepted_candidate-is_settled start (ok a) h = refl
  accepted_candidate-is_settled start (err x) h = refl
  accepted_candidate-is_settled start panic h = h
  accepted_candidate-is_settled start stuck h = h

  candidate_at-is_settled : (digits : ℕ) → is_settled (candidate_at input amount_end digits) ≡ true
  unfolding candidate_at
  candidate_at-is_settled digits = elim (Bool-cases (ltb amount_end (digits + 2))) [
    | inl before ↦ rw (before, candidate_at) refl
    | inr room ↦
        rw (room, candidate_at)
          (is_settled->>= (byte_at input (amount_end - (digits + 2))) _
            (byte_at-is_settled _ input (amount_end - (digits + 2)) (ground arith))
            (λ count _. elim (Bool-cases (not (count == digits))) [
              | inl other ↦ rw other refl
              | inr counts ↦ rw counts (
                  is_settled->>= (bytes_at input (amount_end - (digits + 2)) (digits + 2)) _
                    (bytes_at-is_settled (amount_end - (digits + 2)) (digits + 2) (ground arith))
                    (λ token _.
                      accepted_candidate-is_settled (amount_end - (digits + 2)) (parse_cents token)
                        (parse_cents-is_settled token)))
            ]))
  ]

  candidates-is_settled : (counts : List ℕ) → is_settled (candidates input amount_end counts) ≡ true
  unfolding candidates
  candidates-is_settled [] = refl
  candidates-is_settled (digits ∷ more) =
      is_settled->>= (candidate_at input amount_end digits) _ (candidate_at-is_settled digits)
        (λ o _.
          is_settled->>= (candidates input amount_end more) _ (candidates-is_settled more)
            (λ cs _. refl))

  is_repeated-is_settled :
      (c : Candidate) → c.start ≤ amount_end → is_settled (is_repeated input amount_end c) ≡ true
  unfolding is_repeated
  is_repeated-is_settled c h =
      let len = amount_end - c.start in
      elim (Bool-cases (not (leb (len + 5) c.start))) [
        | inl early ↦ rw (early, is_repeated) refl
        | inr late ↦
            rw (late, is_repeated)
              (is_settled->>= (bytes_at input (c.start - len - 5) len) _
                (bytes_at-is_settled (c.start - len - 5) len (ground arith))
                (λ before _.
                  is_settled->>= (bytes_at input c.start len) _
                    (bytes_at-is_settled c.start len (ground arith)) (λ token _. refl)))
      ]

  repeated-is_settled :
      (cs : List Candidate)
      → AllTokens input amount_end cs
      → is_settled (repeated input amount_end cs) ≡ true
  unfolding repeated
  repeated-is_settled [] h = refl
  repeated-is_settled (c ∷ cs) h =
      is_settled->>= (is_repeated input amount_end c) _ (is_repeated-is_settled c h.0.0) (λ keep _.
        is_settled->>= (repeated input amount_end cs) _ (repeated-is_settled cs h.1)
          (λ later _. refl))

  only-is_settled : (cs : List Candidate) → is_settled (only cs) ≡ true
  only-is_settled [] = refl
  only-is_settled (c ∷ []) = refl
  only-is_settled (c ∷ d ∷ cs) = refl

  pick-is_settled :
      (cs : List Candidate)
      → AllTokens input amount_end cs
      → is_settled (pick input amount_end cs) ≡ true
  pick-is_settled [] h = refl
  pick-is_settled (c ∷ rest) h = elim (Bool-cases (all_same c.amount rest)) [
    | inl same ↦ rw same refl
    | inr differ ↦ rw differ (
        is_settled->>= (repeated input amount_end (c ∷ rest)) only
          (repeated-is_settled (c ∷ rest) h) (λ kept _. only-is_settled kept))
  ]

  amount-is_settled : is_settled (parse_trailing_amount input amount_end) ≡ true
  unfolding parse_trailing_amount
  amount-is_settled =
      is_settled->>= (candidates input amount_end digit_counts) _
        (candidates-is_settled digit_counts)
        (λ cs read. pick-is_settled cs (
          candidates-AllTokens input amount_end digit_counts cs
            (omega arith, (omega arith, (omega arith, (omega arith, (omega arith, tt))))) read))

fields-is_settled :
    (input : List ℕ) → minimum_len ≤ length input → is_settled (parse_bill_fields input) ≡ true
unfolding parse_bill_fields
fields-is_settled input h =
    is_settled->>= (parse_trailing_amount input (length input - 8)) _
      (amount-is_settled input (length input - 8) (omega arith))
      (λ amount _.
        is_settled->>= (u32_at input 0x0c) _ (u32_at-is_settled _ input 0x0c (omega arith))
          (λ target _.
            is_settled->>= (u32_at input 0x10) _ (u32_at-is_settled _ input 0x10 (omega arith))
              (λ master _.
                is_settled->>= (u32_at input 0x14) _ (u32_at-is_settled _ input 0x14 (omega arith))
                  (λ account _.
                    is_settled-guard ((target == 0) || (master == 0) || (account == 0)) _ _ (λ _.
                      is_settled->>= (u32_at input 0x18) _
                        (u32_at-is_settled _ input 0x18 (omega arith))
                        (λ date _.
                          is_settled->>= (u16_at input 0x1c) _
                            (u16_at-is_settled _ input 0x1c (omega arith)) (λ view _. refl)))))))

pub parse_bill_line-is_settled : (input : List ℕ) → is_settled (parse_bill_line input) ≡ true
unfolding parse_bill_line
parse_bill_line-is_settled input = is_settled-guard (ltb (length input) minimum_len) _ _ (λ long.
    let enough : minimum_len ≤ length input = ground arith in
    is_settled->>= (u16_at input 0) _ (u16_at-is_settled _ input 0 (omega arith)) (λ declared _.
      is_settled-guard (not (declared == length input)) _ _ (λ _.
        is_settled->>= (byte_at input 2) _ (byte_at-is_settled _ input 2 (omega arith)) (λ flags _.
          is_settled-guard (not (flags == expected_flags)) _ _ (λ _.
            is_settled->>= (byte_at input 3) _ (byte_at-is_settled _ input 3 (omega arith))
              (λ row_class _. is_settled-guard (not (row_class == expected_row_class)) _ _ (λ _.
                is_settled->>= (byte_at input 4) _ (byte_at-is_settled _ input 4 (omega arith))
                  (λ row_kind _. is_settled-guard (not (row_kind == expected_row_kind)) _ _ (λ _.
                    is_settled-guard
                      (not (eq_bytes (drop (length input - 5) input) trailing_canonical_zero)) _ _
                      (λ _. fields-is_settled input enough))))))))))

-- ===== src/Rows/Deposit/Settled.antt =====
-- The parsers of Deposit rows end without a panic.
use openqbw.Base.{
  ok_injective, ℕ, suc, ◌+◌, ◌-◌, ◌≡◌, ◌≤◌, refl, true, not, inl, inr, List, [], ◌∷◌, Option, none,
  some, Outcome, ok, >>=-eq-ok, is_settled, is_settled->>=, is_settled-map_err, length, leb, ltb,
  ◌==◌, arith, Bool-cases,
}
use openqbw.Cents.{PostingCents, parse_cents}
use openqbw.Cents.Total.{parse_cents-is_settled}
use openqbw.Rows.{
  byte_at, u16_at, u32_at, slice, byte_at-is_settled, u16_at-is_settled, u32_at-is_settled,
  is_settled-guard,
}
use openqbw.Rows.Deposit.{
  ReferenceField, DepositError, ensure_minimum, require_reference, amount_error, decode_amount,
  bytes_of, bytes_from, check_head, linked_form, terminal_form, deposit_form, require_next,
  parse_deposit, passed_over, tail_candidate, tail_candidates, only_amount,
  counterpart_account_offset, parse_counterpart, deposit_posting_kind,
  deposit_terminal_posting_kind,
}

check_head-is_settled : (input : List ℕ) → is_settled (check_head input) ≡ true
unfolding check_head
check_head-is_settled input = is_settled-guard (ltb (length input) 4) _ _ (λ long.
    is_settled->>= (u16_at input 0) _ (u16_at-is_settled _ input 0 (ground arith)) (λ declared _.
      is_settled-guard (not (declared == length input)) _ _ (λ _.
        is_settled->>= (byte_at input 2) _ (byte_at-is_settled _ input 2 (ground arith)) (λ flags _.
          is_settled-guard (not (flags == 0)) _ _
            (λ _. byte_at-is_settled _ input 3 (ground arith))))))

ensure-is_settled : (input : List ℕ) (n : ℕ) → is_settled (ensure_minimum input n) ≡ true
unfolding ensure_minimum
ensure-is_settled input n = ground arith

ensure_minimum-le :
    (input : List ℕ) (n : ℕ) {u : Unit {0}} → ensure_minimum input n ≡ ok u → n ≤ length input
unfolding ensure_minimum
ensure_minimum-le input n e = ground arith

require-is_settled :
    (n : ℕ) (label : ReferenceField) → is_settled (require_reference n label) ≡ true
unfolding require_reference
require-is_settled n label = ground arith

decode-is_settled : (token : List ℕ) (offset : ℕ) → is_settled (decode_amount token offset) ≡ true
unfolding decode_amount
decode-is_settled [] offset = refl
decode-is_settled (d ∷ rest) offset = is_settled-guard (ltb (suc (length rest)) (d + 2)) _ _ (λ _.
    is_settled-guard (ltb (d + 2) (suc (length rest))) _ _ (λ _.
      is_settled-map_err (amount_error (suc (length rest) + offset)) (parse_cents (d ∷ rest))
        (parse_cents-is_settled (d ∷ rest))))

form-is_settled : (input : List ℕ) (kind : ℕ) → is_settled (deposit_form input kind) ≡ true
unfolding deposit_form linked_form terminal_form
form-is_settled input kind = elim (Bool-cases (kind == deposit_posting_kind)) [
  | inl linked ↦
      rw (linked, deposit_form)
        (is_settled->>= (ensure_minimum input 0x34) _ (ensure-is_settled input 0x34) (λ _ h.
          let room = ensure_minimum-le input 0x34 h in
          is_settled->>= (u32_at input 0x1a) _
            (u32_at-is_settled _ input 0x1a (omega (arith, room)))
            (λ next _.
              is_settled->>= (u32_at input 0x1e) _
                (u32_at-is_settled _ input 0x1e (omega (arith, room))) (λ s _. refl))))
  | inr other ↦ elim (Bool-cases (kind == deposit_terminal_posting_kind)) [
    | inl terminal ↦
        rw (other, deposit_form)
          (rw terminal (
            is_settled->>= (ensure_minimum input 0x30) _ (ensure-is_settled input 0x30) (λ _ h.
              let room = ensure_minimum-le input 0x30 h in
              is_settled->>= (u32_at input 0x1a) _
                (u32_at-is_settled _ input 0x1a (omega (arith, room))) (λ s _. refl))))
    | inr unknown ↦ rw (other, deposit_form) (rw unknown refl)
  ]
]

-- The amount stands inside the row.
form_inside :
    (input : List ℕ) (kind : ℕ) (form : Option ℕ × ℕ × ℕ)
    → deposit_form input kind ≡ ok form
    → form.2 ≤ length input
unfolding deposit_form linked_form terminal_form
form_inside input kind form e = elim (Bool-cases (kind == deposit_posting_kind)) [
  | inl linked ↦
      let (_, h, e1) = >>=-eq-ok (ensure_minimum input 0x34) _ (rw (linked, deposit_form) at e) in
      let (next, _, e2) = >>=-eq-ok (u32_at input 0x1a) _ e1 in
      let (source, _, e3) = >>=-eq-ok (u32_at input 0x1e) _ e2 in
      rw (← ok_injective e3) (omega (arith, ensure_minimum-le input 0x34 h))
  | inr other ↦ elim (Bool-cases (kind == deposit_terminal_posting_kind)) [
    | inl terminal ↦
        let (_, h, e1) =
          >>=-eq-ok (ensure_minimum input 0x30) _
            (rw terminal at (rw (other, deposit_form) at e)) in
        let (source, _, e2) = >>=-eq-ok (u32_at input 0x1a) _ e1 in
        rw (← ok_injective e2) (omega (arith, ensure_minimum-le input 0x30 h))
    | inr unknown ↦ absurd (cc (rw unknown at (rw (other, deposit_form) at e)))
  ]
]

next-is_settled : (o : Option ℕ) → is_settled (require_next o) ≡ true
next-is_settled none = refl
next-is_settled (some n) = require-is_settled n ReferenceField.next_target

from-is_settled :
    (input : List ℕ) (start : ℕ) → start ≤ length input → is_settled (bytes_from input start) ≡ true
unfolding bytes_from
from-is_settled input start h = ground arith

pub parse_deposit-is_settled : (input : List ℕ) → is_settled (parse_deposit input) ≡ true
unfolding parse_deposit
parse_deposit-is_settled input =
    is_settled->>= (check_head input) _ (check_head-is_settled input) (λ kind _.
      is_settled->>= (ensure_minimum input 0x1a) _ (ensure-is_settled input 0x1a) (λ _ h.
        let room = ensure_minimum-le input 0x1a h in
        is_settled->>= (u32_at input 0x08) _ (u32_at-is_settled _ input 0x08 (omega (arith, room)))
          (λ t _.
            is_settled->>= (require_reference t ReferenceField.target) _
              (require-is_settled t ReferenceField.target)
              (λ _ _.
                is_settled->>= (u32_at input 0x0c) _
                  (u32_at-is_settled _ input 0x0c (omega (arith, room)))
                  (λ m _.
                    is_settled->>= (require_reference m ReferenceField.master) _
                      (require-is_settled m ReferenceField.master)
                      (λ _ _.
                        is_settled->>= (u32_at input 0x10) _
                          (u32_at-is_settled _ input 0x10 (omega (arith, room)))
                          (λ a _.
                            is_settled->>= (require_reference a ReferenceField.account) _
                              (require-is_settled a ReferenceField.account)
                              (λ _ _.
                                is_settled->>= (deposit_form input kind) _
                                  (form-is_settled input kind)
                                  (λ form formed.
                                    is_settled->>=
                                      (require_reference form.1 ReferenceField.source_account) _
                                      (require-is_settled form.1 ReferenceField.source_account)
                                      (λ _ _.
                                        is_settled->>= (require_next form.0) _
                                          (next-is_settled form.0)
                                          (λ _ _.
                                            is_settled->>= (bytes_from input form.2) _
                                              (from-is_settled input form.2
                                                (form_inside input kind form formed))
                                              (λ token _.
                                                is_settled->>= (decode_amount token form.2) _
                                                  (decode-is_settled token form.2)
                                                  (λ amount _.
                                                    is_settled->>= (u32_at input 0x14) _
                                                      (u32_at-is_settled _ input 0x14
                                                        (omega (arith, room)))
                                                      (λ date _.
                                                        is_settled->>= (u16_at input 0x18) _
                                                          (u16_at-is_settled _ input 0x18
                                                            (omega (arith, room)))
                                                          (λ view _. refl)))))))))))))))

passed_over-is_settled :
    (m : Outcome DepositError PostingCents)
    → is_settled m ≡ true
    → is_settled (passed_over m) ≡ true
passed_over-is_settled m h = ground arith

module _ (input : List ℕ) (suffix_start : ℕ) (inside : suffix_start ≤ length input) where
  of-is_settled :
      (start n : ℕ) → start + n ≤ length input → is_settled (bytes_of input start n) ≡ true
  unfolding bytes_of slice
  of-is_settled start n h =
      let fits : leb (start + n) (length input) ≡ true = ground arith in
      rw (fits, bytes_of, slice) refl

  tail_candidate-is_settled :
      (digits : ℕ) → is_settled (tail_candidate input suffix_start digits) ≡ true
  unfolding tail_candidate
  tail_candidate-is_settled digits = elim (Bool-cases (ltb suffix_start (digits + 2))) [
    | inl before ↦ rw (before, tail_candidate) refl
    | inr room ↦
        let start = suffix_start - (digits + 2) in
        rw (room, tail_candidate)
          (is_settled->>= (byte_at input start) _ (byte_at-is_settled _ input start (ground arith))
            (λ count _. elim (Bool-cases (not (count == digits))) [
              | inl other ↦ rw other refl
              | inr counts ↦ rw counts (
                  is_settled->>= (bytes_of input start (digits + 2)) _
                    (of-is_settled start (digits + 2) (ground arith))
                    (λ token _.
                      passed_over-is_settled (decode_amount token start)
                        (decode-is_settled token start)))
            ]))
  ]

  tail_candidates-is_settled :
      (counts : List ℕ) → is_settled (tail_candidates input suffix_start counts) ≡ true
  unfolding tail_candidates
  tail_candidates-is_settled [] = refl
  tail_candidates-is_settled (digits ∷ more) =
      is_settled->>= (tail_candidate input suffix_start digits) _ (tail_candidate-is_settled digits)
        (λ o _.
          is_settled->>= (tail_candidates input suffix_start more) _
            (tail_candidates-is_settled more) (λ found _. refl))

account_offset-is_settled : (kind : ℕ) → is_settled (counterpart_account_offset kind) ≡ true
unfolding counterpart_account_offset
account_offset-is_settled kind = ground arith

account_offset-ge : (kind place : ℕ) → counterpart_account_offset kind ≡ ok place → 0x1e ≤ place
unfolding counterpart_account_offset
account_offset-ge kind place e = ground arith

only_amount-is_settled :
    (len : ℕ) (amounts : List PostingCents) → is_settled (only_amount len amounts) ≡ true
only_amount-is_settled len [] = refl
only_amount-is_settled len (a ∷ []) = refl
only_amount-is_settled len (a ∷ b ∷ rest) = refl

pub parse_counterpart-is_settled : (input : List ℕ) → is_settled (parse_counterpart input) ≡ true
unfolding parse_counterpart
parse_counterpart-is_settled input =
    is_settled->>= (check_head input) _ (check_head-is_settled input) (λ kind _.
      is_settled->>= (counterpart_account_offset kind) _ (account_offset-is_settled kind)
        (λ place placed.
          let far = account_offset-ge kind place placed in
          is_settled->>= (ensure_minimum input (place + 11)) _
            (ensure-is_settled input (place + 11))
            (λ _ h.
              let room = ensure_minimum-le input (place + 11) h in
              is_settled->>= (u32_at input 0x0c) _
                (u32_at-is_settled _ input 0x0c (omega (arith, room, far)))
                (λ m _.
                  is_settled->>= (require_reference m ReferenceField.master) _
                    (require-is_settled m ReferenceField.master)
                    (λ _ _.
                      is_settled->>= (u32_at input place) _
                        (u32_at-is_settled _ input place (omega (arith, room)))
                        (λ a _.
                          is_settled->>= (require_reference a ReferenceField.account) _
                            (require-is_settled a ReferenceField.account)
                            (λ _ _.
                              is_settled->>=
                                (tail_candidates input (length input - 5) (4 ∷ 3 ∷ 2 ∷ 1 ∷ 0 ∷ []))
                                _
                                (tail_candidates-is_settled input (length input - 5) (omega arith)
                                  (4 ∷ 3 ∷ 2 ∷ 1 ∷ 0 ∷ []))
                                (λ found _.
                                  is_settled->>= (only_amount (length input) found) _
                                    (only_amount-is_settled (length input) found)
                                    (λ amount _.
                                      is_settled->>= (u32_at input 0x14) _
                                        (u32_at-is_settled _ input 0x14 (omega (arith, room, far)))
                                        (λ date _. refl))))))))))

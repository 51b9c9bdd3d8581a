-- ===== src/Rows/Deposit/Parsed.antt =====
-- What parsed Deposit rows promise, and that their parsers never panic.
use openqbw.Base.{
  sym, ap, ◌∙◌, length-drop, ok_injective, ℕ, suc, ◌+◌, ◌≡◌, ◌≢◌, ◌⊎◌, refl, inl, inr, List, [],
  ◌∷◌, Option, none, ok, map_err-eq-ok, >>=-eq-ok, length, drop, ltb, ◌==◌, arith, Bool-cases,
}
use openqbw.Cents.{PostingCents, parse_cents}
use openqbw.Rows.{u16_at, u32_at, guard-eq-ok}
use openqbw.Rows.Deposit.{
  DepositRow, ReferenceField, ensure_minimum, require_reference, amount_error, decode_amount,
  bytes_from, check_head, linked_form, terminal_form, deposit_form, require_next, parse_deposit,
  deposit_posting_kind, deposit_terminal_posting_kind,
}

pub require_reference-ne-zero :
    (n : ℕ) (label : ReferenceField) {u : Unit {0}} → require_reference n label ≡ ok u → n ≢ 0
unfolding require_reference
require_reference-ne-zero n label e = ground arith

pub decode_amount-parse_cents :
    (token : List ℕ) (offset : ℕ) (amount : PostingCents)
    → decode_amount token offset ≡ ok amount
    → parse_cents token ≡ ok amount
unfolding decode_amount
decode_amount-parse_cents [] offset amount e = absurd (cc e)
decode_amount-parse_cents (d ∷ rest) offset amount e =
    let (_, e1) = guard-eq-ok (ltb (suc (length rest)) (d + 2)) _ _ e in
    let (_, e2) = guard-eq-ok (ltb (d + 2) (suc (length rest))) _ _ e1 in
    map_err-eq-ok (amount_error (suc (length rest) + offset)) (parse_cents (d ∷ rest)) e2

-- A token that is decoded is as long as its first byte says.
pub decode_amount-filled :
    (token : List ℕ) (offset : ℕ) (amount : PostingCents)
    → decode_amount token offset ≡ ok amount
    → (digits : ℕ) × (rest : List ℕ) × (token ≡ digits ∷ rest) × (length rest ≡ digits + 1)
unfolding decode_amount
decode_amount-filled [] offset amount e = absurd (cc e)
decode_amount-filled (d ∷ rest) offset amount e =
    let (long, e1) = guard-eq-ok (ltb (suc (length rest)) (d + 2)) _ _ e in
    let (short, _) = guard-eq-ok (ltb (d + 2) (suc (length rest))) _ _ e1 in
    (d, rest, refl, ground arith)

bytes_from-eq-ok :
    (input : List ℕ) (start : ℕ) (bytes : List ℕ)
    → bytes_from input start ≡ ok bytes
    → bytes ≡ drop start input
unfolding bytes_from
bytes_from-eq-ok input start bytes e = elim (Bool-cases (ltb (length input) start)) [
  | inl behind ↦ cc (rw (behind, bytes_from) at e)
  | inr within ↦ sym (ok_injective (rw (within, bytes_from) at e))
]

deposit_form-place :
    (input : List ℕ) (kind : ℕ) (form : Option ℕ × ℕ × ℕ)
    → deposit_form input kind ≡ ok form
    → (form.2 ≡ 0x32) ⊎ ((form.2 ≡ 0x2e) × (form.0 ≡ none))
unfolding deposit_form linked_form terminal_form
deposit_form-place input kind form e = elim (Bool-cases (kind == deposit_posting_kind)) [
  | inl linked ↦
      let (_, _, e1) = >>=-eq-ok (ensure_minimum input 0x34) _ (rw (linked, deposit_form) at e) in
      let (next, _, e2) = >>=-eq-ok (u32_at input 0x1a) _ e1 in
      let (source, _, e3) = >>=-eq-ok (u32_at input 0x1e) _ e2 in rw (← ok_injective e3) (inl refl)
  | inr other ↦ elim (Bool-cases (kind == deposit_terminal_posting_kind)) [
    | inl terminal ↦
        let (_, _, e1) =
          >>=-eq-ok (ensure_minimum input 0x30) _
            (rw terminal at (rw (other, deposit_form) at e)) in
        let (source, _, e2) = >>=-eq-ok (u32_at input 0x1a) _ e1 in
        rw (← ok_injective e2) (inr (refl, refl))
    | inr unknown ↦ absurd (cc (rw unknown at (rw (other, deposit_form) at e)))
  ]
]

-- What a parsed Deposit row promises of its bytes.
pub record IsDeposit (input : List ℕ) (r : DepositRow) : Type 0 where
  pub some_target : r.target_record_number ≢ 0
  pub some_master : r.master_record_number ≢ 0
  pub some_account : r.account_record_number ≢ 0
  pub some_source : r.source_account_record_number ≢ 0
  pub place : ℕ
  pub form : (place ≡ 0x32) ⊎ ((place ≡ 0x2e) × (r.next_target_record_number ≡ none))
  pub digits : ℕ
  pub rest : List ℕ
  pub stands : drop place input ≡ digits ∷ rest
  pub ends : place + (digits + 2) ≡ length input
  pub reads :
      parse_cents (digits ∷ rest)
      ≡ ok (record { signed_cents = r.signed_cents; canonical_zero = r.canonical_zero_amount })

built-IsDeposit :
    (input : List ℕ) (r : DepositRow) (kind t m a date view : ℕ) (form : Option ℕ × ℕ × ℕ)
    (token : List ℕ) (amount : PostingCents) {u v w x : Unit {0}}
    → require_reference t ReferenceField.target ≡ ok u
    → require_reference m ReferenceField.master ≡ ok v
    → require_reference a ReferenceField.account ≡ ok w
    → require_reference form.1 ReferenceField.source_account ≡ ok x
    → deposit_form input kind ≡ ok form
    → bytes_from input form.2 ≡ ok token
    → decode_amount token form.2 ≡ ok amount
    → record {
      target_record_number = t;
      master_record_number = m;
      account_record_number = a;
      date_raw = date;
      view_type = view;
      next_target_record_number = form.0;
      source_account_record_number = form.1;
      signed_cents = amount.signed_cents;
      canonical_zero_amount = amount.canonical_zero;
    }
      ≡ r
    → IsDeposit input r
built-IsDeposit input r kind t m a date view form token amount has_t has_m has_a has_s formed cut
      decoded same =
    let (digits, rest, begins, filled) = decode_amount-filled token form.2 amount decoded in
    let stands = sym (bytes_from-eq-ok input form.2 token cut) ∙ begins in
    rw (← same) (record {
      some_target = require_reference-ne-zero t ReferenceField.target has_t;
      some_master = require_reference-ne-zero m ReferenceField.master has_m;
      some_account = require_reference-ne-zero a ReferenceField.account has_a;
      some_source = require_reference-ne-zero form.1 ReferenceField.source_account has_s;
      place = form.2;
      form = deposit_form-place input kind form formed;
      digits = digits;
      rest = rest;
      stands = stands;
      ends = omega (arith, ap length stands, length-drop form.2 input, filled);
      reads = rw (← begins) (decode_amount-parse_cents token form.2 amount decoded);
    })

-- A Deposit row that is parsed names a target, a transaction, an account and a source account by
-- numbers other than zero; its amount is the token from one of two places to the end of the row, whose
-- first byte counts its digits and which is that many digits and two bytes long. A row whose amount
-- stands at the first of the places, byte 46, has no next target.
pub parse_deposit-IsDeposit :
    (input : List ℕ) (r : DepositRow) → parse_deposit input ≡ ok r → IsDeposit input r
unfolding parse_deposit
parse_deposit-IsDeposit input r e =
    let (kind, _, e1) = >>=-eq-ok (check_head input) _ e in
    let (_, _, e2) = >>=-eq-ok (ensure_minimum input 0x1a) _ e1 in
    let (t, _, e3) = >>=-eq-ok (u32_at input 0x08) _ e2 in
    let (_, has_t, e4) = >>=-eq-ok (require_reference t ReferenceField.target) _ e3 in
    let (m, _, e5) = >>=-eq-ok (u32_at input 0x0c) _ e4 in
    let (_, has_m, e6) = >>=-eq-ok (require_reference m ReferenceField.master) _ e5 in
    let (a, _, e7) = >>=-eq-ok (u32_at input 0x10) _ e6 in
    let (_, has_a, e8) = >>=-eq-ok (require_reference a ReferenceField.account) _ e7 in
    let (form, formed, e9) = >>=-eq-ok (deposit_form input kind) _ e8 in
    let (_, has_s, f1) = >>=-eq-ok (require_reference form.1 ReferenceField.source_account) _ e9 in
    let (_, _, f2) = >>=-eq-ok (require_next form.0) _ f1 in
    let (token, cut, f3) = >>=-eq-ok (bytes_from input form.2) _ f2 in
    let (amount, decoded, f4) = >>=-eq-ok (decode_amount token form.2) _ f3 in
    let (date, _, f5) = >>=-eq-ok (u32_at input 0x14) _ f4 in
    let (view, _, f6) = >>=-eq-ok (u16_at input 0x18) _ f5 in
    built-IsDeposit input r kind t m a date view form token amount has_t has_m has_a has_s formed
      cut decoded (ok_injective f6)

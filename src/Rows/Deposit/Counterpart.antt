-- ===== src/Rows/Deposit/Counterpart.antt =====
-- What a parsed Deposit counterpart promises.
use openqbw.Base.{
  ok_injective, ap, ◌∙◌, Has, ℕ, ◌+◌, ◌-◌, ◌≡◌, ◌≢◌, ◌≤◌, refl, not, inl, inr, List, [], ◌∷◌,
  Option, none, some, Outcome, ok, >>=-eq-ok, length, All, ltb, ◌==◌, arith, Bool-cases,
  Option-cases,
}
use openqbw.Cents.{PostingCents}
use openqbw.Rows.{byte_at, u32_at, slice, eq_of_guard}
use openqbw.Rows.BillLine.Amount.{IsToken, IsToken-of_bytes}
use openqbw.Rows.Deposit.{
  CounterpartRow, ReferenceField, DepositError, ensure_minimum, require_reference, decode_amount,
  bytes_of, check_head, passed_over, tail_candidate, push_amount, tail_candidates, only_amount,
  counterpart_account_offset, parse_counterpart,
}
use openqbw.Rows.Deposit.Unique.{tail_candidates-alone, tail_candidate-of_token}
use openqbw.Rows.Deposit.Parsed.{require_reference-ne-zero, decode_amount-parse_cents}

-- The amounts are read from tokens that end at `suffix_start`.
abbrev AllAmounts : List ℕ → ℕ → List PostingCents → Type 0
AllAmounts input suffix_start amounts = All (IsToken input suffix_start) amounts

abbrev HeldToken : List ℕ → ℕ → Option PostingCents → Type 0
HeldToken input suffix_start none = Unit
HeldToken input suffix_start (some amount) = IsToken input suffix_start amount

passed_over-eq-some :
    (m : Outcome DepositError PostingCents) (amount : PostingCents)
    → passed_over m ≡ ok (some amount)
    → m ≡ ok amount
passed_over-eq-some m amount e = ground arith

bytes_of-eq-ok :
    (input : List ℕ) (start n : ℕ) (bytes : List ℕ)
    → bytes_of input start n ≡ ok bytes
    → slice input start n ≡ some bytes
unfolding bytes_of
bytes_of-eq-ok input start n bytes e = elim (Option-cases (slice input start n)) [
  | inl short ↦ cc (rw (short, bytes_of) at e)
  | inr (found, cut) ↦ cc (cut, rw (cut, bytes_of) at e)
]

tail_candidate-IsToken :
    (input : List ℕ) (suffix_start digits : ℕ) (o : Option PostingCents)
    → digits ≤ 4
    → tail_candidate input suffix_start digits ≡ ok o
    → HeldToken input suffix_start o
unfolding tail_candidate
tail_candidate-IsToken input suffix_start digits none few e = tt
tail_candidate-IsToken input suffix_start digits (some amount) few e =
    elim (Bool-cases (ltb suffix_start (digits + 2))) [
      | inl before ↦ absurd (cc (rw (before, tail_candidate) at e))
      | inr room ↦
          let (count, counted, e1) =
            >>=-eq-ok (byte_at input (suffix_start - (digits + 2))) _
              (rw (room, tail_candidate) at e) in
          elim (Bool-cases (not (count == digits))) [
            | inl other ↦ absurd (cc (rw other at e1))
            | inr counts ↦
                let (token, cut, e2) =
                  >>=-eq-ok (bytes_of input (suffix_start - (digits + 2)) (digits + 2)) _
                    (rw counts at e1) in
                IsToken-of_bytes input suffix_start digits token amount few (ground arith)
                  (counted ∙ ap ok (eq_of_guard count digits counts))
                  (bytes_of-eq-ok input (suffix_start - (digits + 2)) (digits + 2) token cut)
                  (decode_amount-parse_cents token (suffix_start - (digits + 2)) amount (
                    passed_over-eq-some (decode_amount token (suffix_start - (digits + 2))) amount
                      e2))
          ]
    ]

push_amount-AllAmounts :
    (input : List ℕ) (suffix_start : ℕ) (o : Option PostingCents) (amounts : List PostingCents)
    → HeldToken input suffix_start o
    → AllAmounts input suffix_start amounts
    → AllAmounts input suffix_start (push_amount o amounts)
push_amount-AllAmounts input suffix_start none amounts h t = t
push_amount-AllAmounts input suffix_start (some amount) amounts h t = (h, t)

tail_candidates-AllAmounts :
    (input : List ℕ) (suffix_start : ℕ) (counts : List ℕ) (amounts : List PostingCents)
    → All (λ n. n ≤ 4) counts
    → tail_candidates input suffix_start counts ≡ ok amounts
    → AllAmounts input suffix_start amounts
unfolding tail_candidates
tail_candidates-AllAmounts input suffix_start [] amounts h e =
    let nothing : amounts ≡ [] = cc e in rw nothing tt
tail_candidates-AllAmounts input suffix_start (digits ∷ more) amounts h e =
    let (o, here, e1) = >>=-eq-ok (tail_candidate input suffix_start digits) _ e in
    let (later, rest, e2) = >>=-eq-ok (tail_candidates input suffix_start more) _ e1 in
    rw (← ok_injective e2) (
      push_amount-AllAmounts input suffix_start o later
        (tail_candidate-IsToken input suffix_start digits o h.0 here)
        (tail_candidates-AllAmounts input suffix_start more later h.1 rest))

only_amount-IsToken :
    (input : List ℕ) (suffix_start len : ℕ) (amounts : List PostingCents) (amount : PostingCents)
    → AllAmounts input suffix_start amounts
    → only_amount len amounts ≡ ok amount
    → (amounts ≡ amount ∷ []) × IsToken input suffix_start amount
only_amount-IsToken input suffix_start len [] amount h e = absurd (cc e)
only_amount-IsToken input suffix_start len (a ∷ []) amount h e = rw (← ok_injective e) (refl, h.0)
only_amount-IsToken input suffix_start len (a ∷ b ∷ rest) amount h e = absurd (cc e)

-- What a parsed counterpart promises of its bytes.
pub record IsCounterpart (input : List ℕ) (r : CounterpartRow) : Type 0 where
  pub some_master : r.master_record_number ≢ 0
  pub some_account : r.account_record_number ≢ 0
  pub amount_end : ℕ
  pub ends : amount_end + 5 ≡ length input
  pub amount : PostingCents
  pub shown :
      amount ≡ record { signed_cents = r.signed_cents; canonical_zero = r.canonical_zero_amount }
  pub token : IsToken input amount_end amount
  pub unique :
      (b : PostingCents) (t : IsToken input amount_end b) → (t.digits ≡ token.digits) × (b ≡ amount)

among : (n : ℕ) → n ≤ 4 → Has n (4 ∷ 3 ∷ 2 ∷ 1 ∷ 0 ∷ [])
among n h = ground arith

built-IsCounterpart :
    (input : List ℕ) (r : CounterpartRow) (kind m a date : ℕ) (found : List PostingCents)
    (amount : PostingCents) {u v : Unit {0}}
    → require_reference m ReferenceField.master ≡ ok u
    → require_reference a ReferenceField.account ≡ ok v
    → tail_candidates input (length input - 5) (4 ∷ 3 ∷ 2 ∷ 1 ∷ 0 ∷ []) ≡ ok found
    → only_amount (length input) found ≡ ok amount
    → record {
      master_record_number = m;
      account_record_number = a;
      date_raw = date;
      kind = kind;
      signed_cents = amount.signed_cents;
      canonical_zero_amount = amount.canonical_zero;
    }
      ≡ r
    → IsCounterpart input r
built-IsCounterpart input r kind m a date found amount has_m has_a search picked same =
    let all =
      tail_candidates-AllAmounts input (length input - 5) (4 ∷ 3 ∷ 2 ∷ 1 ∷ 0 ∷ []) found
        (omega arith, (omega arith, (omega arith, (omega arith, (omega arith, tt))))) search in
    let (alone, token) =
      only_amount-IsToken input (length input - 5) (length input) found amount all picked in
    let counts : List ℕ = 4 ∷ 3 ∷ 2 ∷ 1 ∷ 0 ∷ [] in
    let one : tail_candidates input (length input - 5) counts ≡ ok (amount ∷ []) =
      search ∙ ap ok alone in
    rw (← same) (record {
      some_master = require_reference-ne-zero m ReferenceField.master has_m;
      some_account = require_reference-ne-zero a ReferenceField.account has_a;
      amount_end = length input - 5;
      ends = omega (arith, token.ends);
      amount = amount;
      shown = refl;
      token = token;
      unique = λ b t.
          tail_candidates-alone input (length input - 5) t.digits b token.digits amount amount
            (tail_candidate-of_token input (length input - 5) b t)
            (tail_candidate-of_token input (length input - 5) amount token) counts one
            (among t.digits t.few) (among token.digits token.few);
    })

-- A Deposit counterpart that is parsed names a transaction and an account by numbers other than zero.
-- Its amount is read from a token that ends five bytes before its end, whose first byte counts its
-- digits, four at most. No other token of that form with an amount ends there: each has the same number
-- of digits, so the same place, and the same amount.
pub parse_counterpart-IsCounterpart :
    (input : List ℕ) (r : CounterpartRow) → parse_counterpart input ≡ ok r → IsCounterpart input r
unfolding parse_counterpart
parse_counterpart-IsCounterpart input r e =
    let (kind, _, e1) = >>=-eq-ok (check_head input) _ e in
    let (place, _, e2) = >>=-eq-ok (counterpart_account_offset kind) _ e1 in
    let (_, _, e3) = >>=-eq-ok (ensure_minimum input (place + 11)) _ e2 in
    let (m, _, e4) = >>=-eq-ok (u32_at input 0x0c) _ e3 in
    let (_, has_m, e5) = >>=-eq-ok (require_reference m ReferenceField.master) _ e4 in
    let (a, _, e6) = >>=-eq-ok (u32_at input place) _ e5 in
    let (_, has_a, e7) = >>=-eq-ok (require_reference a ReferenceField.account) _ e6 in
    let (found, search, e8) =
      >>=-eq-ok (tail_candidates input (length input - 5) (4 ∷ 3 ∷ 2 ∷ 1 ∷ 0 ∷ [])) _ e7 in
    let (amount, picked, e9) = >>=-eq-ok (only_amount (length input) found) _ e8 in
    let (date, _, f1) = >>=-eq-ok (u32_at input 0x14) _ e9 in
    built-IsCounterpart input r kind m a date found amount has_m has_a search picked
      (ok_injective f1)

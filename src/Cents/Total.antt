-- ===== src/Cents/Total.antt =====
-- The parser of a cents token ends without a panic.
use openqbw.Base.{
  ℕ, zero, suc, ◌-◌, ◌*◌, ◌≡◌, refl, true, not, ◌&&◌, inl, inr, List, [], ◌∷◌, is_settled,
  is_settled->>=, leb, ◌==◌, arith, Bool-cases, Option-cases,
}
use openqbw.Cents.{
  parse_cents, cents_from_parts, read_digits, scale, take_exact, checked, cents_exponent_marker,
  max_observed_exponent_marker, canonical_zero_marker,
}
use Prim.Native.Nat.{bit_and}

read_digits-is_settled : (ds : List ℕ) → is_settled (read_digits ds) ≡ true
unfolding read_digits
read_digits-is_settled [] = refl
read_digits-is_settled (d ∷ ds) =
    is_settled->>= (read_digits ds) _ (read_digits-is_settled ds) (λ m e. ground arith)

scale-is_settled : (n m : ℕ) → is_settled (scale n m) ≡ true
unfolding scale
scale-is_settled zero m = refl
scale-is_settled (suc n) m =
    is_settled->>= (checked (m * 100)) _ (ground arith) (λ v e. scale-is_settled n v)

cents_from_parts-is_settled :
    (marker : ℕ) (values : List ℕ) → is_settled (cents_from_parts marker values) ≡ true
unfolding cents_from_parts
cents_from_parts-is_settled marker values =
    let refused = not (
      leb cents_exponent_marker (bit_and marker 0x7f)
      && leb (bit_and marker 0x7f) max_observed_exponent_marker) in
    elim (Bool-cases refused) [
      | inl bad ↦ rw (bad, cents_from_parts) refl
      | inr fits ↦
          let rounds = bit_and marker 0x7f - cents_exponent_marker in
          rw (fits, cents_from_parts)
            (is_settled->>= (read_digits values) _ (read_digits-is_settled values)
              (λ m _. is_settled->>= (scale rounds m) _ (scale-is_settled rounds m) (λ v _. refl)))
    ]

pub parse_cents-is_settled : (token : List ℕ) → is_settled (parse_cents token) ≡ true
unfolding parse_cents
parse_cents-is_settled [] = refl
parse_cents-is_settled (a ∷ []) = refl
parse_cents-is_settled (a ∷ b ∷ rest) = elim (Bool-cases (a == 0)) [
  | inl zero_token ↦ elim (Bool-cases (b == canonical_zero_marker)) [
    | inl canonical ↦ rw (zero_token, parse_cents) (rw canonical refl)
    | inr other ↦ rw (zero_token, parse_cents) (rw other refl)
  ]
  | inr some_digits ↦ elim (Option-cases (take_exact a rest)) [
    | inl short ↦ rw (some_digits, parse_cents) (rw short refl)
    | inr (values, cut) ↦
        rw (some_digits, parse_cents) (rw cut (cents_from_parts-is_settled b values))
  ]
]

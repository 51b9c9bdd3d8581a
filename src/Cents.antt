-- ===== src/Cents.antt =====
-- crates/openqbw/src/materialized_numeric.rs: the base-100 cents tokens of posting rows.
pub mod Digits
pub mod Total
use openqbw.Base.{
  ℕ, zero, suc, ◌+◌, ◌*◌, ◌-◌, ◌^◌, List, [], ◌∷◌, Option, none, some, Outcome, ok, err, ◌>>=◌,
  Bool, true, false, not, ◌&&◌, ◌==◌, leb, ltb, length, if◌then◌else◌,
}
use openqbw.Base.Int.{ℤ, pos, neg}
use Prim.Native.Nat.{bit_and}

abbrev pub cents_exponent_marker : ℕ
cents_exponent_marker = 0x3f

abbrev pub max_observed_exponent_marker : ℕ
max_observed_exponent_marker = 0x45

abbrev pub canonical_zero_marker : ℕ
canonical_zero_marker = 0x81

pub record PostingCents : Type 0 where
  pub signed_cents : ℤ
  pub canonical_zero : Bool

pub data PostingCentsError : Type 0 where
  token_too_short : ℕ → PostingCentsError
  digits_outside_token : ℕ → ℕ → PostingCentsError
  unsupported_zero_marker unsupported_marker invalid_base100_digit : ℕ → PostingCentsError
  cents_overflow : PostingCentsError

-- An i64 that is not negative, after a checked operation.
abbrev pub checked : ℕ → Outcome PostingCentsError ℕ
checked value = if leb value (2 ^ 63 - 1) then ok value else err cents_overflow

-- The loop over the digits, from the last to the first.
unfoldable pub read_digits : List ℕ → Outcome PostingCentsError ℕ
read_digits [] = ok 0
read_digits (digit ∷ rest) = do
  magnitude ← read_digits rest
  if ltb 99 digit
      then err (invalid_base100_digit digit)
      else do scaled ← checked (magnitude * 100); checked (scaled + digit)

-- The loop that scales by the exponent.
unfoldable pub scale : ℕ → ℕ → Outcome PostingCentsError ℕ
scale zero magnitude = ok magnitude
scale (suc rounds) magnitude = checked (magnitude * 100) >>= scale rounds

unfoldable pub cents_from_parts : ℕ → List ℕ → Outcome PostingCentsError PostingCents
unfolding read_digits scale neg
cents_from_parts marker values =
    let exponent_marker = bit_and marker 0x7f in
    let negative = bit_and marker 0x80 == 0 in
    if not (
      leb cents_exponent_marker exponent_marker && leb exponent_marker max_observed_exponent_marker)
    then err (unsupported_marker marker)
    else do
      magnitude ← read_digits values
      scaled ← scale (exponent_marker - cents_exponent_marker) magnitude
      ok (record {
        signed_cents = if negative then neg (pos scaled) else pos scaled;
        canonical_zero = false;
      })

abbrev pub zero_cents : PostingCents
zero_cents = record { signed_cents = pos 0; canonical_zero = true }

-- `input.get(2..end)`, of what stands behind the two head bytes.
unfoldable pub take_exact : ℕ → List ℕ → Option (List ℕ)
take_exact zero bytes = some []
take_exact (suc n) [] = none
take_exact (suc n) (b ∷ bytes) = elim (take_exact n bytes) [
  | none ↦ none
  | some found ↦ some (b ∷ found)
]

unfoldable pub parse_cents : List ℕ → Outcome PostingCentsError PostingCents
unfolding cents_from_parts take_exact
parse_cents [] = err (token_too_short 0)
parse_cents (b ∷ []) = err (token_too_short 1)
parse_cents (digits ∷ marker ∷ rest) =
    if digits == 0
    then if marker == canonical_zero_marker
      then ok zero_cents
      else err (unsupported_zero_marker marker)
    else elim (take_exact digits rest) [
      | none ↦ err (digits_outside_token digits (suc (suc (length rest))))
      | some values ↦ cents_from_parts marker values
    ]

-- ===== src/Base/Text/Decimal.antt =====
-- The decimal notation of `i64`: `to_string` and `str::parse`.
pub mod RoundTrip
use openqbw.Base.{
  ℕ, zero, suc, ◌+◌, ◌*◌, ◌/◌, ◌%◌, ◌^◌, ◌-◌, ◌≤◌, ◌<◌, ◌≡◌, refl, arith, [], ◌∷◌, Option, none,
  some, Bool-cases, inl, inr, ltb, leb, ◌==◌, if◌then◌else◌,
}
use openqbw.Base.Int.{ℤ, pos, negsuc, neg, IsI64}
use openqbw.Base.Text.{Text}
use openqbw.Base.Text.Strings.{is_ascii_digit}

-- The digits of `n` before `later`. Each round divides by ten, so `suc n` rounds are enough.
unfoldable pub digits_before : ℕ → ℕ → Text → Text
digits_before zero n later = later
digits_before (suc fuel) n later =
    let more = digits_before fuel (n / 10) ((48 + n % 10) ∷ later) in
    if ltb n 10 then (48 + n) ∷ later else more

unfoldable pub nat_to_string : ℕ → Text
unfolding digits_before
nat_to_string n = digits_before (suc n) n []

unfoldable pub i64_to_string : ℤ → Text
i64_to_string (pos n) = nat_to_string n
i64_to_string (negsuc n) = 45 ∷ nat_to_string (suc n)

-- The number that the digits denote after `value`; `none` at another character.
unfoldable pub read_decimal : ℕ → Text → Option ℕ
read_decimal value [] = some value
read_decimal value (c ∷ s) =
    let rest = read_decimal (value * 10 + (c - 48)) s in if is_ascii_digit c then rest else none

-- A digit string with at least one digit.
unfoldable pub read_number : Text → Option ℕ
unfolding read_decimal
read_number [] = none
read_number (c ∷ s) = read_decimal 0 (c ∷ s)

abbrev pub up_to : ℕ → Option ℕ → Option ℕ
up_to limit none = none
up_to limit (some n) = if leb n limit then some n else none

abbrev pub signed_with : (ℕ → ℤ) → Option ℕ → Option ℤ
signed_with sign none = none
signed_with sign (some n) = some (sign n)

-- `text.parse::<i64>().ok()`
unfoldable pub parse_i64 : Text → Option ℤ
unfolding neg
parse_i64 [] = none
parse_i64 (c ∷ s) =
    if c == 45
    then signed_with (λ n. neg (pos n)) (up_to (2 ^ 63) (read_number s))
    else if c == 43
    then signed_with pos (up_to (2 ^ 63 - 1) (read_number s))
    else signed_with pos (up_to (2 ^ 63 - 1) (read_number (c ∷ s)))

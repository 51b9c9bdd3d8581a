-- ===== src/Base/Text/Decimal/RoundTrip.antt =====
-- A printed number is read back.
use openqbw.Base.{
  ℕ, zero, suc, ◌+◌, ◌*◌, ◌/◌, ◌%◌, ◌^◌, ◌-◌, ◌≤◌, ◌<◌, ◌≡◌, ◌==◌, refl, ◌∙◌, arith, false, [], ◌∷◌,
  All, some, Bool-cases, inl, inr, ltb,
}
use openqbw.Base.Int.{ℤ, pos, negsuc, IsI64}
use mathlib.Core.Path.{subst}
use openqbw.Base.Text.{Text}
use openqbw.Base.Text.Decimal.{
  digits_before, nat_to_string, i64_to_string, read_decimal, read_number, up_to, parse_i64,
}

abbrev pub IsDigit : ℕ → Type 0
IsDigit c = (48 ≤ c) × (c ≤ 57)

-- Reading the digits written before `later` comes to the number, and goes on with `later`.
read_decimal-digits_before :
    (fuel n : ℕ) (later : Text)
    → n < fuel
    → read_decimal 0 (digits_before fuel n later) ≡ read_decimal n later
unfolding read_decimal digits_before
read_decimal-digits_before zero n later h = absurd (omega arith)
read_decimal-digits_before (suc fuel) n later h = elim (Bool-cases (ltb n 10)) [
  | inl small ↦ ground arith
  | inr large ↦
      let value : n / 10 * 10 + (48 + n % 10 - 48) ≡ n = omega arith in
      rw large (
        read_decimal-digits_before fuel (n / 10) ((48 + n % 10) ∷ later) (ground arith)
        ∙ ground arith)
]

digits_before-IsDigit :
    (fuel n : ℕ) (later : Text) → All IsDigit later → All IsDigit (digits_before fuel n later)
unfolding digits_before
digits_before-IsDigit zero n later h = h
digits_before-IsDigit (suc fuel) n later h = elim (Bool-cases (ltb n 10)) [
  | inl small ↦ rw small (ground arith, h)
  | inr large ↦
      rw large (digits_before-IsDigit fuel (n / 10) ((48 + n % 10) ∷ later) (omega arith, h))
]

pub nat_to_string-IsDigit : (n : ℕ) → All IsDigit (nat_to_string n)
unfolding nat_to_string
nat_to_string-IsDigit n = digits_before-IsDigit (suc n) n [] tt

digits_before_cons :
    (fuel n d : ℕ) (later : Text)
    → (c : ℕ) × (s : Text) × (digits_before fuel n (d ∷ later) ≡ c ∷ s)
unfolding digits_before
digits_before_cons zero n d later = (d, later, refl)
digits_before_cons (suc fuel) n d later = elim (Bool-cases (ltb n 10)) [
  | inl small ↦ (48 + n, d ∷ later, rw small)
  | inr large ↦ rw large (digits_before_cons fuel (n / 10) (48 + n % 10) (d ∷ later))
]

first_digit : (n : ℕ) → (c : ℕ) × (s : Text) × (nat_to_string n ≡ c ∷ s)
unfolding nat_to_string digits_before
first_digit n = elim (Bool-cases (ltb n 10)) [
  | inl small ↦ (48 + n, [], rw small)
  | inr large ↦ rw large (digits_before_cons n (n / 10) (48 + n % 10) [])
]

-- A printed number has a first digit.
pub nat_to_string_cons : (n : ℕ) → (c : ℕ) × (s : Text) × (nat_to_string n ≡ c ∷ s) × IsDigit c
nat_to_string_cons n =
    let (c, s, e) = first_digit n in (c, s, e, (subst (All IsDigit) e (nat_to_string-IsDigit n)).0)

pub read_number-nat_to_string : (n : ℕ) → read_number (nat_to_string n) ≡ some n
unfolding read_number
read_number-nat_to_string n =
    let (c, s, e) = first_digit n in
    let whole : read_decimal 0 (nat_to_string n) ≡ some n =
      unfold nat_to_string read_decimal in read_decimal-digits_before (suc n) n [] (omega arith) in
    rw e (rw e at whole)

up_to-some : (limit n : ℕ) → n ≤ limit → up_to limit (some n) ≡ some n
up_to-some limit n h = ground arith

pub parse_i64-nat_to_string : (n : ℕ) → n ≤ 2 ^ 63 - 1 → parse_i64 (nat_to_string n) ≡ some (pos n)
unfolding parse_i64
parse_i64-nat_to_string n h =
    let (c, s, e, digit) = nat_to_string_cons n in
    let whole = rw e at (read_number-nat_to_string n) in
    let not_minus : (c == 45) ≡ false = ground arith in
    let not_plus : (c == 43) ≡ false = ground arith in
    rw e (rw not_minus (rw not_plus (rw whole (rw (up_to-some (2 ^ 63 - 1) n h)))))

pub parse_i64-i64_to_string : (a : ℤ) → IsI64 a → parse_i64 (i64_to_string a) ≡ some a
unfolding i64_to_string
parse_i64-i64_to_string (pos n) h = parse_i64-nat_to_string n h.0
parse_i64-i64_to_string (negsuc n) h =
    unfold parse_i64 in
    rw (read_number-nat_to_string (suc n)) (rw (up_to-some (2 ^ 63) (suc n) h.1) (ground arith))

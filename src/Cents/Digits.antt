-- ===== src/Cents/Digits.antt =====
-- The magnitude that the digits of a cents token denote.
use openqbw.Base.{
  ℕ, ◌+◌, ◌*◌, ◌^◌, ◌-◌, ◌≤◌, ◌≡◌, ◌↔◌, List, [], ◌∷◌, ok, err, ◌>>=◌, >>=-eq-ok, All, arith, refl,
  ltb, if◌then◌else◌,
}
use openqbw.Cents.{invalid_base100_digit, checked, read_digits}

-- A little-endian number in base 100.
abbrev pub base100 : List ℕ → ℕ
base100 [] = 0
base100 (digit ∷ rest) = digit + 100 * base100 rest

digit_step :
    (d v m : ℕ)
    → ((if ltb 99 d
          then err (invalid_base100_digit d)
          else (checked (v * 100) >>= λ scaled. checked (scaled + d)))
        ≡ ok m)
      ↔ ((d ≤ 99) × (m ≡ d + 100 * v) × (d + 100 * v ≤ 2 ^ 63 - 1))
digit_step d v m = (λ h. ground arith, λ h. ground arith)

-- The loop over the digits succeeds exactly on digits below 100 whose base-100 number fits in an i64,
-- and yields that number.
pub read_digits-iff-base100 :
    (digits : List ℕ) (magnitude : ℕ)
    → (read_digits digits ≡ ok magnitude)
      ↔ (All (λ d. d ≤ 99) digits × (magnitude ≡ base100 digits) × (base100 digits ≤ 2 ^ 63 - 1))
unfolding read_digits
read_digits-iff-base100 [] m = (λ h. ground arith, λ h. ground arith)
read_digits-iff-base100 (d ∷ rest) m = (
  λ h.
      let (v, read, e) = >>=-eq-ok (read_digits rest) _ h in
      let (valid, same, _) = (read_digits-iff-base100 rest v).0 read in
      let (small, total, fits) = (digit_step d v m).0 e in
      ((small, valid), rw (← same) total, rw (← same) fits),
  λ h.
      let read =
        (read_digits-iff-base100 rest (base100 rest)).1 (h.0.1, refl, omega (arith, h.2)) in
      rw read ((digit_step d (base100 rest) m).1 (h.0.0, h.1, h.2)),
)

-- ===== src/Dates/PostingDate/Count.antt =====
-- The day number by the year that begins in March, and its step over a year's end.
use openqbw.Base.{ℕ, ◌+◌, ◌-◌, ◌*◌, ◌/◌, ◌%◌, ◌≤◌, ◌<◌, ◌≡◌, arith, ◌⊎◌}
use openqbw.Base.Int.{
  ℤ, pos, pos_part, neg_part, ◌+ℤ◌, ◌-ℤ◌, int_laws, +ℤ_parts, -ℤ_parts, eq_of_parts,
}
use openqbw.Dates.PostingDate.{scale, era, year_of_era, rem_euclid, days_in_month, day_of_era}
use openqbw.Dates.PostingDate.Eras.{
  scale_parts, era_parts, year_of_era-rem_euclid, rem_euclid_parts,
}

-- The day number in terms of the year that begins in March.
abbrev pub number : ℤ → ℕ → ℤ
number s day =
    scale (era s) 146_097 +ℤ pos (day_of_era (year_of_era s) day) -ℤ pos 719_468 +ℤ pos 135_081

pub number-suc : (s : ℤ) (day : ℕ) → number s (day + 1) ≡ number s day +ℤ pos 1
unfolding day_of_era
number-suc s day = omega int_laws

-- What the number is worth, without subtraction.
number_parts :
    (s : ℤ) (day : ℕ)
    → let r = rem_euclid s 400 in
      pos_part (number s day) + 146_097 * neg_part (era s) + 584_387
      ≡ neg_part (number s day) + 146_097 * pos_part (era s) + (r * 365 + r / 4 - r / 100 + day)
unfolding day_of_era
number_parts s day = rw (year_of_era-rem_euclid s) (omega (int_laws, scale_parts (era s) 146_097))

-- From one year to the next, the place in the era goes up by one, or the era does.
next_era :
    (y : ℤ)
    → let s = y -ℤ pos 1 in
      ((rem_euclid y 400 ≡ rem_euclid s 400 + 1)
        × (pos_part (era y) + neg_part (era s) ≡ neg_part (era y) + pos_part (era s)))
      ⊎ ((rem_euclid y 400 ≡ 0)
          × (rem_euclid s 400 ≡ 399)
          × (pos_part (era y) + neg_part (era s) ≡ neg_part (era y) + pos_part (era s) + 1))
next_era y = ground (arith, era_parts y, era_parts (y -ℤ pos 1), -ℤ_parts y (pos 1))

-- The length of February.
february :
    (y : ℤ)
    → let r = rem_euclid y 400 in
      ((days_in_month y 2 ≡ 29) × (r % 4 ≡ 0) × ((1 ≤ r % 100) ⊎ (r ≡ 0)))
      ⊎ ((days_in_month y 2 ≡ 28) × ((1 ≤ r % 4) ⊎ ((r % 100 ≡ 0) × (1 ≤ r))))
unfolding days_in_month
february y = ground (arith, rem_euclid_parts y)

-- The count of days over a year's end, on the parts.
days_over :
    (r q e f n : ℕ)
    → r < 400
    → q < 400
    → ((r ≡ q + 1) × (e ≡ f)) ⊎ ((r ≡ 0) × (q ≡ 399) × (e ≡ f + 1))
    → ((n ≡ 29) × (r % 4 ≡ 0) × ((1 ≤ r % 100) ⊎ (r ≡ 0)))
      ⊎ ((n ≡ 28) × ((1 ≤ r % 4) ⊎ ((r % 100 ≡ 0) × (1 ≤ r))))
    → 146_097 * e + (r * 365 + r / 4 - r / 100)
      ≡ 146_097 * f + (q * 365 + q / 4 - q / 100 + (336 + n)) + 1
days_over r q e f n hr hq step leap = ground arith

-- The first of March follows the last day of February.
pub number_march : (y : ℤ) → number y 0 ≡ number (y -ℤ pos 1) (336 + days_in_month y 2) +ℤ pos 1
number_march y =
    let s = y -ℤ pos 1 in
    let n = days_in_month y 2 in
    let counted =
      days_over (rem_euclid y 400) (rem_euclid s 400) (pos_part (era y) + neg_part (era s))
        (neg_part (era y) + pos_part (era s)) n (era_parts y).1 (era_parts s).1 (next_era y)
        (february y) in
    eq_of_parts (number y 0) (number s (336 + n) +ℤ pos 1) (
      omega (
        arith,
        counted,
        number_parts y 0,
        number_parts s (336 + n),
        +ℤ_parts (number s (336 + n)) (pos 1),
      ))

-- ===== src/Dates/PostingDate/Eras.antt =====
-- Eras of 400 years: a year is its era's first year and its place in the era.
use openqbw.Base.{ℕ, ◌+◌, ◌*◌, ◌%◌, ◌<◌, ◌≡◌, arith}
use openqbw.Base.Int.{ℤ, pos, negsuc, pos_part, neg_part, neg, ◌-ℤ◌}
use openqbw.Dates.PostingDate.{scale, era, year_of_era, rem_euclid}

pub scale_parts :
    (a : ℤ) (n : ℕ) → pos_part (scale a n) + neg_part a * n ≡ neg_part (scale a n) + pos_part a * n
unfolding scale
scale_parts a n = ground arith

-- The place in the era is a Euclidean remainder.
pub year_of_era-rem_euclid : (y : ℤ) → year_of_era y ≡ rem_euclid y 400
unfolding era year_of_era rem_euclid scale ◌-ℤ◌ neg
year_of_era-rem_euclid (pos n) = ground arith
year_of_era-rem_euclid (negsuc n) = ground arith

pub era_parts :
    (y : ℤ)
    → (pos_part y + 400 * neg_part (era y) ≡ neg_part y + 400 * pos_part (era y) + rem_euclid y 400)
      × (rem_euclid y 400 < 400)
unfolding era rem_euclid neg
era_parts (pos n) = ground arith
era_parts (negsuc n) = ground arith

pub rem_euclid_parts :
    (y : ℤ) → (rem_euclid y 4 ≡ rem_euclid y 400 % 4) × (rem_euclid y 100 ≡ rem_euclid y 400 % 100)
unfolding rem_euclid
rem_euclid_parts (pos n) = omega arith
rem_euclid_parts (negsuc n) = omega arith

-- ===== src/Dates/PostingDate.antt =====
-- crates/openqbw/src/materialized_posting_date.rs: the minute counts of posting rows as dates.
pub mod Eras
pub mod Count
pub mod Next
pub mod Accepted
use openqbw.Base.{
  ℕ, ◌+◌, ◌-◌, ◌*◌, ◌/◌, ◌%◌, ◌^◌, Bool, not, ◌&&◌, ◌||◌, List, [], ◌∷◌, Option, none, some,
  Outcome, ok, err, panic, ◌>>=◌, ◌>>◌, ltb, leb, ◌==◌, length, if◌then◌else◌,
}
use openqbw.Base.Int.{ℤ, pos, negsuc, pos_part, neg_part, sub_ℕ, ◌+ℤ◌, ◌-ℤ◌, neg, eq_ℤ}
use openqbw.Base.Text.Strings.{is_ascii_digit}

abbrev pub minutes_per_day : ℕ
minutes_per_day = 1440

pub data MaterializedPostingDateError : Type 0 where
  non_midnight_minute_count :
      (raw_minutes : ℤ) (remainder_minutes : ℕ) → MaterializedPostingDateError
  invalid_calendar_date minute_count_out_of_range :
      (year : ℤ) (month day : ℕ) → MaterializedPostingDateError
  calendar_round_trip_mismatch : (raw_minutes : ℤ) → MaterializedPostingDateError
  invalid_iso_date_format : MaterializedPostingDateError

abbrev pub Result : Type 0 → Type 0
Result A = Outcome MaterializedPostingDateError A

pub record MaterializedPostingDate : Type 0 where
  pub raw_minutes : ℤ
  pub accounting_date : ℤ
  pub year : ℤ
  pub month : ℕ
  pub day : ℕ

-- `rem_euclid` by a positive number
unfoldable pub rem_euclid : ℤ → ℕ → ℕ
rem_euclid (pos a) n = a % n
rem_euclid (negsuc a) n = n - 1 - a % n

-- The product with a natural number.
unfoldable pub scale : ℤ → ℕ → ℤ
scale a n = sub_ℕ (pos_part a * n) (neg_part a * n)

unfoldable pub is_leap_year : ℤ → Bool
unfolding rem_euclid
is_leap_year year =
    rem_euclid year 4 == 0 && (not (rem_euclid year 100 == 0) || rem_euclid year 400 == 0)

unfoldable pub days_in_month : ℤ → ℕ → ℕ
unfolding is_leap_year
days_in_month year month =
    if month == 1
      || month == 3
      || month == 5
      || month == 7
      || month == 8
      || month == 10
      || month == 12
    then 31
    else if month == 4 || month == 6 || month == 9 || month == 11
    then 30
    else if month == 2 && is_leap_year year
    then 29
    else if month == 2
    then 28
    else 0

abbrev pub is_valid : ℤ → ℕ → ℕ → Bool
is_valid year month day =
    leb 1 month && leb month 12 && (leb 1 day && leb day (days_in_month year month))

unfoldable pub validate_ymd : ℤ → ℕ → ℕ → Result (Unit {0})
unfolding days_in_month
validate_ymd year month day =
    if is_valid year month day then ok tt else err (invalid_calendar_date year month day)

-- The year that begins in March.
unfoldable pub shifted_year : ℤ → ℕ → ℤ
unfolding ◌-ℤ◌
shifted_year year month = if leb month 2 then year -ℤ pos 1 else year

-- `if year >= 0 { year } else { year - 399 } / 400`, where `/` rounds towards zero
unfoldable pub era : ℤ → ℤ
unfolding neg
era (pos n) = pos (n / 400)
era (negsuc n) = neg (pos ((n + 400) / 400))

-- `year - era * 400`, which is not negative.
unfoldable pub year_of_era : ℤ → ℕ
unfolding era scale ◌-ℤ◌
year_of_era year = pos_part (year -ℤ scale (era year) 400)

unfoldable pub shifted_month : ℕ → ℕ
shifted_month month = if ltb 2 month then month - 3 else month + 9

unfoldable pub day_of_year : ℕ → ℕ → ℕ
unfolding shifted_month
day_of_year month day = (153 * shifted_month month + 2) / 5 + day - 1

unfoldable pub day_of_era : ℕ → ℕ → ℕ
day_of_era year_of_era day_of_year =
    year_of_era * 365 + year_of_era / 4 - year_of_era / 100 + day_of_year

-- The day number of a valid date.
unfoldable pub day_number : ℤ → ℕ → ℕ → ℤ
unfolding shifted_year era year_of_era day_of_year day_of_era scale ◌+ℤ◌ ◌-ℤ◌
day_number year month day =
    let shifted = shifted_year year month in
    let days = day_of_era (year_of_era shifted) (day_of_year month day) in
    scale (era shifted) 146_097 +ℤ pos days -ℤ pos 719_468 +ℤ pos 135_081

unfoldable pub days_since_sa_epoch : ℤ → ℕ → ℕ → Result ℤ
unfolding validate_ymd day_number
days_since_sa_epoch year month day = validate_ymd year month day >> ok (day_number year month day)

-- `i32::try_from`
abbrev pub fits_i32 : ℤ → Bool
fits_i32 a = leb (pos_part a) (2 ^ 31 - 1) && leb (neg_part a) (2 ^ 31)

abbrev pub fold_digit : Option ℕ → ℕ → Option ℕ
fold_digit none byte = none
fold_digit (some value) byte = if is_ascii_digit byte then some (value * 10 + (byte - 48)) else none

-- `parse_ascii_digits`, a `try_fold` from `value`
unfoldable pub parse_ascii_digits : Option ℕ → List ℕ → Option ℕ
parse_ascii_digits value [] = value
parse_ascii_digits value (byte ∷ input) = parse_ascii_digits (fold_digit value byte) input

abbrev pub iso_part : List ℕ → Result ℕ
unfolding parse_ascii_digits
iso_part bytes = elim (parse_ascii_digits (some 0) bytes) [
  | none ↦ err invalid_iso_date_format
  | some n ↦ ok n
]

-- The calendar of the page store: `SaDate::ymd` and `SaDate::days_since_sa_epoch` of a minute count.
module _ (ymd : ℤ → ℤ × ℕ × ℕ) (whole_days : ℤ → ℤ) where
  -- `from_raw_minutes` behind the call of `SaDate::ymd`
  unfoldable pub from_sa_date : ℤ → ℤ → ℕ → ℕ → Result MaterializedPostingDate
  unfolding days_since_sa_epoch validate_ymd
  from_sa_date raw_minutes year month day =
      validate_ymd year month day
      >> (days_since_sa_epoch year month day >>= λ days.
          if not (eq_ℤ days (whole_days raw_minutes))
          then err (calendar_round_trip_mismatch raw_minutes)
          else ok (record {
            raw_minutes = raw_minutes;
            accounting_date = whole_days raw_minutes;
            year = year;
            month = month;
            day = day;
          }))

  unfoldable pub from_raw_minutes : ℤ → Result MaterializedPostingDate
  unfolding rem_euclid from_sa_date
  from_raw_minutes raw_minutes =
      let remainder = rem_euclid raw_minutes minutes_per_day in
      let (year, month, day) = ymd raw_minutes in
      if not (remainder == 0)
      then err (non_midnight_minute_count raw_minutes remainder)
      else from_sa_date raw_minutes year month day

  -- The product is of an i64 with a day number of an i32 year, so `checked_mul` does not fail.
  unfoldable pub from_ymd : ℤ → ℕ → ℕ → Result MaterializedPostingDate
  unfolding days_since_sa_epoch scale from_raw_minutes
  from_ymd year month day = days_since_sa_epoch year month day >>= λ days.
      let raw_minutes = scale days minutes_per_day in
      if fits_i32 raw_minutes
      then from_raw_minutes raw_minutes
      else err (minute_count_out_of_range year month day)

  -- A text of ten bytes is matched as such.
  unfoldable pub parse_iso_date : List ℕ → Result MaterializedPostingDate
  unfolding iso_part from_ymd
  parse_iso_date (y1 ∷ y2 ∷ y3 ∷ y4 ∷ s1 ∷ m1 ∷ m2 ∷ s2 ∷ d1 ∷ d2 ∷ []) =
      if not (s1 == 45) || not (s2 == 45)
      then err invalid_iso_date_format
      else (iso_part (y1 ∷ y2 ∷ y3 ∷ y4 ∷ []) >>= λ year. iso_part (m1 ∷ m2 ∷ []) >>= λ month.
          iso_part (d1 ∷ d2 ∷ []) >>= λ day.
          if year == 0 then err invalid_iso_date_format else from_ymd (pos year) month day)
  parse_iso_date _ = err invalid_iso_date_format

-- ===== src/Dates/QuickBooksDate.antt =====
-- crates/openqbw/src/quickbooks_date.rs: the four-byte `DateType32` values of QuickBooks records.
pub mod RoundTrip
use openqbw.Base.{
  ℕ, ◌+◌, ◌*◌, ◌/◌, ◌%◌, ◌<◌, ◌≡◌, Bool, true, false, not, ◌&&◌, ◌||◌, Option, none, some, List, [],
  ◌∷◌, Outcome, ok, err, ◌>>=◌, ◌>>◌, leb, ltb, ◌==◌, if◌then◌else◌, arith,
}
use openqbw.Base.Bytes.{u16_from_be, byte0, byte1}

pub record QuickBooksDate : Type 0 where
  pub year : ℕ
  pub month : ℕ
  pub day : ℕ

pub data QuickBooksDateError : Type 0 where
  zero_year : QuickBooksDateError
  invalid_month : ℕ → QuickBooksDateError
  invalid_day : ℕ → ℕ → ℕ → QuickBooksDateError

unfoldable pub is_leap_year : ℕ → Bool
is_leap_year year = year % 4 == 0 && not (year % 100 == 0) || year % 400 == 0

unfoldable pub days_in_month : ℕ → ℕ → ℕ
unfolding is_leap_year
days_in_month year month =
    if month == 1
      || month == 3
      || month == 5
      || month == 7
      || month == 8
      || month == 10
      || month == 12
    then 31
    else if month == 4 || month == 6 || month == 9 || month == 11
    then 30
    else if month == 2 && is_leap_year year
    then 29
    else if month == 2
    then 28
    else 0

unfoldable pub validate_components : ℕ → ℕ → ℕ → Outcome QuickBooksDateError (Unit {0})
validate_components year month day =
    if year == 0
    then err zero_year
    else if not (leb 1 month && leb month 12)
    then err (invalid_month month)
    else if day == 0 || ltb (days_in_month year month) day
    then err (invalid_day year month day)
    else ok tt

-- `QuickBooksDate::new`
unfoldable pub new_date : ℕ → ℕ → ℕ → Outcome QuickBooksDateError QuickBooksDate
unfolding validate_components
new_date year month day =
    validate_components year month day >> ok (record { year = year; month = month; day = day })

-- A four-byte array.
pub record DateBytes : Type 0 where
  pub b0 : ℕ
  pub b1 : ℕ
  pub b2 : ℕ
  pub b3 : ℕ

-- `QuickBooksDate::from_disk_bytes`
unfoldable pub date_from_disk_bytes :
    DateBytes → Outcome QuickBooksDateError (Option QuickBooksDate)
unfolding new_date u16_from_be
date_from_disk_bytes bytes =
    if bytes.b0 == 0 && bytes.b1 == 0 && bytes.b2 == 0 && bytes.b3 == 0
    then ok none
    else new_date (u16_from_be bytes.b0 bytes.b1) bytes.b2 bytes.b3 >>= λ date. ok (some date)

-- `QuickBooksDate::to_disk_bytes`
unfoldable pub date_to_disk_bytes : QuickBooksDate → DateBytes
date_to_disk_bytes date = record {
  b0 = byte1 date.year;
  b1 = byte0 date.year;
  b2 = date.month;
  b3 = date.day;
}

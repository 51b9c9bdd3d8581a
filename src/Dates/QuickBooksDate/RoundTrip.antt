-- ===== src/Dates/QuickBooksDate/RoundTrip.antt =====
-- `DateType32` values: what the decoder accepts, and that it inverts the encoder.
use openqbw.Base.{◌≤◌, ◌≡◌, refl, ◌↔◌, ◌⊎◌, inl, inr, Option, none, some, ok, arith}
use openqbw.Base.Bytes.{IsByte, IsU16}
use openqbw.Dates.QuickBooksDate.{
  QuickBooksDate, DateBytes, days_in_month, new_date, date_from_disk_bytes, date_to_disk_bytes,
}

-- A date of the Gregorian calendar, from year 1 on.
pub record IsCalendarDate (d : QuickBooksDate) : Type 0 where
  pub year_pos : 1 ≤ d.year
  pub month_pos : 1 ≤ d.month
  pub month_le : d.month ≤ 12
  pub day_pos : 1 ≤ d.day
  pub day_le : d.day ≤ days_in_month d.year d.month

-- The constructor succeeds exactly on the dates of the calendar, and keeps their parts.
pub new_date-iff_calendar :
    (d e : QuickBooksDate) → (new_date d.year d.month d.day ≡ ok e) ↔ (IsCalendarDate d × (e ≡ d))
unfolding new_date
new_date-iff_calendar d e = (λ h. ground arith, λ h. ground arith)

-- Decoding the encoding of a valid date with a 16-bit year gives that date.
pub from_disk-to_disk :
    (d : QuickBooksDate)
    → IsCalendarDate d
    → IsU16 d.year
    → date_from_disk_bytes (date_to_disk_bytes d) ≡ ok (some d)
unfolding date_from_disk_bytes date_to_disk_bytes
from_disk-to_disk d v h = ground arith

-- Whatever four bytes the decoder accepts as a date, the date is valid and encodes to those bytes;
-- it answers "no date" on the four zero bytes alone.
pub to_disk-from_disk :
    (bytes : DateBytes) (r : Option QuickBooksDate)
    → IsByte bytes.b0
    → IsByte bytes.b1
    → date_from_disk_bytes bytes ≡ ok r
    → ((r ≡ none) × (bytes ≡ record { b0 = 0; b1 = 0; b2 = 0; b3 = 0 }))
      ⊎ ((d : QuickBooksDate) × (r ≡ some d) × IsCalendarDate d × (date_to_disk_bytes d ≡ bytes))
unfolding date_from_disk_bytes date_to_disk_bytes
to_disk-from_disk bytes none h0 h1 e = inl (refl, ground arith)
to_disk-from_disk bytes (some d) h0 h1 e = inr (d, refl, ground arith, ground arith)

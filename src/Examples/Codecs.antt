-- ===== src/Examples/Codecs.antt =====
-- The codecs at concrete bytes.
use openqbw.Base.{
  panic, ◌<◌, ◌-◌, ◌^◌, ℕ, ◌≡◌, ◌↔◌, ◌⊎◌, ◌*◌, ◌+◌, ◌/◌, ◌==◌, if◌then◌else◌, refl, arith, some,
  none, ok,
}
use openqbw.Dates.PostingDate.{
  MaterializedPostingDate, days_since_sa_epoch, from_raw_minutes, from_ymd, scale, minutes_per_day,
}
use openqbw.Dates.PostingDate.Next.{next_day, days_of, days_since_sa_epoch-next_day}
use openqbw.Dates.PostingDate.Accepted.{IsPostingDate, from_raw_minutes-IsPostingDate}
use openqbw.Base.Int.{ℤ, pos, pos_part, neg, ◌+ℤ◌}
use openqbw.Base.{[], ◌∷◌, false}
use openqbw.Base.Int.{negsuc}
use openqbw.Cents.{parse_cents}
use openqbw.Dates.QuickBooksDate.{
  QuickBooksDate, days_in_month, new_date, DateBytes, date_from_disk_bytes, date_to_disk_bytes,
}
use openqbw.Dates.QuickBooksDate.RoundTrip.{
  IsCalendarDate, new_date-iff_calendar, from_disk-to_disk, to_disk-from_disk,
}
use openqbw.Dates.SaDay.{sa_day_to_unix_day, unix_day_to_sa_day, sa_day-iff-unix_day}
use openqbw.Balance.{
  LegacyBalance, BalanceBytes, balance_from_disk_bytes, balance_to_disk_bytes, signed_cents,
}
use openqbw.Balance.RoundTrip.{IsBalance, balance_from_disk-to_disk, IsBalance-to_disk-from_disk}
use openqbw.Balance.Money.{signed_cents_of_disk}

abbrev leap_day : QuickBooksDate
leap_day = record { year = 2024; month = 2; day = 29 }

leap_day_made : new_date 2024 2 29 ≡ ok leap_day
unfolding new_date days_in_month
leap_day_made = refl

leap_day-IsCalendarDate : IsCalendarDate leap_day
leap_day-IsCalendarDate = ((new_date-iff_calendar leap_day leap_day).0 leap_day_made).0

from_disk-to_disk_example : date_from_disk_bytes (date_to_disk_bytes leap_day) ≡ ok (some leap_day)
from_disk-to_disk_example = from_disk-to_disk leap_day leap_day-IsCalendarDate (omega arith)

abbrev leap_bytes : DateBytes
leap_bytes = record { b0 = 7; b1 = 232; b2 = 2; b3 = 29 }

leap_bytes_read : date_from_disk_bytes leap_bytes ≡ ok (some leap_day)
unfolding date_from_disk_bytes days_in_month
leap_bytes_read = refl

to_disk-from_disk_example :
    ((some leap_day ≡ none) × (leap_bytes ≡ record { b0 = 0; b1 = 0; b2 = 0; b3 = 0 }))
    ⊎ ((d : QuickBooksDate) × (some leap_day ≡ some d)
        × IsCalendarDate d
        × (date_to_disk_bytes d ≡ leap_bytes))
to_disk-from_disk_example =
    to_disk-from_disk leap_bytes (some leap_day) (omega arith) (omega arith) leap_bytes_read

sa_day-iff-unix_day_example :
    ((sa_day_to_unix_day 4_018 ≡ some (pos 1)) ↔ (unix_day_to_sa_day (pos 1) ≡ ok (some 4_018)))
    × ((unix_day_to_sa_day (pos 1) ≡ panic) ↔ (2 ^ 63 - 4018 < pos_part (pos 1)))
sa_day-iff-unix_day_example = sa_day-iff-unix_day 4_018 (pos 1) refl

-- The bytes of -1,234.57.
abbrev debt_bytes : BalanceBytes
debt_bytes = record { b0 = 57; b1 = 2; b2 = 0; b3 = 0; b4 = 4; b5 = 210 }

abbrev debt : LegacyBalance
debt = record { fraction = 57; flags = record { raw = 2 }; dollars = 1_234 }

debt_read : balance_from_disk_bytes debt_bytes ≡ ok debt
unfolding balance_from_disk_bytes
debt_read = refl

IsBalance-to_disk-from_disk_example : IsBalance debt × (balance_to_disk_bytes debt ≡ debt_bytes)
IsBalance-to_disk-from_disk_example =
    IsBalance-to_disk-from_disk debt_bytes debt (omega arith) (omega arith) (omega arith)
      (omega arith) debt_read

balance_from_disk-to_disk_example : balance_from_disk_bytes (balance_to_disk_bytes debt) ≡ ok debt
balance_from_disk-to_disk_example =
    balance_from_disk-to_disk debt IsBalance-to_disk-from_disk_example.0

signed_cents_of_disk_example : (signed_cents debt ≡ ok (neg (pos 123_457))) ↔ (
    ((debt_bytes.b1 ≡ 0) × (neg (pos 123_457) ≡ pos (1_234 * 100 + 57)))
    ⊎ ((debt_bytes.b1 ≡ 2) × (neg (pos 123_457) ≡ neg (pos (1_234 * 100 + 57)))))
signed_cents_of_disk_example =
    signed_cents_of_disk debt_bytes debt (neg (pos 123_457)) (omega arith) debt_read

-- The token of -1,234.57, and one whose amount is scaled to dollars.
debt_token_read :
    parse_cents (3 ∷ 0x3f ∷ 57 ∷ 34 ∷ 12 ∷ [])
    ≡ ok (record { signed_cents = negsuc 123_456; canonical_zero = false })
unfolding parse_cents
debt_token_read = refl

dollars_token_read :
    parse_cents (1 ∷ 0xc0 ∷ 12 ∷ [])
    ≡ ok (record { signed_cents = pos 1_200; canonical_zero = false })
unfolding parse_cents
dollars_token_read = refl

abbrev epoch : ℤ × ℕ × ℕ
epoch = (pos 1600, 2, 29)

epoch_numbered : days_since_sa_epoch (pos 1600) 2 29 ≡ ok (pos 0)
unfolding days_since_sa_epoch
epoch_numbered = refl

days_since_sa_epoch-next_day_example :
    (days_of (next_day (pos 1600) 2 29) ≡ ok (pos 0 +ℤ pos 1))
    × (days_since_sa_epoch (pos 1600) 2 29 ≡ ok (pos 0))
days_since_sa_epoch-next_day_example = days_since_sa_epoch-next_day (pos 1600) 2 29 epoch_numbered

-- A calendar that knows two days: the epoch, and 2026-07-18 at its minute count.
abbrev two_days : ℤ → ℤ × ℕ × ℕ
two_days (pos minutes) = if minutes == 0 then epoch else (pos 2026, 7, 18)
two_days (negsuc minutes) = epoch

abbrev whole_days : ℤ → ℤ
whole_days (pos minutes) = pos (minutes / 1440)
whole_days (negsuc minutes) = negsuc (minutes / 1440)

abbrev july_day : MaterializedPostingDate
july_day = record {
  raw_minutes = pos (155733 * 1440);
  accounting_date = pos 155733;
  year = pos 2026;
  month = 7;
  day = 18;
}

july_day_read : from_raw_minutes two_days whole_days (pos (155733 * 1440)) ≡ ok july_day
unfolding from_raw_minutes
july_day_read = refl

july_day_made : from_ymd two_days whole_days (pos 2026) 7 18 ≡ ok july_day
unfolding from_ymd
july_day_made = refl

from_raw_minutes-IsPostingDate_example :
    IsPostingDate july_day
    × (july_day.raw_minutes ≡ pos (155733 * 1440))
    × IsPostingDate july_day
    × ((days : ℤ) × (days_since_sa_epoch (pos 2026) 7 18 ≡ ok days)
        × (july_day.raw_minutes ≡ scale days minutes_per_day))
from_raw_minutes-IsPostingDate_example =
    from_raw_minutes-IsPostingDate two_days whole_days (pos (155733 * 1440)) (pos 2026) 7 18
      july_day_read july_day_made

-- ===== src/Dates/PostingDate/Next.antt =====
-- The day numbers count the days of the calendar from 1600-02-29.
use openqbw.Base.{
  ℕ, ◌+◌, ◌%◌, ◌≤◌, ◌<◌, ◌≡◌, refl, ◌∙◌, sym, ap, true, false, ok, arith, Bool-cases, inl, inr, ltb,
  ◌==◌, if◌then◌else◌, ok_injective,
}
use openqbw.Base.Int.{ℤ, pos, ◌+ℤ◌, ◌-ℤ◌, int_laws}
use openqbw.Dates.PostingDate.{
  Result, days_in_month, is_valid, shifted_year, shifted_month, day_of_year, day_number,
  days_since_sa_epoch, validate_ymd,
}
use openqbw.Dates.PostingDate.Count.{number, number-suc, number_march}

-- The day after a valid date in the calendar.
unfoldable pub next_day : ℤ → ℕ → ℕ → ℤ × ℕ × ℕ
next_day year month day =
    if ltb day (days_in_month year month)
    then (year, month, day + 1)
    else if ltb month 12
    then (year, month + 1, 1)
    else (year +ℤ pos 1, 1, 1)

day_number-number :
    (y : ℤ) (m d : ℕ) → day_number y m d ≡ number (shifted_year y m) (day_of_year m d)
unfolding day_number
day_number-number y m d = refl

-- Over the end of a month other than February, the count goes on within the same March year.
month_end :
    (y : ℤ) (m : ℕ)
    → 1 ≤ m
    → m ≤ 12
    → (m == 2) ≡ false
    → day_of_year (m % 12 + 1) 1 ≡ day_of_year m (days_in_month y m) + 1
unfolding day_of_year days_in_month shifted_month
month_end y m h k ne = ground arith

shifted_months :
    (y : ℤ) (m : ℕ) → 1 ≤ m → m < 12 → (m == 2) ≡ false → shifted_year y (m + 1) ≡ shifted_year y m
unfolding shifted_year
shifted_months y m h k ne = ground arith

shifted_new_year : (y : ℤ) → shifted_year (y +ℤ pos 1) 1 ≡ shifted_year y 12
unfolding shifted_year
shifted_new_year y = omega int_laws

-- Within a month.
day_in_month : (m d : ℕ) → 1 ≤ d → day_of_year m (d + 1) ≡ day_of_year m d + 1
unfolding day_of_year
day_in_month m d h = omega arith

valid_parts :
    (y : ℤ) (m d : ℕ)
    → is_valid y m d ≡ true
    → (1 ≤ m) × (m ≤ 12) × (1 ≤ d) × (d ≤ days_in_month y m)
valid_parts y m d h = ground arith

valid_of_parts :
    (y : ℤ) (m d : ℕ) → 1 ≤ m → m ≤ 12 → 1 ≤ d → d ≤ days_in_month y m → is_valid y m d ≡ true
valid_of_parts y m d a b c e = ground arith

first_of_month : (y : ℤ) (m : ℕ) → 1 ≤ m → m ≤ 12 → 1 ≤ days_in_month y m
unfolding days_in_month
first_of_month y m a b = ground arith

days_of_valid :
    (y : ℤ) (m d : ℕ) → is_valid y m d ≡ true → days_since_sa_epoch y m d ≡ ok (day_number y m d)
unfolding days_since_sa_epoch validate_ymd
days_of_valid y m d h = rw h

valid_of_days :
    (y : ℤ) (m d : ℕ) {n : ℤ}
    → days_since_sa_epoch y m d ≡ ok n
    → (is_valid y m d ≡ true) × (day_number y m d ≡ n)
unfolding days_since_sa_epoch validate_ymd
valid_of_days y m d e = elim (Bool-cases (is_valid y m d)) [
  | inl v ↦ (v, ok_injective (rw v at e))
  | inr v ↦ cc (rw v at e)
]

-- The number of a date whose day and March year are those after another's.
number_after :
    (y z : ℤ) (m k d e : ℕ)
    → shifted_year z k ≡ shifted_year y m
    → day_of_year k e ≡ day_of_year m d + 1
    → day_number z k e ≡ day_number y m d +ℤ pos 1
number_after y z m k d e same later =
    day_number-number z k e
    ∙ rw (same, later) (number-suc (shifted_year y m) (day_of_year m d))
    ∙ ap (λ (n : ℤ). n +ℤ pos 1) (sym (day_number-number y m d))

march_after : (y : ℤ) → day_number y 3 1 ≡ day_number y 2 (days_in_month y 2) +ℤ pos 1
march_after y =
    let n = days_in_month y 2 in
    let some_day = first_of_month y 2 (omega arith) (omega arith) in
    let end : day_of_year 2 n ≡ 336 + n = unfold day_of_year in omega (arith, some_day) in
    let before : day_number y 2 n ≡ number (y -ℤ pos 1) (336 + n) =
      day_number-number y 2 n ∙ rw end (unfold shifted_year in refl) in
    let here : day_number y 3 1 ≡ number y 0 =
      day_number-number y 3 1 ∙ (unfold shifted_year day_of_year in refl) in
    here ∙ number_march y ∙ ap (λ (k : ℤ). k +ℤ pos 1) (sym before)

abbrev Follows : ℤ → ℤ × ℕ × ℕ → Type 0
Follows n (y, m, d) = (is_valid y m d ≡ true) × (day_number y m d ≡ n +ℤ pos 1)

-- Behind the last day of a month.
after_month :
    (y : ℤ) (m : ℕ)
    → 1 ≤ m
    → m ≤ 12
    → Follows
        (day_number y m (days_in_month y m))
        (if ltb m 12 then (y, m + 1, 1) else (y +ℤ pos 1, 1, 1))
after_month y m a b = elim (Bool-cases (ltb m 12)) [
  | inl within ↦ rw within (
    valid_of_parts y (m + 1) 1 (omega arith) (ground arith) (omega arith)
        (first_of_month y (m + 1) (omega arith) (ground arith)),
    elim (Bool-cases (m == 2)) [
      | inl feb ↦ let e : m ≡ 2 = ground arith in rw e (march_after y)
      | inr other ↦
          let short : m < 12 = ground arith in
          let next : m % 12 + 1 ≡ m + 1 = omega arith in
          number_after y y m (m + 1) (days_in_month y m) 1 (shifted_months y m a short other)
            (rw next at (month_end y m a b other))
    ],
  )
  | inr last ↦
      let e : m ≡ 12 = ground arith in
      rw (last, e)
        (
          valid_of_parts (y +ℤ pos 1) 1 1 (omega arith) (omega arith) (omega arith)
              (first_of_month (y +ℤ pos 1) 1 (omega arith) (omega arith)),
          number_after y (y +ℤ pos 1) 12 1 (days_in_month y 12) 1 (shifted_new_year y)
              (month_end y 12 (omega arith) (omega arith) refl),
        )
]

next_day-Follows :
    (y : ℤ) (m d : ℕ) → is_valid y m d ≡ true → Follows (day_number y m d) (next_day y m d)
unfolding next_day
next_day-Follows y m d v =
    let (a, b, c, e) = valid_parts y m d v in
    elim (Bool-cases (ltb d (days_in_month y m))) [
      | inl within ↦ rw within (
        valid_of_parts y m (d + 1) a b (omega arith) (ground arith),
        number_after y y m m d (d + 1) refl (day_in_month m d c),
      )
      | inr last ↦
          let end : d ≡ days_in_month y m = ground arith in rw last (rw end (after_month y m a b))
    ]

-- The day after, as the code computes it.
abbrev pub days_of : ℤ × ℕ × ℕ → Result ℤ
days_of (y, m, d) = days_since_sa_epoch y m d

-- The day numbers count days: 1600-02-29 has the number 0, and wherever a date is accepted, the date
-- after it in the Gregorian calendar is accepted too and has the number after.
pub days_since_sa_epoch-next_day :
    (y : ℤ) (m d : ℕ) {n : ℤ}
    → days_since_sa_epoch y m d ≡ ok n
    → (days_of (next_day y m d) ≡ ok (n +ℤ pos 1))
      × (days_since_sa_epoch (pos 1600) 2 29 ≡ ok (pos 0))
days_since_sa_epoch-next_day y m d e =
    let (v, number) = valid_of_days y m d e in
    let (next_valid, next_number) = next_day-Follows y m d v in
    (
      days_of_valid (next_day y m d).0 (next_day y m d).1 (next_day y m d).2 next_valid
          ∙ ap ok (next_number ∙ ap (λ (k : ℤ). k +ℤ pos 1) number),
      unfold days_since_sa_epoch in refl,
    )

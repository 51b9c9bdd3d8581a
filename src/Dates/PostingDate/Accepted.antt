-- ===== src/Dates/PostingDate/Accepted.antt =====
-- What the constructors of a posting date return.
use openqbw.Base.{
  ◌≡◌, refl, ◌∙◌, ℕ, ok, err, if◌then◌else◌, >>=-eq-ok, ok_injective, Bool-cases, inl, inr, ◌==◌,
  ==_iff, not, ap,
}
use openqbw.Base.Int.{ℤ, eq_ℤ, eq_ℤ_iff}
use openqbw.Dates.PostingDate.{
  MaterializedPostingDate, minutes_per_day, rem_euclid, scale, validate_ymd, days_since_sa_epoch,
  fits_i32, from_sa_date, from_raw_minutes, from_ymd, calendar_round_trip_mismatch,
  minute_count_out_of_range,
}

-- A posting date is at midnight, of a valid day whose number it carries.
pub record IsPostingDate (d : MaterializedPostingDate) : Type 0 where
  pub midnight : rem_euclid d.raw_minutes minutes_per_day ≡ 0
  pub numbered : days_since_sa_epoch d.year d.month d.day ≡ ok d.accounting_date

-- The end of the constructor, on plain values.
made_IsNumbered :
    (raw year days whole : ℤ) (month day : ℕ) {d : MaterializedPostingDate}
    → days_since_sa_epoch year month day ≡ ok days
    → (if not (eq_ℤ days whole)
        then err (calendar_round_trip_mismatch raw)
        else ok (record {
          raw_minutes = raw;
          accounting_date = whole;
          year = year;
          month = month;
          day = day;
        }))
      ≡ ok d
    → (d.raw_minutes ≡ raw) × (days_since_sa_epoch d.year d.month d.day ≡ ok d.accounting_date)
made_IsNumbered raw year days whole month day numbered e = elim (Bool-cases (eq_ℤ days whole)) [
  | inl same ↦
      let equal = (eq_ℤ_iff days whole).0 same in
      rw (← ok_injective (rw same at e)) (refl, numbered ∙ ap ok equal)
  | inr other ↦ cc (rw other at e)
]

module _ (ymd : ℤ → ℤ × ℕ × ℕ) (whole_days : ℤ → ℤ) where
  checked_date :
      (raw year : ℤ) (month day : ℕ) {d : MaterializedPostingDate}
      → from_sa_date ymd whole_days raw year month day ≡ ok d
      → (d.raw_minutes ≡ raw) × (days_since_sa_epoch d.year d.month d.day ≡ ok d.accounting_date)
  unfolding from_sa_date
  checked_date raw year month day e =
      let (_, _, e1) = >>=-eq-ok (validate_ymd year month day) _ e in
      let (days, numbered, e2) = >>=-eq-ok (days_since_sa_epoch year month day) _ e1 in
      made_IsNumbered raw year days (whole_days raw) month day numbered e2

  raw_IsPostingDate :
      (raw : ℤ) {d : MaterializedPostingDate}
      → from_raw_minutes ymd whole_days raw ≡ ok d
      → IsPostingDate d × (d.raw_minutes ≡ raw)
  unfolding from_raw_minutes
  raw_IsPostingDate raw e = elim (Bool-cases (rem_euclid raw minutes_per_day == 0)) [
    | inl midnight ↦
        let (same, numbered) =
          checked_date raw (ymd raw).0 (ymd raw).1 (ymd raw).2 (rw midnight at e) in
        (
          record {
            midnight =
                ap (λ (r : ℤ). rem_euclid r minutes_per_day) same
                ∙ (==_iff (rem_euclid raw minutes_per_day) 0).0 midnight;
            numbered = numbered;
          },
          same,
        )
    | inr later ↦ cc (rw later at e)
  ]

  -- The range test of `from_ymd` has passed.
  fits :
      (year days : ℤ) (month day : ℕ) {e : MaterializedPostingDate}
      → (if fits_i32 (scale days minutes_per_day)
          then from_raw_minutes ymd whole_days (scale days minutes_per_day)
          else err (minute_count_out_of_range year month day))
        ≡ ok e
      → from_raw_minutes ymd whole_days (scale days minutes_per_day) ≡ ok e
  fits year days month day h = elim (Bool-cases (fits_i32 (scale days minutes_per_day))) [
    | inl small ↦ rw small at h
    | inr large ↦ cc (rw large at h)
  ]

  -- Whatever the page store's calendar computes, a date that `from_raw_minutes` or `from_ymd` returns
  -- is at midnight, and its parts are a valid day whose number is the accounting date; its minute count
  -- is the given one, or that of the given day's number.
  pub from_raw_minutes-IsPostingDate :
      (raw year : ℤ) (month day : ℕ) {d e : MaterializedPostingDate}
      → from_raw_minutes ymd whole_days raw ≡ ok d
      → from_ymd ymd whole_days year month day ≡ ok e
      → IsPostingDate d
        × (d.raw_minutes ≡ raw)
        × IsPostingDate e
        × ((days : ℤ) × (days_since_sa_epoch year month day ≡ ok days)
            × (e.raw_minutes ≡ scale days minutes_per_day))
  unfolding from_ymd
  from_raw_minutes-IsPostingDate raw year month day h k =
      let (dated, same) = raw_IsPostingDate raw h in
      let (days, numbered, rest) = >>=-eq-ok (days_since_sa_epoch year month day) _ k in
      let (made, counted) =
        raw_IsPostingDate (scale days minutes_per_day) (fits year days month day rest) in
      (dated, same, made, (days, numbered, counted))

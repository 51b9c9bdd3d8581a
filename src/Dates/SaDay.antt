-- ===== src/Dates/SaDay.antt =====
-- crates/openqbw/src/date.rs: SQL Anywhere day numbers and days since the Unix epoch.
use openqbw.Base.{
  ℕ, ◌*◌, ◌-◌, ◌^◌, ◌<◌, ◌≡◌, ◌↔◌, ◌&&◌, not, Option, none, some, Outcome, ok, panic, true, leb,
  if◌then◌else◌, arith,
}
use openqbw.Base.Int.{ℤ, pos, pos_part, neg_part, sub_ℕ, ◌+ℤ◌, ◌-ℤ◌, leb_ℤ, fits_i64}

abbrev pub date_epoch_days_before_unix : ℕ
date_epoch_days_before_unix = 4017

abbrev pub sa_day_min_plausible : ℕ
sa_day_min_plausible = 1

abbrev pub sa_day_max_plausible : ℕ
sa_day_max_plausible = 80_000

unfoldable pub sa_day_to_unix_day : ℕ → Option ℤ
unfolding ◌-ℤ◌
sa_day_to_unix_day sa_day =
    if not (leb sa_day_min_plausible sa_day && leb sa_day sa_day_max_plausible)
    then none
    else some (pos sa_day -ℤ pos date_epoch_days_before_unix)

-- The sum is one of i64, which panics on overflow in a build that checks it. (A build that does not
-- wraps it to a negative number, and answers `None`.) `v as u32` of a value in the window is its
-- positive part.
unfoldable pub unix_day_to_sa_day : ℤ → Outcome ⊥ (Option ℕ)
unfolding ◌+ℤ◌
unix_day_to_sa_day unix_day =
    let v = unix_day +ℤ pos date_epoch_days_before_unix in
    if not (fits_i64 v)
    then panic
    else if not (leb_ℤ (pos sa_day_min_plausible) v && leb_ℤ v (pos sa_day_max_plausible))
    then ok none
    else ok (some (pos_part v))

-- Days to seconds, by a factor of 86,400 on the magnitude.
unfoldable pub sa_day_to_unix_seconds : ℕ → Option ℤ
unfolding sa_day_to_unix_day
sa_day_to_unix_seconds sa_day = elim (sa_day_to_unix_day sa_day) [
  | none ↦ none
  | some d ↦ some (sub_ℕ (pos_part d * 86_400) (neg_part d * 86_400))
]

-- On a day of 64 bits the two conversions are inverse to one another, in both directions: each yields a day exactly when
-- the other leads back. Of the days of 64 bits, the second panics exactly on those above 2^63 - 4018,
-- where its sum overflows in a build that checks it.
pub sa_day-iff-unix_day :
    (s : ℕ) (u : ℤ)
    → fits_i64 u ≡ true
    → ((sa_day_to_unix_day s ≡ some u) ↔ (unix_day_to_sa_day u ≡ ok (some s)))
      × ((unix_day_to_sa_day u ≡ panic) ↔ (2 ^ 63 - 4018 < pos_part u))
unfolding sa_day_to_unix_day unix_day_to_sa_day
sa_day-iff-unix_day s u fits =
    ((λ h. ground arith, λ h. ground arith), (λ h. ground arith, λ h. ground arith))

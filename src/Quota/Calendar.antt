-- ===== src/Quota/Calendar.antt =====
-- omkit/quota.py: the seconds until the next month.
use omkit_python.Prelude.{
  ℕ, zero, suc, ◌+◌, ◌-◌, ◌*◌, ◌/◌, ◌≡◌, ◌≤◌, ◌<◌, refl, ap, ◌↔◌, inl, inr, ◌⊎◌, if◌then◌else◌, eqb,
  arith, Bool-cases,
}
use omkit_python.Prelude.Int.{pos, sub_ℕ}
use omkit_python.Quota.{
  Moment, is_leap, days_in_month, days_before_month, days_before_year, day_micros, timestamp,
  cap_at_32_days, next_month, whole_seconds, seconds_until_next_month,
}

-- A date of the calendar.
pub record IsDate (t : Moment) : Type 0 where
  pub from_one : 1 ≤ t.year
  pub month_from : 1 ≤ t.month
  pub month_to : t.month ≤ 12
  pub day_from : 1 ≤ t.day
  pub day_to : t.day ≤ days_in_month t.year t.month
  pub within_day : t.micros < day_micros

year-length :
    (y : ℕ)
    → 1 ≤ y
    → days_before_year (y + 1) ≡ days_before_year y + (if is_leap y then 366 else 365)
unfolding days_before_year is_leap
year-length y h = ground arith

december : (y : ℕ) → days_before_month y 12 ≡ (if is_leap y then 335 else 334)
unfolding days_before_month days_in_month
december y = ground arith

month-length :
    (y m : ℕ) → 1 ≤ m → days_before_month y (m + 1) ≡ days_before_month y m + days_in_month y m
unfolding days_before_month
month-length y zero h = absurd (omega (arith, h))
month-length y (suc m) h =
    let e : suc m + 1 ≡ suc (suc m) = omega arith in ap (days_before_month y) e

timestamp_lem :
    (t : Moment)
    → timestamp t
      ≡ (days_before_year t.year + days_before_month t.year t.month + t.day) * day_micros + t.micros
unfolding timestamp
timestamp_lem t = refl

-- The microseconds that are left of a month.
abbrev pub remaining : Moment → ℕ
remaining t = (days_in_month t.year t.month - t.day) * day_micros + (day_micros - t.micros)

abbrev january : Moment → Moment
january t = record { year = t.year + 1; month = 1; day = 1; micros = 0 }

abbrev month_after : Moment → Moment
month_after t = record { year = t.year; month = t.month + 1; day = 1; micros = 0 }

next_month_cases :
    (t : Moment) → (t.month ≡ 12) × (next_month t ≡ january t) ⊎ (next_month t ≡ month_after t)
unfolding next_month
next_month_cases t = elim (Bool-cases (eqb t.month 12)) [
  | inl e ↦ inl (ground (arith, e), rw (e, next_month))
  | inr e ↦ inr (rw (e, next_month))
]

january_first : (y : ℕ) → days_before_month y 1 ≡ 0
unfolding days_before_month
january_first y = refl

december_days : (y : ℕ) → days_in_month y 12 ≡ 31
unfolding days_in_month
december_days y = ground arith

year_end :
    (y : ℕ)
    → 1 ≤ y
    → days_before_year (y + 1) ≡ days_before_year y + days_before_month y 12 + days_in_month y 12
year_end y h = ground (arith, year-length y h, december y, december_days y)

next_month-timestamp :
    (t : Moment) → IsDate t → timestamp (next_month t) ≡ timestamp t + remaining t
next_month-timestamp t v = elim (next_month_cases t) [
  | inl (at, e) ↦
      rw
        (
          e,
          timestamp_lem (january t),
          timestamp_lem t,
          january_first (t.year + 1),
          year_end t.year v.from_one,
        )
        (rest at)
  | inr e ↦
      rw
        (
          e,
          timestamp_lem (month_after t),
          timestamp_lem t,
          month-length t.year t.month v.month_from,
        )
        (omega (arith, v.day_from, v.day_to, v.within_day))
]
  where
    rest :
        t.month ≡ 12
        → (days_before_year t.year + days_before_month t.year 12 + days_in_month t.year 12 + 0 + 1)
              * day_micros
            + 0
          ≡ (days_before_year t.year + days_before_month t.year t.month + t.day) * day_micros
            + t.micros
            + remaining t
    rest at =
        let before : days_before_month t.year t.month ≡ days_before_month t.year 12 =
          ap (days_before_month t.year) at in
        let here : days_in_month t.year t.month ≡ days_in_month t.year 12 =
          ap (days_in_month t.year) at in
        omega (arith, before, here, v.day_from, v.day_to, v.within_day)

month_at_most : (y m : ℕ) → days_in_month y m ≤ 31
unfolding days_in_month
month_at_most y m = ground arith

cap_idle : (n : ℕ) → n ≤ 32 * 24 * 3600 → cap_at_32_days (pos n) ≡ pos n
unfolding cap_at_32_days
cap_idle n h = ground arith

-- On every date of the calendar, leap years included, `_seconds_until_next_month` gives the whole
-- seconds that are left of the month: at most 31 days, so that the cap never bites, and 0 in the
-- last second of the month and at no other time.
pub seconds_until_next_month_lem :
    (t : Moment)
    → IsDate t
    → (seconds_until_next_month t ≡ pos (remaining t / 1000000))
      × (remaining t / 1000000 ≤ 31 * 24 * 3600)
      × ((remaining t / 1000000 ≡ 0)
          ↔ (t.day ≡ days_in_month t.year t.month) × (day_micros < t.micros + 1000000))
unfolding seconds_until_next_month whole_seconds
seconds_until_next_month_lem t v =
    let bound : remaining t / 1000000 ≤ 31 * 24 * 3600 =
      omega (arith, month_at_most t.year t.month, v.day_from) in
    let gap : sub_ℕ (timestamp (next_month t)) (timestamp t) ≡ pos (remaining t) =
      rw (next_month-timestamp t v) (ground arith) in
    (
      rw (gap) (cap_idle (remaining t / 1000000) (omega (arith, bound))),
      bound,
      (
        λ z. (
          omega (arith, z, v.day_to, v.day_from, v.within_day),
          omega (arith, z, v.day_to, v.day_from, v.within_day),
        ),
        λ z. omega (arith, z.0, z.1),
      ),
    )

-- ===== src/Calendar/Laws.antt =====
-- The calendar arithmetic of `previousDateKey`, against a count of days.
use entryva.Base.{
  ℕ, ◌+◌, ◌-◌, ◌≤◌, ◌<◌, ◌≡◌, true, arith, if◌then◌else◌, ltb, Bool-cases, inl, inr, Text,
}
use entryva.Calendar.Days.{IsDate, days_before, leap_days, day_number}
use entryva.Calendar.{
  DateKey, date_lt, is_leap, days_in_month, previous_date_key, Parts, local_moment,
}

pub previous_date_key-IsDate : (d : DateKey) → IsDate d → 1 < d.year → IsDate (previous_date_key d)
unfolding previous_date_key days_in_month
previous_date_key-IsDate d v h = ground arith

days_before_step :
    (y m : ℕ) → 1 < m → m ≤ 12 → days_before y (m - 1) + days_in_month y (m - 1) ≡ days_before y m
unfolding days_before days_in_month
days_before_step y m h k = ground arith

leap_days_step : (y : ℕ) → 1 ≤ y → leap_days y ≡ leap_days (y - 1) + (if is_leap y then 1 else 0)
unfolding leap_days
leap_days_step y h = ground arith

days_before_ends :
    (y : ℕ) → (days_before y 1 ≡ 0) × (days_before y 12 ≡ (if is_leap y then 335 else 334))
unfolding days_before
days_before_ends y = ground arith

day_number-previous_year :
    (y d : ℕ)
    → 1 < y
    → day_number (record { year = y - 1; month = 12; day = 31 }) + 1
      ≡ day_number (record { year = y; month = 1; day = 1 })
day_number-previous_year y d h =
    ground (arith, leap_days_step (y - 1), days_before_ends (y - 1), days_before_ends y)

-- The previous date of a valid date, from the year 2 on, is the day before in the count of days.
day_number-previous_date_key :
    (d : DateKey) → IsDate d → 1 < d.year → day_number (previous_date_key d) + 1 ≡ day_number d
unfolding previous_date_key
day_number-previous_date_key d v h = elim (Bool-cases (ltb 1 d.day)) [
  | inl same_month ↦ rw same_month (ground arith)
  | inr first ↦ elim (Bool-cases (ltb 1 d.month)) [
    | inl same_year ↦ rw (first, same_year) (ground (arith, days_before_step d.year d.month))
    | inr january ↦ rw (first, january) (ground (arith, day_number-previous_year d.year 1))
  ]
]

pub date_lt-previous_date_key : (d : DateKey) → IsDate d → date_lt (previous_date_key d) d ≡ true
unfolding previous_date_key
date_lt-previous_date_key d v = ground arith

module _ (format_to_parts : Text → ℕ → Parts)
    (hour_lt : (zone : Text) (now : ℕ) → (format_to_parts zone now).hour < 24)
    (minute_lt : (zone : Text) (now : ℕ) → (format_to_parts zone now).minute < 60) where
  pub minute-lt-day :
      (zone : Text) (now : ℕ) → (local_moment format_to_parts zone now).minute < 1440
  unfolding local_moment
  minute-lt-day zone now = omega (arith, hour_lt zone now, minute_lt zone now)

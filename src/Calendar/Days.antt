-- ===== src/Calendar/Days.antt =====
-- Counting days: `dateFromKey`, `addDays` and the `Date.parse` of a date key, of
-- backend/src/modules/recurring-passes/recurring-qr.ts and recurring-pass.rules.ts beside it.
use entryva.Base.{
  ℕ, zero, suc, ◌+◌, ◌-◌, ◌*◌, ◌/◌, ◌≤◌, ◌<◌, ◌≡◌, refl, Bool, arith, if◌then◌else◌, ltb, leb, ◌==◌,
  ◌&&◌, Bool-cases, not, inl, inr, Option, none, some, [], ◌∷◌, Text,
}
use entryva.Calendar.{DateKey, is_leap, days_in_month}

-- A day of the Gregorian calendar, from the year 1 on.
pub record IsDate (d : DateKey) : Type 0 where
  pub year : 1 ≤ d.year
  pub month : 1 ≤ d.month
  pub month_end : d.month ≤ 12
  pub day : 1 ≤ d.day
  pub day_end : d.day ≤ days_in_month d.year d.month

-- The days of a year before a month, counted month by month.
unfoldable pub days_before : ℕ → ℕ → ℕ
days_before y m =
    if m == 1
    then 0
    else if m == 2
    then 31
    else (if is_leap y then 1 else 0)
      + (if m == 3
          then 59
          else if m == 4
          then 90
          else if m == 5
          then 120
          else if m == 6
          then 151
          else if m == 7
          then 181
          else if m == 8
          then 212
          else if m == 9
          then 243
          else if m == 10
          then 273
          else if m == 11
          then 304
          else 334)

-- The leap days up to a year, those before it and its own.
unfoldable pub leap_days : ℕ → ℕ
leap_days y = y / 4 - y / 100 + y / 400

-- The number of a day, counted from 1 January of the year 1.
abbrev pub day_number : DateKey → ℕ
day_number d = (d.year - 1) * 365 + leap_days (d.year - 1) + days_before d.year d.month + d.day

-- The days of the years before one, counted from the leap year 0.
abbrev pub days_to_year : ℕ → ℕ
days_to_year y = if y == 0 then 0 else y * 365 + 1 + leap_days (y - 1)

-- `Date.parse(`${key}T00:00:00Z`)` in days, or `none` for NaN. The engine takes a month from 1 to 12
-- and a day from 1 to 31; a day past the end of its month runs over into the next.
unfoldable pub date_parse : DateKey → Option ℕ
unfolding days_before leap_days
date_parse d =
    if (leb 1 d.month && leb d.month 12) && (leb 1 d.day && leb d.day 31)
    then some (days_to_year d.year + days_before d.year d.month + d.day)
    else none

-- `dateFromKey` and the date that the database keeps of it, or `none` for an invalid `Date`.
unfoldable pub date_from_key : DateKey → Option DateKey
unfolding days_in_month
date_from_key d =
    if not ((leb 1 d.month && leb d.month 12) && (leb 1 d.day && leb d.day 31))
    then none
    else if leb d.day (days_in_month d.year d.month)
    then some d
    else some
        (record { year = d.year; month = d.month + 1; day = d.day - days_in_month d.year d.month })

abbrev pub is_digit : ℕ → Bool
is_digit c = leb 48 c && leb c 57

-- The date that a text is for, by the pattern `/^\d{4}-\d{2}-\d{2}$/`.
unfoldable pub date_key : Text → Option DateKey
date_key (a ∷ b ∷ c ∷ d ∷ s ∷ e ∷ f ∷ t ∷ g ∷ h ∷ []) =
    if (is_digit a && is_digit b && is_digit c && is_digit d)
      && (s == 45 && t == 45)
      && (is_digit e && is_digit f && is_digit g && is_digit h)
    then some (record {
      year = (a - 48) * 1000 + (b - 48) * 100 + (c - 48) * 10 + (d - 48);
      month = (e - 48) * 10 + (f - 48);
      day = (g - 48) * 10 + (h - 48);
    })
    else none
date_key _ = none

-- `setUTCDate(getUTCDate() + 1)` carries into the month and into the year.
unfoldable pub next_date_key : DateKey → DateKey
unfolding days_in_month
next_date_key d =
    if ltb d.day (days_in_month d.year d.month)
    then record d { day = d.day + 1 }
    else if ltb d.month 12
    then record { year = d.year; month = d.month + 1; day = 1 }
    else record { year = d.year + 1; month = 1; day = 1 }

-- `addDays`, for a number of days that is not negative.
unfoldable pub add_days : DateKey → ℕ → DateKey
unfolding next_date_key
add_days d zero = d
add_days d (suc n) = add_days (next_date_key d) n

pub next_date_key-IsDate : (d : DateKey) → IsDate d → IsDate (next_date_key d)
unfolding next_date_key days_in_month
next_date_key-IsDate d v = ground arith

days_before_next :
    (y m : ℕ) → 1 ≤ m → m < 12 → days_before y m + days_in_month y m ≡ days_before y (m + 1)
unfolding days_before days_in_month
days_before_next y m h k = ground arith

leap_days_next : (y : ℕ) → leap_days (y + 1) ≡ leap_days y + (if is_leap (y + 1) then 1 else 0)
unfolding leap_days
leap_days_next y = ground arith

december : (y : ℕ) → days_before y 12 + days_in_month y 12 ≡ 365 + (if is_leap y then 1 else 0)
unfolding days_before days_in_month
december y = ground arith

january : (y : ℕ) → days_before y 1 ≡ 0
unfolding days_before
january y = refl

-- The next date of a valid date is the day after in the count of days.
pub day_number-next_date_key :
    (d : DateKey) → IsDate d → day_number (next_date_key d) ≡ day_number d + 1
unfolding next_date_key
day_number-next_date_key d v = elim (Bool-cases (ltb d.day (days_in_month d.year d.month))) [
  | inl inside ↦ rw inside (ground arith)
  | inr last ↦ elim (Bool-cases (ltb d.month 12)) [
    | inl same_year ↦ rw (last, same_year) (ground (arith, days_before_next d.year d.month))
    | inr end ↦
        let e : d.month ≡ 12 = ground (arith, v.month_end) in
        let l : d.day ≡ days_in_month d.year 12 = ground (arith, v.day_end) in
        rw (last, end)
          (ground
            (arith, december d.year, january (d.year + 1), leap_days_next (d.year - 1), v.year))
  ]
]

pub add_days-IsDate : (d : DateKey) (n : ℕ) → IsDate d → IsDate (add_days d n)
unfolding add_days
add_days-IsDate d zero v = v
add_days-IsDate d (suc n) v = add_days-IsDate (next_date_key d) n (next_date_key-IsDate d v)

-- Adding days to a valid date adds them to its number.
pub day_number-add_days :
    (d : DateKey) (n : ℕ) → IsDate d → day_number (add_days d n) ≡ day_number d + n
unfolding add_days
day_number-add_days d zero v = omega arith
day_number-add_days d (suc n) v = omega (
  arith,
  day_number-add_days (next_date_key d) n (next_date_key-IsDate d v),
  day_number-next_date_key d v,
)

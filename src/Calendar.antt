-- ===== src/Calendar.antt =====
-- Local dates and moments: `LocalMoment`, `localMoment` and `previousDateKey` of
-- backend/src/modules/recurring-passes/recurring-pass.rules.ts.
-- A date key 'YYYY-MM-DD' is kept as its three numbers. The source compares keys as strings; with
-- four digits for the year and two for the others that is the order on the numbers in turn.
pub mod Days
pub mod Laws
use entryva.Base.{ℕ, ◌+◌, ◌-◌, ◌*◌, ◌%◌, Bool, ◌&&◌, ◌||◌, ltb, leb, ◌==◌, if◌then◌else◌, not, Text}

pub record DateKey : Type 0 where
  pub year : ℕ
  pub month : ℕ
  pub day : ℕ

-- `a < b` on date keys.
abbrev pub date_lt : DateKey → DateKey → Bool
date_lt a b =
    ltb a.year b.year
    || (a.year == b.year && (ltb a.month b.month || (a.month == b.month && ltb a.day b.day)))

-- `a === b` on date keys.
abbrev pub date_eq : DateKey → DateKey → Bool
date_eq a b = a.year == b.year && (a.month == b.month && a.day == b.day)

pub record LocalMoment : Type 0 where
  pub date : DateKey
  -- 0 = Sunday ... 6 = Saturday
  pub weekday : ℕ
  -- Minutes after local midnight.
  pub minute : ℕ

-- What `Intl.DateTimeFormat(...).formatToParts` gives for an instant, its numerals read.
pub record Parts : Type 0 where
  pub year : ℕ
  pub month : ℕ
  pub day : ℕ
  pub weekday : ℕ
  pub hour : ℕ
  pub minute : ℕ

abbrev pub is_leap : ℕ → Bool
is_leap y = y % 4 == 0 && (not (y % 100 == 0) || y % 400 == 0)

unfoldable pub days_in_month : ℕ → ℕ → ℕ
days_in_month y m =
    if m == 2
    then (if is_leap y then 29 else 28)
    else if m == 4 || m == 6 || m == 9 || m == 11
    then 30
    else 31

-- `previousDateKey`: `setUTCDate(getUTCDate() - 1)` borrows from the month and from the year.
unfoldable pub previous_date_key : DateKey → DateKey
unfolding days_in_month
previous_date_key d =
    if ltb 1 d.day
    then record d { day = d.day - 1 }
    else if ltb 1 d.month
    then record { year = d.year; month = d.month - 1; day = days_in_month d.year (d.month - 1) }
    else record { year = d.year - 1; month = 12; day = 31 }

module _ (format_to_parts : Text → ℕ → Parts) where
  -- `localMoment(now, timeZone)`
  unfoldable pub local_moment : Text → ℕ → LocalMoment
  local_moment zone now =
      let p = format_to_parts zone now in
      record {
        date = record { year = p.year; month = p.month; day = p.day };
        weekday = p.weekday;
        minute = p.hour * 60 + p.minute;
      }

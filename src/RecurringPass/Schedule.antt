-- ===== src/RecurringPass/Schedule.antt =====
-- The check of a new schedule: `validatePassSchedule` of
-- backend/src/modules/recurring-passes/recurring-pass.rules.ts. The numbers of a request are natural:
-- `CreateRecurringPassDto` admits no others.
use entryva.Base.{
  ℕ, ◌+◌, ◌-◌, ◌≤◌, ◌<◌, ◌≡◌, ◌≢◌, ◌↔◌, Bool, true, false, ◌||◌, ltb, leb, ◌==◌, if◌then◌else◌,
  arith, Option, none, some, List, [], ◌∷◌, ◌++◌, any, Text, codes, refl,
}
use entryva.Calendar.{DateKey, days_in_month}
use entryva.Calendar.Days.{IsDate, day_number, date_parse, date_key}

abbrev pub max_pass_days : ℕ
max_pass_days = 90

pub record Schedule : Type 0 where
  pub days : List ℕ
  pub start_minute : ℕ
  pub end_minute : ℕ
  pub grace_minutes : ℕ
  pub valid_from : Text
  pub valid_until : Text

-- The problems that are found.
pub data Problem : Type 0 where
  no_weekday bad_start bad_end end_before_start bad_grace no_dates until_before_from too_long :
      Problem
  -- Added by `create`.
  already_past : Problem

-- The message of a problem.
abbrev pub problem_message : Problem → Text
problem_message no_weekday = codes "Choose at least one weekday."
problem_message bad_start = codes "Start time is not valid."
problem_message bad_end = codes "End time is not valid."
problem_message end_before_start = codes "End time must be after the start time."
problem_message bad_grace = codes "Grace period must be between 0 and 120 minutes."
problem_message no_dates = codes "Valid from and valid until dates are required."
problem_message until_before_from = codes "Valid until must not be before valid from."
problem_message too_long = codes "A pass can last at most 90 days. Renew it to continue."
problem_message already_past = codes "Valid until is already in the past."

-- `errors.join(' ')`
abbrev pub join_problems : List Problem → Text
join_problems [] = []
join_problems (p ∷ []) = problem_message p
join_problems (p ∷ q ∷ ps) = problem_message p ++ codes " " ++ join_problems (q ∷ ps)

-- `new Set(s.days).size !== s.days.length`
abbrev pub has_duplicate : List ℕ → Bool
has_duplicate [] = false
has_duplicate (d ∷ ds) = any (λ x. x == d) ds || has_duplicate ds

abbrev pub is_empty_list : List ℕ → Bool
is_empty_list [] = true
is_empty_list (d ∷ ds) = false

-- `if (c) errors.push(p)`
abbrev pub problem_if : Bool → Problem → List Problem
problem_if c p = if c then p ∷ [] else []

-- The problems of two dates, by their numbers. Without a number the span is NaN, and no comparison
-- with it holds.
abbrev pub span_problems : Option ℕ → Option ℕ → List Problem
span_problems none until = []
span_problems (some from) none = []
span_problems (some from) (some until) =
    if ltb until from
    then until_before_from ∷ []
    else problem_if (ltb max_pass_days (until - from + 1)) too_long

abbrev pub date_problems : Option DateKey → Option DateKey → List Problem
date_problems none until = no_dates ∷ []
date_problems (some from) none = no_dates ∷ []
date_problems (some from) (some until) = span_problems (date_parse from) (date_parse until)

-- `validatePassSchedule`
unfoldable pub validate_pass_schedule : Schedule → List Problem
validate_pass_schedule s =
    problem_if (is_empty_list s.days || (has_duplicate s.days || any (λ d. ltb 6 d) s.days))
      no_weekday
    ++ (problem_if (ltb 1439 s.start_minute) bad_start
        ++ (problem_if (ltb s.end_minute 1 || ltb 1439 s.end_minute) bad_end
            ++ (problem_if (leb s.end_minute s.start_minute) end_before_start
                ++ (problem_if (ltb 120 s.grace_minutes) bad_grace
                    ++ date_problems (date_key s.valid_from) (date_key s.valid_until)))))

-- No problem is found exactly when no test says so.
clear_iff :
    (a b c d e : Bool) (q : List Problem)
    → (problem_if a no_weekday
          ++ (problem_if b bad_start
              ++ (problem_if c bad_end
                  ++ (problem_if d end_before_start ++ (problem_if e bad_grace ++ q))))
        ≡ [])
      ↔ ((a ≡ false) × (b ≡ false) × (c ≡ false) × (d ≡ false) × (e ≡ false) × (q ≡ []))
clear_iff a b c d e q = ground arith

month_end : (y m : ℕ) → days_in_month y m ≤ 31
unfolding days_in_month
month_end y m = ground arith

-- A valid date has a number in the source's count too, 366 above the other.
pub date_parse-IsDate : (d : DateKey) → IsDate d → date_parse d ≡ some (day_number d + 366)
unfolding date_parse
date_parse-IsDate d v =
    ground (arith, v.year, v.month, v.month_end, v.day, v.day_end, month_end d.year d.month)

-- What is asked of a schedule between two dates.
pub record IsSchedule (s : Schedule) (from until : DateKey) : Type 0 where
  pub some_day : s.days ≢ []
  pub once : has_duplicate s.days ≡ false
  pub weekdays : any (λ d. ltb 6 d) s.days ≡ false
  pub window : s.start_minute < s.end_minute
  pub window_end : s.end_minute ≤ 1439
  pub grace : s.grace_minutes ≤ 120
  pub ordered : day_number from ≤ day_number until
  pub span : day_number until + 1 ≤ day_number from + 90

span_problems_iff :
    (a b : ℕ)
    → (span_problems (some (a + 366)) (some (b + 366)) ≡ []) ↔ ((a ≤ b) × (b + 1 ≤ a + 90))
span_problems_iff a b = ground arith

empty_iff : (ds : List ℕ) → (is_empty_list ds ≡ false) ↔ (ds ≢ [])
empty_iff [] = (λ h. absurd (cc), λ h. absurd (h refl))
empty_iff (d ∷ ds) = (λ h e. cc, λ h. refl)

-- Where both texts are valid dates, the check finds no problem exactly when the weekdays are a
-- non-empty list from 0 to 6 without repetition, the window lies within the day and is not empty, the
-- grace period is at most 120 minutes, and the dates are in order and span at most 90 days.
pub validate_pass_schedule_iff :
    (s : Schedule) (from until : DateKey)
    → date_key s.valid_from ≡ some from
    → date_key s.valid_until ≡ some until
    → IsDate from
    → IsDate until
    → (validate_pass_schedule s ≡ []) ↔ IsSchedule s from until
unfolding validate_pass_schedule
validate_pass_schedule_iff s from until f u v w =
    rw (f, u, date_parse-IsDate from v, date_parse-IsDate until w)
      (let (clear, problems) =
          clear_iff (is_empty_list s.days || (has_duplicate s.days || any (λ d. ltb 6 d) s.days))
            (ltb 1439 s.start_minute) (ltb s.end_minute 1 || ltb 1439 s.end_minute)
            (leb s.end_minute s.start_minute) (ltb 120 s.grace_minutes)
            (span_problems (some (day_number from + 366)) (some (day_number until + 366))) in
        let spans = span_problems_iff (day_number from) (day_number until) in
        (
          λ h.
              let (days, start, end, order, grace, dates) = clear h in
              record {
                some_day = (empty_iff s.days).0 (ground arith);
                once = ground arith;
                weekdays = ground arith;
                window = ground arith;
                window_end = ground arith;
                grace = ground arith;
                ordered = (spans.0 dates).0;
                span = (spans.0 dates).1;
              },
          λ k.
              let full : is_empty_list s.days ≡ false = (empty_iff s.days).1 k.some_day in
              problems (
                rw (full, k.once) k.weekdays,
                ground arith,
                ground arith,
                ground arith,
                ground arith,
                spans.1 (k.ordered, k.span),
              ),
        ))

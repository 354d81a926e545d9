-- ===== src/Tests/Rules.antt =====
-- Examples for the rules: recurring passes, extensions, dates and codes.
use entryva.Base.{
  ◌%◌, text_eq, ℕ, ◌≡◌, refl, true, false, arith, some, none, [], ◌∷◌, codes, ◌↔◌, ◌+◌, Text,
  to_upper, trim, whole,
}
use entryva.Calendar.{DateKey, days_in_month, local_moment}
use entryva.Calendar.Days.{IsDate}
use entryva.RecurringPass.{
  PassStatus, PassRules, ScanInput, scan_in, scan_out, evaluate_at, evaluate_pass, outside_dates,
  skipped_today, extra_today, on_weekday, outside_window, code_is_current, daily_code_for,
  evaluate_recurring_scan,
}
use entryva.RecurringPass.Scan.{ExplainsScan, evaluate_recurring_scan-Explains}
use entryva.Extension.{
  InvitationStatus, one_time, ExtensionTarget, extended, in_quiet_hours, evaluate_amount,
  evaluate_number, evaluate_extension,
}
use entryva.Extension.Bounds.{IsAllowed, evaluate_extension_iff}
use entryva.Tests.{sample_moment, sample_parts, sample_rules}

abbrev new_year : DateKey
new_year = record { year = 2026; month = 1; day = 1 }

new_year-IsDate : IsDate new_year
unfolding days_in_month
new_year-IsDate = record {
  year = omega arith;
  month = omega arith;
  month_end = omega arith;
  day = omega arith;
  day_end = omega arith;
}

-- The hexadecimal digest of a hash and a date.
abbrev sample_hmac : ℕ → DateKey → Text
sample_hmac token_hash date = (48 + date.day) ∷ (48 + token_hash % 10) ∷ codes "abcdef01"

abbrev sample_pass : PassRules
sample_pass = record {
  status = PassStatus.active;
  valid_from = record { year = 2026; month = 1; day = 1 };
  valid_until = record { year = 2026; month = 12; day = 31 };
  days = 1 ∷ 3 ∷ [];
  start_minute = 480;
  end_minute = 1020;
  grace_minutes = 15;
  token_hash = 4321;
}

-- A scan at 9:00 on a Monday, with today's code, of someone who has come in earlier.
abbrev sample_input : ScanInput
sample_input = record {
  pass = some sample_pass;
  exceptions = [];
  blacklisted = false;
  now = 32400000;
  time_zone = none;
  presented_code = some (codes "21abcdef01");
  code_required = true;
  last_direction = some scan_in;
}

scan_out_again :
    (evaluate_recurring_scan sample_hmac sample_parts sample_input).direction ≡ some scan_out
unfolding evaluate_recurring_scan evaluate_at evaluate_pass outside_dates skipped_today extra_today
    on_weekday outside_window code_is_current daily_code_for local_moment to_upper trim text_eq
scan_out_again = refl

evaluate_recurring_scan-Explains_example :
    ExplainsScan sample_hmac sample_parts sample_input
      (some sample_pass)
      (evaluate_recurring_scan sample_hmac sample_parts sample_input).reason
evaluate_recurring_scan-Explains_example =
    evaluate_recurring_scan-Explains sample_hmac sample_parts sample_input

abbrev sample_target : ExtensionTarget
sample_target = record {
  status = InvitationStatus.active;
  entry_policy = one_time;
  valid_from = 21600000;
  valid_until = 36000000;
}

evaluate_extension_iff_example :
    (evaluate_extension (sample_moment (codes "UTC")) sample_target sample_rules (whole 30) 25200000
      ≡ extended 37800000 30)
    ↔ ((whole 30 ≡ whole 30)
        × IsAllowed (sample_moment (codes "UTC")) sample_target sample_rules 25200000 30 37800000)
evaluate_extension_iff_example =
    evaluate_extension_iff (sample_moment (codes "UTC")) sample_target sample_rules 25200000
      (whole 30) 30 37800000

thirty_minutes :
    evaluate_extension (sample_moment (codes "UTC")) sample_target sample_rules (whole 30) 25200000
    ≡ extended 37800000 30
unfolding evaluate_extension evaluate_number evaluate_amount in_quiet_hours
thirty_minutes = refl

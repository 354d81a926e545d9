-- ===== src/Tests/Created.antt =====
-- Examples for a new recurring pass.
use entryva.Base.{◌≡◌, refl, false, arith, none, some, [], ◌∷◌, codes, trim}
use entryva.Calendar.{DateKey, local_moment, days_in_month}
use entryva.Calendar.Days.{IsDate, date_parse, date_key, date_from_key}
use entryva.RecurringPass.{PassStatus}
use entryva.RecurringPass.Schedule.{validate_pass_schedule}
use entryva.Store.{cleaner}
use entryva.ResidentPasses.{CreateRecurringPass, PassView, create, create_problems, sort_days}
use entryva.ResidentPasses.Created.{Created, create-Created}
use entryva.Tests.{sample_hash, sample_parts}
use entryva.Tests.Scans.{sample_token, scan_db, nine}
use entryva.Tests.Residents.{ada}

abbrev mondays : CreateRecurringPass
mondays = record {
  full_name = codes "Bisi";
  phone = none;
  role = cleaner;
  days = 1 ∷ [];
  start_minute = 480;
  end_minute = 1020;
  valid_from = codes "2026-03-02";
  valid_until = codes "2026-03-31";
  grace_minutes = none;
}

abbrev first_day : DateKey
first_day = record { year = 2026; month = 3; day = 2 }

abbrev last_day : DateKey
last_day = record { year = 2026; month = 3; day = 31 }

first_day-IsDate : IsDate first_day
unfolding days_in_month
first_day-IsDate = omega arith

last_day-IsDate : IsDate last_day
unfolding days_in_month
last_day-IsDate = omega arith

abbrev shown : PassView
shown = record {
  id = 200;
  full_name = codes "Bisi";
  phone = none;
  role = cleaner;
  days = 1 ∷ [];
  start_minute = 480;
  end_minute = 1020;
  valid_from = first_day;
  valid_until = last_day;
  grace_minutes = 30;
  status = PassStatus.active;
  phone_linked = false;
  inside = false;
  upcoming_exceptions = [];
  created_at = 32400000;
}

keys :
    (date_key (codes "2026-03-02") ≡ some first_day)
    × (date_key (codes "2026-03-31") ≡ some last_day)
unfolding date_key
keys = (refl, refl)

create-Created_example :
    Created sample_hash sample_parts nine ada mondays sample_token scan_db
      (shown, sample_token)
      first_day
      last_day
      keys.0
      first_day-IsDate
      keys.1
      last_day-IsDate
unfolding create create_problems validate_pass_schedule sort_days date_key date_from_key date_parse
    days_in_month local_moment trim
create-Created_example =
    create-Created sample_hash sample_parts nine ada mondays sample_token scan_db
      (shown, sample_token) first_day last_day keys.0 first_day-IsDate keys.1 last_day-IsDate refl

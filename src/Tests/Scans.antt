-- ===== src/Tests/Scans.antt =====
-- Examples for scans of recurring passes.
use entryva.Base.{
  find, ◌==◌, ◌&&◌, ℕ, ◌+◌, ◌≡◌, ◌≢◌, refl, ap, ◌∙◌, true, false, arith, none, some, [], ◌∷◌, ◌++◌,
  codes, Text, trim, to_upper, text_eq,
}
use entryva.Calendar.{DateKey, local_moment}
use entryva.Effects.{ok}
use entryva.PassQr.{separator, is_token, is_code, phone_key, last_nine}
use entryva.PassQr.RoundTrip.{parse_recurring_qr-join}
use entryva.RecurringPass.{
  PassStatus, scan_in, scan_out, evaluate_at, evaluate_pass, outside_dates, skipped_today,
  extra_today, on_weekday, outside_window, code_is_current, daily_code_for, evaluate_recurring_scan,
  is_overdue_inside,
}
use entryva.Store.{cleaner, RecurringPass, RecurringPassScan, Db, Env}
use entryva.PassStanding.{RecurringScanResponse, zone_of, is_blacklisted, standing, decide}
use entryva.RecurringScan.{scan_pass, scan_parsed, scan}
use entryva.RecurringScan.Records.{scan-twice}
use entryva.RecurringScan.Turns.{Before, scan_pass-turns}
use entryva.Tests.{sample_hash, sample_parts, sample_db, sample_officer}

abbrev pub sample_token : Text
sample_token = codes "abcdefghijklmnop"

-- The hexadecimal digest of a hash and a date.
abbrev daily_hmac : ℕ → DateKey → Text
daily_hmac token_hash date = (48 + date.day) ∷ codes "abcdef012"

abbrev pub bisi : RecurringPass
bisi = record {
  id = 50;
  estate_id = 1;
  resident_id = 10;
  apartment_id = 5;
  full_name = codes "Bisi";
  phone = none;
  role = cleaner;
  rules = record {
    status = PassStatus.active;
    valid_from = record { year = 2026; month = 1; day = 1 };
    valid_until = record { year = 2026; month = 3; day = 31 };
    days = 1 ∷ [];
    start_minute = 480;
    end_minute = 1020;
    grace_minutes = 15;
    token_hash = sample_hash sample_token;
  };
  exceptions = [];
  linked_device = none;
  linked_at = none;
  created_at = 1;
}

abbrev pub scan_db : Db
scan_db = record sample_db { recurring_passes = bisi ∷ [] }

-- 9:00, and five seconds later.
abbrev pub nine : Env
nine = record { now = 32400000; new_id = 200 }

abbrev pub nine_again : Env
nine_again = record { now = 32405000; new_id = 201 }

abbrev qr_text : Text
qr_text = sample_token ++ separator ∷ codes "2ABCDEF012"

well_formed : (is_token sample_token ≡ true) × (is_code (codes "2ABCDEF012") ≡ true)
unfolding is_token is_code
well_formed = (refl, refl)

abbrev came_in : RecurringScanResponse
came_in = record {
  allowed = true;
  message = "Allowed";
  reason = none;
  direction = some scan_in;
  duplicate = false;
  overdue = false;
  previous_visit_open = false;
  pass = some (record {
    id = 50;
    full_name = codes "Bisi";
    role = cleaner;
    resident_name = some (codes "Ada");
    apartment_label = some (codes "2");
    start_minute = 480;
    end_minute = 1020;
  });
}

first_scan :
    (scan_pass sample_hash daily_hmac sample_parts nine sample_officer none bisi
      (codes "2ABCDEF012")
      scan_db).0
    ≡ ok came_in
unfolding scan_pass standing decide is_blacklisted phone_key last_nine evaluate_recurring_scan
    evaluate_at evaluate_pass outside_dates skipped_today extra_today on_weekday outside_window
    code_is_current daily_code_for is_overdue_inside local_moment to_upper trim text_eq
first_scan = refl

scanned :
    (scan sample_hash daily_hmac sample_parts nine sample_officer qr_text none scan_db).0
    ≡ ok came_in
unfolding scan
scanned =
    ap (λ q. (scan_parsed sample_hash daily_hmac sample_parts nine sample_officer none q scan_db).0)
      (parse_recurring_qr-join sample_token (codes "2ABCDEF012") [] well_formed.0 well_formed.1).0
    ∙ first_scan

scan-twice_example :
    let after =
      (scan sample_hash daily_hmac sample_parts nine sample_officer qr_text none scan_db).1 in
    let (answer, second) =
      scan sample_hash daily_hmac sample_parts nine_again sample_officer qr_text none after in
    (second ≡ after)
    × ((r' : RecurringScanResponse) × (answer ≡ ok r')
        × (r'.allowed ≡ true)
        × (r'.duplicate ≡ true)
        × (r'.direction ≡ some scan_in))
scan-twice_example =
    scan-twice sample_hash daily_hmac sample_parts nine sample_officer qr_text none scan_db came_in
      scanned refl refl nine_again none (omega arith)

scan_pass-turns_example :
    let last = find (λ s. s.pass_id == 50 && s.allowed) scan_db.recurring_pass_scans in
    let zone = zone_of (find (λ e. e.id == 1) scan_db.estates) in
    let day = λ (t : ℕ). (local_moment sample_parts zone t).date in
    ((s : RecurringPassScan)
      → last ≡ some s
      → s.direction ≡ some scan_in
      → ¬ Before (day s.scanned_at) (day nine.now)
      → (some scan_in ≡ some scan_out) × (false ≡ false))
    × ((s : RecurringPassScan)
        → last ≡ some s
        → s.direction ≡ some scan_in
        → Before (day s.scanned_at) (day nine.now)
        → (some scan_in ≡ some scan_in) × (false ≡ true))
    × (((s : RecurringPassScan) → last ≡ some s → s.direction ≢ some scan_in)
        → (some scan_in ≡ some scan_in) × (false ≡ false))
scan_pass-turns_example =
    scan_pass-turns sample_hash daily_hmac sample_parts nine sample_officer none bisi
      (codes "2ABCDEF012") scan_db came_in first_scan refl refl

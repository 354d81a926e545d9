-- ===== src/Tests/Residents.antt =====
-- Examples for the recurring passes of residents.
use entryva.Base.{
  ℕ, ◌≡◌, refl, true, false, arith, none, some, String, [], ◌∷◌, ◌++◌, List, codes, Text, to_upper,
  find,
}
use entryva.Calendar.{DateKey, local_moment, days_in_month}
use entryva.Calendar.Days.{IsDate, date_from_key}
use entryva.Effects.{ok}
use entryva.PassQr.{phone_key, last_nine, is_token, separator, parse_recurring_qr}
use entryva.RecurringPass.{
  PassStatus, evaluate_at, evaluate_pass, outside_dates, skipped_today, code_is_current,
  daily_code_for, evaluate_recurring_scan, is_overdue_inside, skip, ScanDenyReason, deny_message,
}
use entryva.Store.{cleaner, RecurringPass, Db}
use entryva.PassStanding.{RecurringScanResponse, is_blacklisted, standing, decide}
use entryva.RecurringScan.{scan_pass}
use entryva.ResidentPasses.{ResidentPassContext}
use entryva.ResidentPasses.Change
use entryva.ResidentPasses.Change.{skip_day, renew, pause, resume, revoke, set_status}
use entryva.ResidentPasses.Link.{PublicPass, public_view}
use entryva.ResidentPasses.Machine.{state_of, Reach}
use entryva.ResidentPasses.Requests.{PassPlatform, PassRequest, serve_pass, serve_passes}
use entryva.ResidentPasses.Requests.Writes.{is_row}
use entryva.ResidentPasses.Requests.Refines.{serve_passes-Reach, serve_passes-revoked}
use entryva.ResidentPasses.Requests.Phone.{first_phone_keeps}
use entryva.ResidentPasses.Gate.{skip_day-refused}
use entryva.ResidentPasses.Code.{shown_code_scans}
use entryva.Tests.{sample_hash, sample_parts, sample_officer}
use entryva.Tests.Scans.{sample_token, bisi, scan_db, nine, nine_again}

abbrev plain_hmac : ℕ → DateKey → Text
plain_hmac k d = codes "0123456789"

abbrev sample_platform : PassPlatform
sample_platform = record {
  hash = sample_hash;
  hmac_hex = plain_hmac;
  format_to_parts = sample_parts;
}

abbrev pub ada : ResidentPassContext
ada = record {
  user_id = 11;
  resident_id = 10;
  estate_id = 1;
  apartment_id = some 5;
  display_name = codes "Ada";
}

sample_dates : (zone : Text) (now : ℕ) → IsDate (local_moment sample_parts zone now).date
unfolding local_moment days_in_month
sample_dates zone now = record {
  year = omega arith;
  month = omega arith;
  month_end = omega arith;
  day = omega arith;
  day_end = omega arith;
}

abbrev changes : List PassRequest
changes =
    PassRequest.pause ada 50
    ∷ PassRequest.resume ada 50
    ∷ PassRequest.renew nine ada 50 30
    ∷ PassRequest.reset_phone ada 50
    ∷ []

serve_passes-Reach_example :
    (q : RecurringPass) × (find
        (is_row 50)
        (serve_passes sample_platform changes scan_db).recurring_passes
      ≡ some q)
    × Reach true (state_of bisi) (state_of q)
serve_passes-Reach_example =
    serve_passes-Reach sample_platform sample_dates 50 scan_db bisi changes (λ e. tt, tt) refl
      (tt, (tt, (omega arith, (refl, tt))))

abbrev revoked_bisi : RecurringPass
revoked_bisi = record bisi { rules = record bisi.rules { status = PassStatus.revoked } }

abbrev revoked_db : Db
revoked_db = record scan_db { recurring_passes = revoked_bisi ∷ [] }

abbrev turned_away : ScanDenyReason → String → RecurringScanResponse
turned_away reason message = record {
  allowed = false;
  message = message;
  reason = some reason;
  direction = none;
  duplicate = false;
  overdue = false;
  previous_visit_open = false;
  pass = some (record {
    id = 50;
    full_name = codes "Bisi";
    role = cleaner;
    resident_name = some (codes "Ada");
    apartment_label = some (codes "2");
    start_minute = 480;
    end_minute = 1020;
  });
}

serve_passes-revoked_example :
    (PassStatus.revoked ≡ PassStatus.revoked)
    × ((turned_away ScanDenyReason.revoked "Pass revoked").allowed ≡ false)
unfolding serve_passes serve_pass Change.resume Change.set_status scan_pass standing decide
    is_blacklisted phone_key last_nine evaluate_recurring_scan evaluate_at evaluate_pass
    is_overdue_inside local_moment deny_message
serve_passes-revoked_example =
    serve_passes-revoked sample_platform sample_dates 50 revoked_db revoked_bisi
      (PassRequest.resume ada 50 ∷ []) (λ e. tt, tt) refl (tt, tt) revoked_bisi nine sample_officer
      none (codes "2ABCDEF012") revoked_db (turned_away ScanDenyReason.revoked "Pass revoked") refl
      refl refl refl

abbrev phone : Text
phone = codes "phone-of-bisi-01"

abbrev bisis_page : PublicPass
bisis_page = record {
  full_name = codes "Bisi";
  role = cleaner;
  status = PassStatus.active;
  resident_name = some (codes "Ada");
  apartment_label = some (codes "2");
  days = 1 ∷ [];
  start_minute = 480;
  end_minute = 1020;
  valid_from = record { year = 2026; month = 1; day = 1 };
  valid_until = record { year = 2026; month = 3; day = 31 };
  code = some (codes "0123456789");
  code_date = record { year = 2026; month = 3; day = 2 };
}

page_opened :
    (public_view sample_hash plain_hmac sample_parts nine sample_token (some phone) scan_db).0
    ≡ ok bisis_page
unfolding public_view is_token daily_code_for local_moment to_upper
page_opened = refl

abbrev linked_bisi : RecurringPass
linked_bisi = record bisi { linked_device = some (sample_hash phone); linked_at = some 32400000 }

first_phone_keeps_example : sample_hash phone ≡ sample_hash phone
unfolding public_view is_token daily_code_for local_moment to_upper serve_passes serve_pass
    Change.pause Change.resume Change.set_status
first_phone_keeps_example =
    first_phone_keeps sample_platform sample_dates nine nine_again sample_token phone sample_token
      phone scan_db bisi linked_bisi bisis_page bisis_page
      (PassRequest.pause ada 50 ∷ PassRequest.resume ada 50 ∷ []) (λ e. tt, tt) refl refl
      page_opened (tt, (tt, tt)) refl refl refl

abbrev skipped_bisi : RecurringPass
skipped_bisi = record bisi {
  exceptions =
      record {
        date = record { year = 2026; month = 3; day = 2 };
        type = skip;
        start_minute = none;
        end_minute = none;
      }
      ∷ [];
}

skip_day-refused_example :
    (turned_away ScanDenyReason.skipped "Skipped by resident").allowed ≡ false
unfolding skip_day date_from_key days_in_month scan_pass standing decide is_blacklisted phone_key
    last_nine evaluate_recurring_scan evaluate_at evaluate_pass outside_dates skipped_today
    is_overdue_inside local_moment deny_message
skip_day-refused_example =
    let day : DateKey = record { year = 2026; month = 3; day = 2 } in
    skip_day-refused plain_hmac sample_parts nine ada 50 day day scan_db bisi skipped_bisi
      (50, day, skip) sample_hash nine sample_officer none (codes "2ABCDEF012") scan_db
      (turned_away ScanDenyReason.skipped "Skipped by resident") refl refl refl refl refl refl refl
      refl

shown_code_scans_example :
    (code_is_current plain_hmac bisi.rules.token_hash
        (some (codes "0123456789"))
        (local_moment sample_parts (codes "Africa/Lagos") 32400000)
      ≡ true)
    × (parse_recurring_qr (sample_token ++ separator ∷ codes "0123456789")
        ≡ some (record { token = sample_token; code = codes "0123456789" }))
shown_code_scans_example =
    shown_code_scans sample_hash plain_hmac sample_parts nine sample_token (some phone) scan_db bisi
      bisis_page (codes "0123456789") refl page_opened refl
      (λ k d. (refl, (refl, (refl, (refl, (refl, (refl, (refl, (refl, (refl, (refl, tt)))))))))))
      (λ k d. omega arith)

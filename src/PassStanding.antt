-- ===== src/PassStanding.antt =====
-- What a scan finds out about a recurring pass before it decides:
-- backend/src/modules/recurring-passes/recurring-scan.service.ts. SHA-256, HMAC and the clock of a
-- time zone are parameters.
use entryva.Base.{
  ℕ, ◌-◌, ◌*◌, Bool, true, false, ◌&&◌, ltb, ◌==◌, if◌then◌else◌, Option, none, some, is_some, [],
  ◌∷◌, find, any, Text, String,
}
use entryva.Calendar.{DateKey, date_lt, Parts, local_moment}
use entryva.RecurringPass.{
  default_time_zone, ScanDirection, scan_out, ScanDenyReason, ScanDecision, direction_is_in,
  evaluate_recurring_scan, is_overdue_inside,
}
use entryva.PassQr.{phone_key, same_key}
use entryva.Store.{
  Estate, Apartment, ResidentProfile, RecurringPassRole, RecurringPass, RecurringPassScan, Db, Env,
  SecurityContext,
}

-- `DUPLICATE_SCAN_SECONDS`
abbrev pub duplicate_scan_seconds : ℕ
duplicate_scan_seconds = 10

-- The part of a pass that an officer sees.
pub record PassInfo : Type 0 where
  pub id : ℕ
  pub full_name : Text
  pub role : RecurringPassRole
  pub resident_name : Option Text
  pub apartment_label : Option Text
  pub start_minute : ℕ
  pub end_minute : ℕ

pub record RecurringScanResponse : Type 0 where
  pub allowed : Bool
  pub message : String
  pub reason : Option ScanDenyReason
  pub direction : Option ScanDirection
  pub duplicate : Bool
  pub overdue : Bool
  pub previous_visit_open : Bool
  pub pass : Option PassInfo

-- `estate?.timezone || DEFAULT_TIME_ZONE`
abbrev pub or_default : Text → Text
or_default [] = default_time_zone
or_default (c ∷ cs) = c ∷ cs

abbrev pub zone_of : Option Estate → Text
zone_of none = default_time_zone
zone_of (some e) = or_default e.timezone

abbrev pub name_of : Option ResidentProfile → Option Text
name_of none = none
name_of (some r) = some r.display_name

abbrev pub label_of : Option Apartment → Option Text
label_of none = none
label_of (some a) = some a.flat_number

-- The direction and the time of the last allowed scan.
abbrev pub direction_of : Option RecurringPassScan → Option ScanDirection
direction_of none = none
direction_of (some s) = s.direction

-- Whether the estate has blocked the phone of a pass.
unfoldable pub is_blacklisted : ℕ → Option Text → Db → Bool
is_blacklisted estate_id phone db =
    is_some (phone_key phone)
    && any (λ b. b.estate_id == estate_id && same_key (phone_key (some b.phone)) (phone_key phone))
        db.blocked_persons

-- The last allowed scan of a pass, scans being kept with the newest first.
abbrev pub last_allowed : ℕ → Db → Option RecurringPassScan
last_allowed id db = find (λ s. s.pass_id == id && s.allowed) db.recurring_pass_scans

abbrev pub is_scan_out : Option ScanDirection → Bool
is_scan_out (some scan_out) = true
is_scan_out _ = false

abbrev pub is_earlier : Option DateKey → DateKey → Bool
is_earlier none today = false
is_earlier (some d) today = date_lt d today

-- What the scan finds out about a pass before it decides.
pub record Standing : Type 0 where
  pub zone : Text
  pub blacklisted : Bool
  pub last : Option RecurringPassScan
  pub overdue : Bool
  pub previous_visit_open : Bool
  pub resident : Option ResidentProfile
  pub info : PassInfo

abbrev pub info_of : RecurringPass → Db → PassInfo
info_of pass db = record {
  id = pass.id;
  full_name = pass.full_name;
  role = pass.role;
  resident_name = name_of (find (λ r. r.id == pass.resident_id) db.residents);
  apartment_label = label_of (find (λ a. a.id == pass.apartment_id) db.apartments);
  start_minute = pass.rules.start_minute;
  end_minute = pass.rules.end_minute;
}

-- A second scan within seconds of an allowed one.
abbrev pub is_repeat : ℕ → Option RecurringPassScan → Bool
is_repeat now none = false
is_repeat now (some s) = ltb (now - s.scanned_at) (duplicate_scan_seconds * 1000)

module _ (format_to_parts : Text → ℕ → Parts) where
  abbrev pub date_of : Text → Option RecurringPassScan → Option DateKey
  date_of zone none = none
  date_of zone (some s) = some (local_moment format_to_parts zone s.scanned_at).date

  abbrev pub visit_left_open : ℕ → Text → Option RecurringPassScan → Bool
  visit_left_open now zone last =
      direction_is_in (direction_of last)
      && is_earlier (date_of zone last) (local_moment format_to_parts zone now).date

  unfoldable pub standing : Env → SecurityContext → RecurringPass → Db → Standing
  unfolding is_overdue_inside
  standing env ctx pass db =
      let zone = zone_of (find (λ e. e.id == ctx.estate_id) db.estates) in
      let last = last_allowed pass.id db in
      record {
        zone = zone;
        blacklisted = is_blacklisted ctx.estate_id pass.phone db;
        last = last;
        overdue =
            is_overdue_inside format_to_parts (direction_of last) (date_of zone last)
              pass.rules.end_minute pass.rules.grace_minutes env.now (some zone);
        previous_visit_open = visit_left_open env.now zone last;
        resident = find (λ r. r.id == pass.resident_id) db.residents;
        info = info_of pass db;
      }

module _ (hmac_hex : ℕ → DateKey → Text) (format_to_parts : Text → ℕ → Parts) where
  unfoldable pub decide : Env → RecurringPass → Text → Standing → ScanDecision
  unfolding evaluate_recurring_scan
  decide env pass code st = evaluate_recurring_scan hmac_hex format_to_parts (record {
    pass = some pass.rules;
    exceptions = pass.exceptions;
    blacklisted = st.blacklisted;
    now = env.now;
    time_zone = some st.zone;
    presented_code = some code;
    code_required = true;
    last_direction = if st.previous_visit_open then none else direction_of st.last;
  })

-- ===== src/RecurringScan.antt =====
-- Scans of recurring passes at the gate:
-- backend/src/modules/recurring-passes/recurring-scan.service.ts and recurring-qr.ts beside it.
-- SHA-256, HMAC and the clock of a time zone are parameters.
pub mod Records
pub mod Turns
use entryva.Base.{
  ℕ, ◌-◌, ◌*◌, Bool, true, false, ◌&&◌, not, ltb, ◌==◌, if◌then◌else◌, Option, none, some, is_some,
  List, [], ◌∷◌, find, keep, any, Text, String,
}
use entryva.Calendar.{DateKey, date_lt, LocalMoment, Parts, local_moment}
use entryva.Effects.{Action, ok, pure, gets, modify, when, ◌>>=◌, ◌>>◌}
use entryva.RecurringPass.{
  default_time_zone, ScanDirection, scan_in, scan_out, ScanDenyReason, PassRules, PassException,
  ScanInput, ScanDecision, direction_is_in, evaluate_recurring_scan, is_overdue_inside,
}
use entryva.PassQr.{RecurringQr, parse_recurring_qr, phone_key, same_key}
use entryva.Store.{
  Estate, Apartment, ResidentProfile, RecurringPassRole, RecurringPass, RecurringPassScan,
  AuditAction, recurring_scan_allowed, recurring_scan_denied, NotificationEvent,
  recurring_pass_entered, recurring_pass_exited, recurring_pass_overdue, Db, Env, log, dispatch,
  SecurityContext,
}
use entryva.PassStanding.{
  duplicate_scan_seconds, PassInfo, RecurringScanResponse, or_default, zone_of, name_of, label_of,
  direction_of, is_blacklisted, last_allowed, is_scan_out, date_of, is_earlier, Standing,
  visit_left_open, info_of, standing, is_repeat, decide,
}

module _ (hash : Text → ℕ) (hmac_hex : ℕ → DateKey → Text)
    (format_to_parts : Text → ℕ → Parts) where
  abbrev pub scan_row : Env → Option ℕ → RecurringPass → ScanDecision → RecurringPassScan
  scan_row env user_id pass d = record {
    pass_id = pass.id;
    officer_user_id = user_id;
    scanned_at = env.now;
    direction = if d.allowed then d.direction else none;
    allowed = d.allowed;
    reason = if d.allowed then none else d.reason;
  }

  -- The audit action of a scan of a pass.
  abbrev pub scan_action : SecurityContext → Standing → ScanDecision → AuditAction
  scan_action ctx st d =
      if d.allowed
      then recurring_scan_allowed d.direction st.overdue st.previous_visit_open ctx.officer_id
      else recurring_scan_denied d.reason st.overdue st.previous_visit_open ctx.officer_id

  abbrev pub tell_scanned :
      RecurringPass → Standing → ScanDecision → Option ResidentProfile → Db → Db
  tell_scanned pass st d none db = db
  tell_scanned pass st d (some r) db =
      let told =
        dispatch r.user_id
          (if is_scan_out d.direction
            then recurring_pass_exited pass.id pass.full_name
            else recurring_pass_entered pass.id pass.full_name)
          db in
      if not st.overdue && not st.previous_visit_open
      then told
      else dispatch r.user_id (recurring_pass_overdue pass.id pass.full_name) told

  -- The rows that a scan of a pass writes.
  abbrev pub record_scan :
      Env → SecurityContext → Option ℕ → RecurringPass → Standing → ScanDecision → Db → Db
  record_scan env ctx user_id pass st d db =
      let logged =
        log
          (record {
            action = scan_action ctx st d;
            user_id = user_id;
            estate_id = some ctx.estate_id;
            entity_id = some pass.id;
          })
          (record db {
            recurring_pass_scans = scan_row env user_id pass d ∷ db.recurring_pass_scans;
          }) in
      if d.allowed then tell_scanned pass st d st.resident logged else logged

  abbrev pub repeat_response : Standing → RecurringScanResponse
  repeat_response st = record {
    allowed = true;
    message = "Already scanned a moment ago";
    reason = none;
    direction = direction_of st.last;
    duplicate = true;
    overdue = st.overdue;
    previous_visit_open = st.previous_visit_open;
    pass = some st.info;
  }

  abbrev pub scan_response : Standing → ScanDecision → RecurringScanResponse
  scan_response st d = record {
    allowed = d.allowed;
    message = d.message;
    reason = d.reason;
    direction = d.direction;
    duplicate = false;
    overdue = st.overdue;
    previous_visit_open = st.previous_visit_open;
    pass = some st.info;
  }

  -- `scan`, once the pass and the code were found.
  unfoldable pub scan_pass :
      Env → SecurityContext → Option ℕ → RecurringPass → Text → Action Db RecurringScanResponse
  scan_pass env ctx user_id pass code db =
      let st = standing format_to_parts env ctx pass db in
      let d = decide hmac_hex format_to_parts env pass code st in
      if is_repeat env.now st.last
      then (ok (repeat_response st), db)
      else (ok (scan_response st d), record_scan env ctx user_id pass st d db)

  -- The answer and the audit entry where no pass of the estate was found.
  unfoldable pub scan_nothing : Env → SecurityContext → Action Db RecurringScanResponse
  unfolding evaluate_recurring_scan
  scan_nothing env ctx db =
      let d = evaluate_recurring_scan hmac_hex format_to_parts (record {
        pass = none;
        exceptions = [];
        blacklisted = false;
        now = env.now;
        time_zone = some (zone_of (find (λ e. e.id == ctx.estate_id) db.estates));
        presented_code = none;
        code_required = true;
        last_direction = none;
      }) in
      (
        ok (record {
          allowed = false;
          message = d.message;
          reason = d.reason;
          direction = none;
          duplicate = false;
          overdue = false;
          previous_visit_open = false;
          pass = none;
        }),
        log
            (record {
              action = recurring_scan_denied d.reason false false ctx.officer_id;
              user_id = none;
              estate_id = some ctx.estate_id;
              entity_id = none;
            })
            db,
      )

  -- The pass of the officer's estate that a token is for.
  abbrev pub find_pass : SecurityContext → Text → Db → Option RecurringPass
  find_pass ctx token db =
      keep (λ p. p.estate_id == ctx.estate_id)
        (find (λ p. p.rules.token_hash == hash token) db.recurring_passes)

  abbrev pub scan_found :
      Env
      → SecurityContext
      → Option ℕ
      → Text
      → Option RecurringPass
      → Action Db RecurringScanResponse
  scan_found env ctx user_id code none = scan_nothing env ctx
  scan_found env ctx user_id code (some pass) = scan_pass env ctx user_id pass code

  abbrev pub scan_parsed :
      Env → SecurityContext → Option ℕ → Option RecurringQr → Action Db RecurringScanResponse
  scan_parsed env ctx user_id none db = scan_nothing env ctx db
  scan_parsed env ctx user_id (some qr) db =
      scan_found env ctx user_id qr.code (find_pass ctx qr.token db) db

  -- `scan`
  unfoldable pub scan : Env → SecurityContext → Text → Option ℕ → Action Db RecurringScanResponse
  scan env ctx raw user_id = scan_parsed env ctx user_id (parse_recurring_qr raw)

-- ===== src/RecurringScan/Records.antt =====
-- What a scan of a recurring pass records, and a scan that is repeated: `scan` of
-- backend/src/modules/recurring-passes/recurring-scan.service.ts.
use entryva.Base.{
  ℕ, ◌+◌, ◌<◌, ◌≡◌, refl, sym, ap, ◌∙◌, true, false, ◌&&◌, arith, ◌==◌, ==_refl, Bool-cases,
  Option-cases, inl, inr, Option, some, List, ◌∷◌, keep, find, find_head, Text,
}
use entryva.Calendar.{DateKey, Parts}
use entryva.Effects.{ok}
use entryva.RecurringPass.{ScanDecision}
use entryva.PassQr.{RecurringQr, parse_recurring_qr}
use entryva.Store.{RecurringPass, RecurringPassScan, Db, Env, SecurityContext}
use entryva.PassStanding.{
  RecurringScanResponse, Standing, direction_of, last_allowed, standing, is_repeat, decide,
}
use entryva.RecurringScan.{
  scan_row, record_scan, repeat_response, scan_response, scan_pass, scan_nothing, find_pass, scan,
}

module _ (hash : Text → ℕ) (hmac_hex : ℕ → DateKey → Text) (format_to_parts : Text → ℕ → Parts)
    (env : Env) (ctx : SecurityContext) (user_id : Option ℕ) where
  scan_nothing-refuses :
      (db : Db) (r : RecurringScanResponse)
      → (scan_nothing hash hmac_hex format_to_parts env ctx db).0 ≡ ok r
      → r.allowed ≡ false
  unfolding scan_nothing
  scan_nothing-refuses db r h = ground arith

  -- The pass that an allowed scan was of.
  record Scanned (raw : Text) (db : Db) : Type 0 where
    qr : RecurringQr
    pass : RecurringPass
    parsed : parse_recurring_qr raw ≡ some qr
    found : find_pass hash hmac_hex format_to_parts ctx qr.token db ≡ some pass

  scan-Scanned :
      (raw : Text) (db : Db) (r : RecurringScanResponse)
      → (scan hash hmac_hex format_to_parts env ctx raw user_id db).0 ≡ ok r
      → r.allowed ≡ true
      → Scanned raw db
  unfolding scan
  scan-Scanned raw db r h a = elim (Option-cases (parse_recurring_qr raw)) [
    | inl p ↦ absurd (ground (arith, scan_nothing-refuses db r))
    | inr (qr, p) ↦ elim (Option-cases (find_pass hash hmac_hex format_to_parts ctx qr.token db)) [
      | inl f ↦ absurd (ground (arith, scan_nothing-refuses db r))
      | inr (pass, f) ↦ record { qr = qr; pass = pass; parsed = p; found = f }
    ]
  ]

  scan-found :
      (raw : Text) (db : Db) (qr : RecurringQr) (pass : RecurringPass)
      → parse_recurring_qr raw ≡ some qr
      → find_pass hash hmac_hex format_to_parts ctx qr.token db ≡ some pass
      → scan hash hmac_hex format_to_parts env ctx raw user_id db
        ≡ scan_pass hash hmac_hex format_to_parts env ctx user_id pass qr.code db
  unfolding scan
  scan-found raw db qr pass p f = ground (arith, p, f)

  record_scan-rows :
      (pass : RecurringPass) (st : Standing) (d : ScanDecision) (db : Db)
      → let after = record_scan hash hmac_hex format_to_parts env ctx user_id pass st d db in
        (after.recurring_pass_scans
          ≡ scan_row hash hmac_hex format_to_parts env user_id pass d ∷ db.recurring_pass_scans)
        × (after.recurring_passes ≡ db.recurring_passes)
  record_scan-rows pass st d db = elim (Option-cases st.resident) [
    | inl e ↦ ground arith
    | inr (r, e) ↦ ground arith
  ]

  pub scan_pass-first :
      (pass : RecurringPass) (code : Text) (db : Db) (r : RecurringScanResponse)
      → (scan_pass hash hmac_hex format_to_parts env ctx user_id pass code db).0 ≡ ok r
      → r.duplicate ≡ false
      → let st = standing format_to_parts env ctx pass db in
        let d = decide hmac_hex format_to_parts env pass code st in
        (r ≡ scan_response hash hmac_hex format_to_parts st d)
        × ((scan_pass hash hmac_hex format_to_parts env ctx user_id pass code db).1
            ≡ record_scan hash hmac_hex format_to_parts env ctx user_id pass st d db)
  unfolding scan_pass
  scan_pass-first pass code db r h first =
      let st = standing format_to_parts env ctx pass db in
      elim (Bool-cases (is_repeat env.now st.last)) [
        | inl e ↦ absurd (ground arith)
        | inr e ↦ rw e (ground (arith, h), refl)
      ]

  scan_pass-repeat :
      (pass : RecurringPass) (code : Text) (db : Db)
      → let st = standing format_to_parts env ctx pass db in
        is_repeat env.now st.last ≡ true
        → scan_pass hash hmac_hex format_to_parts env ctx user_id pass code db
          ≡ (ok (repeat_response hash hmac_hex format_to_parts st), db)
  unfolding scan_pass
  scan_pass-repeat pass code db e = rw e

  standing-last :
      (pass : RecurringPass) (db : Db)
      → (standing format_to_parts env ctx pass db).last ≡ last_allowed pass.id db
  unfolding standing
  standing-last pass db = refl

module _ (hash : Text → ℕ) (hmac_hex : ℕ → DateKey → Text) (format_to_parts : Text → ℕ → Parts)
    (env : Env) (ctx : SecurityContext) (raw : Text) (user_id : Option ℕ) (db : Db)
    (r : RecurringScanResponse)
    (scanned : (scan hash hmac_hex format_to_parts env ctx raw user_id db).0 ≡ ok r)
    (allowed : r.allowed ≡ true) (first : r.duplicate ≡ false) where
  abbrev after : Db
  after = (scan hash hmac_hex format_to_parts env ctx raw user_id db).1

  -- What an allowed scan has written.
  record Written : Type 0 where
    qr : RecurringQr
    pass : RecurringPass
    row : RecurringPassScan
    parsed : parse_recurring_qr raw ≡ some qr
    found : find_pass hash hmac_hex format_to_parts ctx qr.token after ≡ some pass
    rows : after.recurring_pass_scans ≡ row ∷ db.recurring_pass_scans
    of_pass : row.pass_id ≡ pass.id
    now : row.scanned_at ≡ env.now
    passes : row.allowed ≡ true
    turned : row.direction ≡ r.direction

  scan-Written : Written
  scan-Written =
      let s = scan-Scanned hash hmac_hex format_to_parts env ctx user_id raw db r scanned allowed in
      let run =
        scan-found hash hmac_hex format_to_parts env ctx user_id raw db s.qr s.pass s.parsed
          s.found in
      let st = standing format_to_parts env ctx s.pass db in
      let d = decide hmac_hex format_to_parts env s.pass s.qr.code st in
      let (answer, writes) =
        scan_pass-first hash hmac_hex format_to_parts env ctx user_id s.pass s.qr.code db r
          (rw run at scanned) first in
      let (rows, passes) =
        record_scan-rows hash hmac_hex format_to_parts env ctx user_id s.pass st d db in
      let written : after
          ≡ record_scan hash hmac_hex format_to_parts env ctx user_id s.pass st d db =
        ap (λ x. x.1) run ∙ writes in
      let shown : r.allowed ≡ d.allowed = ap (λ (x : RecurringScanResponse). x.allowed) answer in
      let turned : r.direction ≡ d.direction =
        ap (λ (x : RecurringScanResponse). x.direction) answer in
      record {
        qr = s.qr;
        pass = s.pass;
        row = scan_row hash hmac_hex format_to_parts env user_id s.pass d;
        parsed = s.parsed;
        found =
            ap
              (λ (x : List RecurringPass).
                keep (λ q. q.estate_id == ctx.estate_id)
                  (find (λ q. q.rules.token_hash == hash s.qr.token) x))
              (ap (λ (x : Db). x.recurring_passes) written ∙ passes)
            ∙ s.found;
        rows = ap (λ (x : Db). x.recurring_pass_scans) written ∙ rows;
        of_pass = refl;
        now = refl;
        passes = sym shown ∙ allowed;
        turned = ground (arith, shown, turned, allowed);
      }

  -- An allowed scan that is no repeat, made again within ten seconds, is shown as a repeat with the
  -- same direction, and records nothing.
  pub scan-twice :
      (later : Env) (other : Option ℕ)
      → later.now < env.now + 10000
      → let (answer, second) = scan hash hmac_hex format_to_parts later ctx raw other after in
        (second ≡ after)
        × ((r' : RecurringScanResponse) × (answer ≡ ok r')
            × (r'.allowed ≡ true)
            × (r'.duplicate ≡ true)
            × (r'.direction ≡ r.direction))
  scan-twice later other soon =
      let w = scan-Written in
      let run =
        scan-found hash hmac_hex format_to_parts later ctx other raw after w.qr w.pass w.parsed
          w.found in
      let st = standing format_to_parts later ctx w.pass after in
      let last : st.last ≡ some w.row =
        standing-last hash hmac_hex format_to_parts later ctx other w.pass after
        ∙ ap (find (λ (x : RecurringPassScan). x.pass_id == w.pass.id && x.allowed)) w.rows
        ∙ find_head (λ (x : RecurringPassScan). x.pass_id == w.pass.id && x.allowed) w.row
            db.recurring_pass_scans (ground (arith, ==_refl w.pass.id, w.of_pass, w.passes)) in
      let soon_enough : is_repeat later.now st.last ≡ true =
        ap (is_repeat later.now) last ∙ ground (arith, w.now, soon) in
      let same =
        run
        ∙ scan_pass-repeat hash hmac_hex format_to_parts later ctx other w.pass w.qr.code after
            soon_enough in
      (
        ap (λ x. x.1) same,
        (
          repeat_response hash hmac_hex format_to_parts st,
          ap (λ x. x.0) same,
          refl,
          refl,
          ap direction_of last ∙ w.turned,
        ),
      )

-- ===== src/RecurringScan/Turns.antt =====
-- In after out, out after in: the direction of a scan in `scan` of
-- backend/src/modules/recurring-passes/recurring-scan.service.ts.
use entryva.Base.{
  ◌<◌, ◌⊎◌, ◌↔◌, find, ◌==◌, ◌&&◌, Option-cases, refl, arith, ℕ, ◌≡◌, ◌≢◌, sym, ap, ◌∙◌, true,
  false, Bool-cases, inl, inr, Option, none, some, if◌then◌else◌, Text,
}
use entryva.Calendar.{DateKey, Parts, date_lt, local_moment}
use entryva.Effects.{ok}
use entryva.RecurringPass.{ScanInput, scan_in, scan_out}
use entryva.RecurringPass.Scan.{evaluate_recurring_scan-IsCoherent}
use entryva.Store.{RecurringPass, RecurringPassScan, Db, Env, SecurityContext}
use entryva.PassStanding.{
  RecurringScanResponse, Standing, direction_of, zone_of, visit_left_open, standing, decide,
}
use entryva.RecurringScan.{scan_pass}
use entryva.RecurringScan.Records.{scan_pass-first}

-- One day is before another.
abbrev pub Before : DateKey → DateKey → Type 0
Before d e =
    (d.year < e.year)
    ⊎ ((d.year ≡ e.year) × ((d.month < e.month) ⊎ ((d.month ≡ e.month) × (d.day < e.day))))

date_lt_iff : (d e : DateKey) → (date_lt d e ≡ true) ↔ Before d e
date_lt_iff d e = ground arith

module _ (hash : Text → ℕ) (hmac_hex : ℕ → DateKey → Text)
    (format_to_parts : Text → ℕ → Parts) where
  decide-turns :
      (env : Env) (pass : RecurringPass) (code : Text) (st : Standing)
      → let d = decide hmac_hex format_to_parts env pass code st in
        d.allowed ≡ true
        → (st.previous_visit_open ≡ false
            → direction_of st.last ≡ some scan_in
            → d.direction ≡ some scan_out)
          × (st.previous_visit_open ≡ true → d.direction ≡ some scan_in)
          × (direction_of st.last ≢ some scan_in → d.direction ≡ some scan_in)
  unfolding decide
  decide-turns env pass code st allowed =
      let input : ScanInput = record {
        pass = some pass.rules;
        exceptions = pass.exceptions;
        blacklisted = st.blacklisted;
        now = env.now;
        time_zone = some st.zone;
        presented_code = some code;
        code_required = true;
        last_direction = if st.previous_visit_open then none else direction_of st.last;
      } in
      let (_, out, back) =
        (evaluate_recurring_scan-IsCoherent hmac_hex format_to_parts input).0 allowed in
      (
        λ o l. out (rw o l),
        λ o. back (rw o (λ e. absurd (cc))),
        λ n. back (λ e. elim (Bool-cases st.previous_visit_open) [
          | inl o ↦ absurd (cc (rw o at e))
          | inr o ↦ n (rw o at e)
        ]),
      )

  left_open :
      (now : ℕ) (zone : Text) (s : RecurringPassScan)
      → s.direction ≡ some scan_in
      → (Before
            (local_moment format_to_parts zone s.scanned_at).date
            (local_moment format_to_parts zone now).date
          → visit_left_open format_to_parts now zone (some s) ≡ true)
        × (¬ Before
              (local_moment format_to_parts zone s.scanned_at).date
              (local_moment format_to_parts zone now).date
            → visit_left_open format_to_parts now zone (some s) ≡ false)
  left_open now zone s came_in =
      let earlier = (local_moment format_to_parts zone s.scanned_at).date in
      let today = (local_moment format_to_parts zone now).date in
      (
        λ b. rw came_in ((date_lt_iff earlier today).1 b),
        λ n. rw came_in (elim (Bool-cases (date_lt earlier today)) [
          | inl e ↦ absurd (n ((date_lt_iff earlier today).0 e))
          | inr e ↦ e
        ]),
      )

  not_left_open :
      (now : ℕ) (zone : Text) (last : Option RecurringPassScan)
      → direction_of last ≢ some scan_in
      → visit_left_open format_to_parts now zone last ≡ false
  not_left_open now zone none n = refl
  not_left_open now zone (some s) n = ground (arith, n)

  -- An allowed scan of a pass that is no repeat is OUT, and no visit was left open, if the last allowed
  -- scan of the pass was IN on the same local day or a later one. It is IN if that scan was IN on an
  -- earlier day, and only then says that a visit was left open; and it is IN if that scan was not
  -- IN or there is none.
  pub scan_pass-turns :
      (env : Env) (ctx : SecurityContext) (user_id : Option ℕ) (pass : RecurringPass) (code : Text)
      (db : Db) (r : RecurringScanResponse)
      → (scan_pass hash hmac_hex format_to_parts env ctx user_id pass code db).0 ≡ ok r
      → r.allowed ≡ true
      → r.duplicate ≡ false
      → let last = find (λ s. s.pass_id == pass.id && s.allowed) db.recurring_pass_scans in
        let zone = zone_of (find (λ e. e.id == ctx.estate_id) db.estates) in
        let day = λ (t : ℕ). (local_moment format_to_parts zone t).date in
        ((s : RecurringPassScan)
          → last ≡ some s
          → s.direction ≡ some scan_in
          → ¬ Before (day s.scanned_at) (day env.now)
          → (r.direction ≡ some scan_out) × (r.previous_visit_open ≡ false))
        × ((s : RecurringPassScan)
            → last ≡ some s
            → s.direction ≡ some scan_in
            → Before (day s.scanned_at) (day env.now)
            → (r.direction ≡ some scan_in) × (r.previous_visit_open ≡ true))
        × (((s : RecurringPassScan) → last ≡ some s → s.direction ≢ some scan_in)
            → (r.direction ≡ some scan_in) × (r.previous_visit_open ≡ false))
  unfolding standing
  scan_pass-turns env ctx user_id pass code db r h allowed first =
      let (answer, _) =
        scan_pass-first hash hmac_hex format_to_parts env ctx user_id pass code db r h first in
      let st = standing format_to_parts env ctx pass db in
      let shown = ap (λ (x : RecurringScanResponse). x.allowed) answer in
      let turned = ap (λ (x : RecurringScanResponse). x.direction) answer in
      let left = ap (λ (x : RecurringScanResponse). x.previous_visit_open) answer in
      let (out, again, back) = decide-turns env pass code st (sym shown ∙ allowed) in
      let opened : (s : RecurringPassScan)
          → st.last ≡ some s
          → st.previous_visit_open ≡ visit_left_open format_to_parts env.now st.zone (some s) =
        λ s f. ap (visit_left_open format_to_parts env.now st.zone) f in
      (
        λ s f came_in n.
            let shut = opened s f ∙ (left_open env.now st.zone s came_in).1 n in
            (turned ∙ out shut (ap direction_of f ∙ came_in), left ∙ shut),
        λ s f came_in b.
            let kept = opened s f ∙ (left_open env.now st.zone s came_in).0 b in
            (turned ∙ again kept, left ∙ kept),
        λ n.
            let not_in : direction_of st.last ≢ some scan_in = λ e. elim (Option-cases st.last) [
              | inl f ↦ absurd (cc (ap direction_of f, e))
              | inr (s, f) ↦ n s f (sym (ap direction_of f) ∙ e)
            ] in
            (turned ∙ back not_in, left ∙ not_left_open env.now st.zone st.last not_in),
      )

-- ===== src/ResidentPasses/Gate.antt =====
-- What residents do with a pass, seen at the gate: `skipDay` and `publicView` of
-- backend/src/modules/recurring-passes/recurring-passes.service.ts before a scan of
-- recurring-scan.service.ts beside it.
use entryva.Base.{
  ℕ, ◌≡◌, refl, sym, subst, ◌∙◌, ap, Bool, true, false, arith, ◌&&◌, Bool-cases, inl, inr, Option,
  none, some, List, [], ◌∷◌, find, find-update_where, any, Text, eq_of_some, update_where, ==_refl,
}
use entryva.Calendar.{DateKey, date_eq, LocalMoment, Parts, local_moment}
use entryva.Calendar.Days.{date_from_key}
use entryva.Effects.{ok}
use entryva.RecurringPass.{
  PassRules, ExceptionType, PassException, ScanInput, is_skip, skip, skipped_today, evaluate_pass,
}
use entryva.PassStanding.{standing, Standing, RecurringScanResponse, decide}
use entryva.RecurringScan.{scan_pass}
use entryva.RecurringScan.Records.{scan_pass-first}
use entryva.Store.{RecurringPass, Db, Env, SecurityContext}
use entryva.ResidentPasses.{ResidentPassContext, owns}
use entryva.ResidentPasses.Change.{upsert, with_exception, skip_day}
use entryva.ResidentPasses.Requests.Writes.{is_row}

skip_on : DateKey → PassException
skip_on date = record { date = date; type = skip; start_minute = none; end_minute = none }

date_eq_refl : (d : DateKey) → date_eq d d ≡ true
date_eq_refl d = ground arith

abbrev skips : DateKey → PassException → Bool
skips date e = date_eq e.date date && is_skip e.type

any-replaced :
    (date : DateKey) (es : List PassException)
    → any (λ f. date_eq f.date date) es ≡ true
    → any (skips date) (update_where (λ f. date_eq f.date date) (λ f. skip_on date) es) ≡ true
unfolding skip_on
any-replaced date [] h = cc
any-replaced date (e ∷ es) h = elim (Bool-cases (date_eq e.date date)) [
  | inl y ↦ rw y (ground (arith, date_eq_refl date))
  | inr n ↦ rw n (ground (arith, any-replaced date es))
]

-- After an upsert of a skip the date is skipped.
any-upsert :
    (date : DateKey) (es : List PassException) → any (skips date) (upsert (skip_on date) es) ≡ true
unfolding skip_on
any-upsert date es = elim (Bool-cases (any (λ f. date_eq f.date date) es)) [
  | inl y ↦ rw y (any-replaced date es y)
  | inr n ↦ rw n (ground (arith, date_eq_refl date))
]

evaluate_pass-skipped :
    (hmac_hex : ℕ → DateKey → Text) (pass : PassRules) (input : ScanInput) (local : LocalMoment)
    → skipped_today input.exceptions local ≡ true
    → (evaluate_pass hmac_hex pass input local).allowed ≡ false
unfolding evaluate_pass
evaluate_pass-skipped hmac_hex pass input local h = ground arith

module _ (hmac_hex : ℕ → DateKey → Text) (format_to_parts : Text → ℕ → Parts) where
  decide-skipped :
      (env : Env) (pass : RecurringPass) (code : Text) (st : Standing)
      → any (skips (local_moment format_to_parts st.zone env.now).date) pass.exceptions ≡ true
      → (decide hmac_hex format_to_parts env pass code st).allowed ≡ false
  unfolding decide skipped_today
  decide-skipped env pass code st h = evaluate_pass-skipped hmac_hex pass.rules _ _ h

  skip_day-row :
      (env : Env) (ctx : ResidentPassContext) (id : ℕ) (date stored : DateKey) (db : Db)
      (p : RecurringPass) (r : ℕ × DateKey × ExceptionType)
      → find (owns ctx id) db.recurring_passes ≡ some p
      → date_from_key date ≡ some stored
      → (skip_day format_to_parts env ctx id date db).0 ≡ ok r
      → (skip_day format_to_parts env ctx id date db).1.recurring_passes
        ≡ update_where (is_row p.id) (with_exception (skip_on stored)) db.recurring_passes
  unfolding skip_day skip_on
  skip_day-row env ctx id date stored db p r f d h = ground arith

  -- Once a resident has skipped a day of a pass, a scan of the pass as it is then, at a moment of that
  -- day in the estate's zone, is refused, unless as the repeat of one allowed seconds before.
  pub skip_day-refused :
      (env : Env) (ctx : ResidentPassContext) (id : ℕ) (date stored : DateKey) (db : Db)
      (p q : RecurringPass) (done : ℕ × DateKey × ExceptionType) (hash : Text → ℕ) (gate : Env)
      (officer : SecurityContext) (user_id : Option ℕ) (code : Text) (later : Db)
      (r : RecurringScanResponse)
      → find (owns ctx id) db.recurring_passes ≡ some p
      → find (is_row p.id) db.recurring_passes ≡ some p
      → date_from_key date ≡ some stored
      → (skip_day format_to_parts env ctx id date db).0 ≡ ok done
      → find (is_row p.id) (skip_day format_to_parts env ctx id date db).1.recurring_passes ≡ some q
      → (local_moment format_to_parts
          (standing format_to_parts gate officer q later).zone
          gate.now).date
        ≡ stored
      → (scan_pass hash hmac_hex format_to_parts gate officer user_id q code later).0 ≡ ok r
      → r.duplicate ≡ false
      → r.allowed ≡ false
  skip_day-refused env ctx id date stored db p q done hash gate officer user_id code later r f row d
        h g today scanned first =
      let written : find (is_row p.id)
            (update_where (is_row p.id) (with_exception (skip_on stored)) db.recurring_passes)
          ≡ some (with_exception (skip_on stored) p) =
        find-update_where (is_row p.id) (with_exception (skip_on stored)) (is_row p.id)
          db.recurring_passes p (λ y. refl) row
        ∙ rw (==_refl p.id) refl in
      let same : with_exception (skip_on stored) p ≡ q =
        eq_of_some _ q
          (sym written ∙ rw (skip_day-row env ctx id date stored db p done f d h) at g) in
      let skipped : any (skips stored) q.exceptions ≡ true =
        subst (λ (y : RecurringPass). any (skips stored) y.exceptions ≡ true) same
          (any-upsert stored p.exceptions) in
      let (answer, _) =
        scan_pass-first hash hmac_hex format_to_parts gate officer user_id q code later r scanned
          first in
      ap (λ (a : RecurringScanResponse). a.allowed) answer
      ∙ decide-skipped gate q code _ (rw today skipped)

-- ===== src/ResidentPasses/Created.antt =====
-- What a new recurring pass is: `create` of
-- backend/src/modules/recurring-passes/recurring-passes.service.ts.
use entryva.Base.{
  ℕ, ◌≡◌, ◌≤◌, refl, Bool, true, false, arith, inl, inr, none, some, Option-cases, List, [], ◌∷◌,
  Text, if◌then◌else◌,
}
use entryva.Calendar.{DateKey, date_lt, days_in_month, Parts}
use entryva.Calendar.Days.{IsDate, date_key, date_from_key}
use entryva.Effects.{ok}
use entryva.RecurringPass.{PassStatus}
use entryva.RecurringPass.Schedule.{
  Problem, IsSchedule, already_past, problem_if, validate_pass_schedule, validate_pass_schedule_iff,
}
use entryva.Store.{RecurringPass, Db, Env}
use entryva.ResidentPasses.{
  ResidentPassContext, CreateRecurringPass, PassView, schedule_of, no_problems, create_problems,
  stored_date, today_in, new_pass, create,
}
use entryva.ResidentPasses.Machine.{state_of, WithinNinety}

month_end : (y m : ℕ) → days_in_month y m ≤ 31
unfolding days_in_month
month_end y m = ground arith

date_from_key-IsDate : (d : DateKey) → IsDate d → date_from_key d ≡ some d
unfolding date_from_key
date_from_key-IsDate d v =
    ground (arith, v.month, v.month_end, v.day, v.day_end, month_end d.year d.month)

problems_none :
    (errors : List Problem) (past : Bool)
    → no_problems (if no_problems errors then problem_if past already_past else errors) ≡ true
    → (errors ≡ []) × (past ≡ false)
problems_none [] true h = absurd (cc)
problems_none [] false h = (refl, refl)
problems_none (p ∷ ps) past h = absurd (cc)

-- No problem is found for a new pass exactly when its schedule has none and it has not ended.
create_problems-none :
    (dto : CreateRecurringPass) (today until : DateKey)
    → date_key dto.valid_until ≡ some until
    → no_problems (create_problems dto today) ≡ true
    → (validate_pass_schedule (schedule_of dto) ≡ []) × (date_lt until today ≡ false)
unfolding create_problems
create_problems-none dto today until u h =
    problems_none (validate_pass_schedule (schedule_of dto)) (date_lt until today) (rw u at h)

stored_date-IsDate :
    (t : Text) (d : DateKey) → date_key t ≡ some d → IsDate d → stored_date t ≡ some d
stored_date-IsDate t d k v = ground (arith, date_from_key-IsDate d v)

module _ (hash : Text → ℕ) (format_to_parts : Text → ℕ → Parts) (env : Env)
    (ctx : ResidentPassContext) (dto : CreateRecurringPass) (token : Text) (db : Db)
    (r : PassView × Text) (from until : DateKey) (from_key : date_key dto.valid_from ≡ some from)
    (from_date : IsDate from) (until_key : date_key dto.valid_until ≡ some until)
    (until_date : IsDate until) where
  -- The new row, and what is asked of it.
  pub record Created : Type 0 where
    pub pass : RecurringPass
    pub inserted :
        (create hash format_to_parts env ctx dto token db).1.recurring_passes
        ≡ pass ∷ db.recurring_passes
    pub owner : (pass.resident_id ≡ ctx.resident_id) × (pass.estate_id ≡ ctx.estate_id)
    pub unlinked : pass.linked_device ≡ none
    pub active : pass.rules.status ≡ PassStatus.active
    pub secret : pass.rules.token_hash ≡ hash token
    pub scheduled : IsSchedule (schedule_of dto) from until
    pub not_ended : date_lt until (today_in format_to_parts env ctx.estate_id db) ≡ false
    pub ninety : WithinNinety (state_of pass)

  -- A pass is created only from a schedule that is in order and has not ended, for one to ninety days;
  -- it is active, the resident's own, linked to no phone, and keeps the hash of the token. The dates
  -- are assumed to be dates of the calendar.
  pub create-Created : (create hash format_to_parts env ctx dto token db).0 ≡ ok r → Created
  unfolding create
  create-Created h =
      let stored = stored_date-IsDate dto.valid_from from from_key from_date in
      let ends = stored_date-IsDate dto.valid_until until until_key until_date in
      elim (Option-cases ctx.apartment_id) [
        | inl homeless ↦ absurd (ground arith)
        | inr (a, home) ↦
            let today = today_in format_to_parts env ctx.estate_id db in
            let clear : no_problems (create_problems dto today) ≡ true = ground arith in
            let (valid, present) = create_problems-none dto today until until_key clear in
            let order =
              (validate_pass_schedule_iff (schedule_of dto) from until from_key until_key from_date
                  until_date).0
                valid in
            record {
              pass = new_pass hash format_to_parts env ctx dto a from until token;
              inserted = ground arith;
              owner = (refl, refl);
              unlinked = refl;
              active = refl;
              secret = refl;
              scheduled = order;
              not_ended = present;
              ninety = record { ordered = order.ordered; span = order.span };
            }
      ]

-- ===== src/ResidentPasses/Change.antt =====
-- Changes of a recurring pass by its resident: `pause`, `resume`, `revoke`, `skipDay`, `addExtraDay`,
-- `removeException`, `renew` and `resetPhone` of
-- backend/src/modules/recurring-passes/recurring-passes.service.ts.
use entryva.Base.{
  ℕ, ◌-◌, Bool, true, false, ◌&&◌, ◌||◌, not, differ, ltb, leb, ◌==◌, if◌then◌else◌, Option, none,
  some, is_some, List, ◌∷◌, select, any, update_where, count_where, String, Text,
}
use entryva.Calendar.{DateKey, date_lt, date_eq, Parts}
use entryva.Calendar.Days.{date_from_key, add_days}
use entryva.Effects.{
  Action, pure, gets, modify, throw_if, or_throw, ◌>>=◌, ◌>>◌, bad_request, conflict, internal,
}
use entryva.RecurringPass.{PassStatus, PassException, ExceptionType, skip, extra}
use entryva.RecurringPass.Schedule.{max_pass_days}
use entryva.Store.{
  RecurringPass, AuditAction, recurring_pass_paused, recurring_pass_resumed, recurring_pass_revoked,
  recurring_pass_day_skipped, recurring_pass_extra_day, recurring_pass_renewed,
  recurring_pass_phone_reset, Db, Env, log,
}
use entryva.ResidentPasses.{ResidentPassContext, owned, today_in}

abbrev pub is_active : PassStatus → Bool
is_active PassStatus.active = true
is_active _ = false

abbrev pub is_paused : PassStatus → Bool
is_paused PassStatus.paused = true
is_paused _ = false

abbrev pub is_revoked : PassStatus → Bool
is_revoked PassStatus.revoked = true
is_revoked _ = false

abbrev pub is_expired : PassStatus → Bool
is_expired PassStatus.expired = true
is_expired _ = false

-- A write to the passes that a query matches.
abbrev pub write_passes : (RecurringPass → Bool) → (RecurringPass → RecurringPass) → Db → Db
write_passes p f db = record db { recurring_passes = update_where p f db.recurring_passes }

abbrev pub log_pass : ResidentPassContext → AuditAction → ℕ → Db → Db
log_pass ctx action id = log (record {
  action = action;
  user_id = some ctx.user_id;
  estate_id = some ctx.estate_id;
  entity_id = some id;
})

abbrev pub with_status : PassStatus → RecurringPass → RecurringPass
with_status to p = record p { rules = record p.rules { status = to } }

-- `setStatus`; `from` is the test for the statuses that it starts from.
unfoldable pub set_status :
    ResidentPassContext
    → ℕ
    → (PassStatus → Bool)
    → PassStatus
    → (PassStatus → PassStatus → AuditAction)
    → String
    → Action Db (ℕ × PassStatus)
set_status ctx id from to action fail = do
  pass ← owned ctx id
  count ← gets (λ db. count_where (λ p. p.id == pass.id && from p.rules.status) db.recurring_passes)
  modify (write_passes (λ p. p.id == pass.id && from p.rules.status) (with_status to))
  throw_if (count == 0) (conflict fail)
  modify (log_pass ctx (action pass.rules.status to) pass.id)
  pure (pass.id, to)

unfoldable pub pause : ResidentPassContext → ℕ → Action Db (ℕ × PassStatus)
unfolding set_status
pause ctx id =
    set_status ctx id is_active PassStatus.paused recurring_pass_paused
      "Only an active pass can be paused."

unfoldable pub resume : ResidentPassContext → ℕ → Action Db (ℕ × PassStatus)
unfolding set_status
resume ctx id =
    set_status ctx id is_paused PassStatus.active recurring_pass_resumed
      "Only a paused pass can be resumed."

unfoldable pub revoke : ResidentPassContext → ℕ → Action Db (ℕ × PassStatus)
unfolding set_status
revoke ctx id =
    set_status ctx id (λ s. is_active s || (is_paused s || is_expired s)) PassStatus.revoked
      recurring_pass_revoked "This pass is already revoked."

-- The `upsert` of the exception for a date.
abbrev pub upsert : PassException → List PassException → List PassException
upsert e es =
    if any (λ f. date_eq f.date e.date) es
    then update_where (λ f. date_eq f.date e.date) (λ f. e) es
    else e ∷ es

abbrev pub with_exception : PassException → RecurringPass → RecurringPass
with_exception e p = record p { exceptions = upsert e p.exceptions }

abbrev pub without_exception : DateKey → RecurringPass → RecurringPass
without_exception date p = record p {
  exceptions = select (λ e. not (date_eq e.date date)) p.exceptions;
}

-- `ExtraDayDto`
pub record ExtraDay : Type 0 where
  pub date : DateKey
  pub start_minute : Option ℕ
  pub end_minute : Option ℕ

-- `hasStart && dto.endMinute <= dto.startMinute`
abbrev pub ends_early : Option ℕ → Option ℕ → Bool
ends_early (some s) (some e) = leb e s
ends_early _ _ = false

abbrev pub renewed : DateKey → DateKey → RecurringPass → RecurringPass → RecurringPass
renewed from until pass p = record p {
  rules = record p.rules {
    valid_from = from;
    valid_until = until;
    status = if is_expired pass.rules.status then PassStatus.active else p.rules.status;
  };
}

module _ (format_to_parts : Text → ℕ → Parts) where
  -- `checkDayInRange`
  abbrev pub check_day_in_range :
      Env → ResidentPassContext → RecurringPass → DateKey → Action Db (Unit {0})
  check_day_in_range env ctx pass date = do
    today ← gets (today_in format_to_parts env ctx.estate_id)
    throw_if (date_lt date today) (bad_request "Choose today or a later date.")
    throw_if (date_lt date pass.rules.valid_from || date_lt pass.rules.valid_until date)
        (bad_request "That date is outside the pass dates.")

  -- `skipDay`
  unfoldable pub skip_day :
      Env → ResidentPassContext → ℕ → DateKey → Action Db (ℕ × DateKey × ExceptionType)
  skip_day env ctx id date = do
    pass ← owned ctx id
    check_day_in_range env ctx pass date
    stored ← or_throw (date_from_key date) (internal "Invalid Date")
    modify (
        write_passes (λ p. p.id == pass.id)
          (with_exception
            (record { date = stored; type = skip; start_minute = none; end_minute = none })))
    modify (log_pass ctx (recurring_pass_day_skipped date) pass.id)
    pure (pass.id, date, skip)

  -- `addExtraDay`
  unfoldable pub add_extra_day : Env → ResidentPassContext → ℕ → ExtraDay → Action Db (ℕ × ExtraDay)
  add_extra_day env ctx id dto = do
    pass ← owned ctx id
    check_day_in_range env ctx pass dto.date
    throw_if (differ (is_some dto.start_minute) (is_some dto.end_minute))
        (bad_request "Set both the start and end time, or neither.")
    throw_if (ends_early dto.start_minute dto.end_minute)
        (bad_request "End time must be after the start time.")
    stored ← or_throw (date_from_key dto.date) (internal "Invalid Date")
    modify (
        write_passes (λ p. p.id == pass.id)
          (with_exception (record {
            date = stored;
            type = extra;
            start_minute = dto.start_minute;
            end_minute = dto.end_minute;
          })))
    modify
        (log_pass ctx (recurring_pass_extra_day dto.date dto.start_minute dto.end_minute) pass.id)
    pure (pass.id, dto)

  -- `renew`, for a number of days from 1 on.
  unfoldable pub renew :
      Env → ResidentPassContext → ℕ → ℕ → Action Db (ℕ × DateKey × DateKey × PassStatus)
  renew env ctx id days = do
    pass ← owned ctx id
    throw_if (is_revoked pass.rules.status)
        (conflict "A revoked pass cannot be renewed. Create a new one.")
    throw_if (ltb max_pass_days days) (bad_request "A pass can last at most 90 days.")
    today ← gets (today_in format_to_parts env ctx.estate_id)
    let until = add_days today (days - 1)
    count ← gets (λ db.
        count_where (λ p. p.id == pass.id && not (is_revoked p.rules.status)) db.recurring_passes)
    modify (
        write_passes (λ p. p.id == pass.id && not (is_revoked p.rules.status))
          (renewed today until pass))
    throw_if (count == 0) (conflict "This pass was just changed. Reload and try again.")
    modify (log_pass ctx (recurring_pass_renewed today until) pass.id)
    pure (
      pass.id,
      today,
      until,
      if is_expired pass.rules.status then PassStatus.active else pass.rules.status,
    )

-- `removeException`
unfoldable pub remove_exception : ResidentPassContext → ℕ → DateKey → Action Db (ℕ × DateKey)
remove_exception ctx id date = do
  pass ← owned ctx id
  stored ← or_throw (date_from_key date) (internal "Invalid Date")
  modify (write_passes (λ p. p.id == pass.id) (without_exception stored))
  pure (pass.id, date)

-- `resetPhone`
unfoldable pub reset_phone : ResidentPassContext → ℕ → Action Db (ℕ × Bool)
reset_phone ctx id = do
  pass ← owned ctx id
  modify (
      write_passes (λ p. p.id == pass.id)
        (λ p. record p { linked_device = none; linked_at = none }))
  modify (log_pass ctx recurring_pass_phone_reset pass.id)
  pure (pass.id, false)

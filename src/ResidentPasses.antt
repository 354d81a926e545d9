-- ===== src/ResidentPasses.antt =====
-- The recurring passes of a resident: `create`, `list` and `history` of
-- backend/src/modules/recurring-passes/recurring-passes.service.ts. SHA-256, the fresh random token
-- and the clock of a time zone are parameters.
pub mod Change
pub mod Link
pub mod Machine
pub mod Requests
pub mod Created
pub mod Gate
pub mod Code
use entryva.Base.{
  ℕ, ◌+◌, Bool, true, false, ◌&&◌, ◌||◌, not, ltb, leb, ◌==◌, if◌then◌else◌, Option, none, some,
  is_some, get_or, List, [], ◌∷◌, map, find, select, take, any, Text, trim,
}
use entryva.Calendar.{DateKey, date_lt, Parts, local_moment}
use entryva.Calendar.Days.{date_key, date_from_key}
use entryva.Effects.{
  Action, ok, pure, gets, modify, throw_if, or_throw, ◌>>=◌, ◌>>◌, forbidden, not_found,
  bad_request_with, internal,
}
use entryva.RecurringPass.{
  PassStatus, ScanDirection, ScanDenyReason, PassRules, PassException, direction_is_in,
}
use entryva.RecurringPass.Schedule.{
  Schedule, Problem, already_past, problem_if, join_problems, validate_pass_schedule,
}
use entryva.Store.{
  RecurringPassRole, RecurringPass, RecurringPassScan, recurring_pass_created, Db, Env, log,
}
use entryva.PassStanding.{zone_of, direction_of}

-- `ResidentPassContext`
pub record ResidentPassContext : Type 0 where
  pub user_id : ℕ
  pub resident_id : ℕ
  pub estate_id : ℕ
  pub apartment_id : Option ℕ
  pub display_name : Text

-- `CreateRecurringPassDto`
pub record CreateRecurringPass : Type 0 where
  pub full_name : Text
  pub phone : Option Text
  pub role : RecurringPassRole
  pub days : List ℕ
  pub start_minute : ℕ
  pub end_minute : ℕ
  pub valid_from : Text
  pub valid_until : Text
  pub grace_minutes : Option ℕ

-- What `view` gives of a pass.
pub record PassView : Type 0 where
  pub id : ℕ
  pub full_name : Text
  pub phone : Option Text
  pub role : RecurringPassRole
  pub days : List ℕ
  pub start_minute : ℕ
  pub end_minute : ℕ
  pub valid_from : DateKey
  pub valid_until : DateKey
  pub grace_minutes : ℕ
  pub status : PassStatus
  pub phone_linked : Bool
  pub inside : Bool
  pub upcoming_exceptions : List PassException
  pub created_at : ℕ

-- A pass that the resident made, by its id.
abbrev pub owns : ResidentPassContext → ℕ → RecurringPass → Bool
owns ctx id p = p.id == id && (p.resident_id == ctx.resident_id && p.estate_id == ctx.estate_id)

-- `owned`
abbrev pub owned : ResidentPassContext → ℕ → Action Db RecurringPass
owned ctx id = do
  row ← gets (λ db. find (owns ctx id) db.recurring_passes)
  or_throw row (not_found "Pass not found.")

-- `p.status === 'ACTIVE' && validUntil < today ? 'EXPIRED' : p.status`
abbrev pub status_on : DateKey → PassRules → PassStatus
status_on today r = elim r.status [
  | PassStatus.active ↦
      if date_lt r.valid_until today then PassStatus.expired else PassStatus.active
  | PassStatus.paused ↦ PassStatus.paused
  | PassStatus.revoked ↦ PassStatus.revoked
  | PassStatus.expired ↦ PassStatus.expired
]

abbrev pub view : RecurringPass → DateKey → List PassException → Bool → PassView
view p today exceptions inside = record {
  id = p.id;
  full_name = p.full_name;
  phone = p.phone;
  role = p.role;
  days = p.rules.days;
  start_minute = p.rules.start_minute;
  end_minute = p.rules.end_minute;
  valid_from = p.rules.valid_from;
  valid_until = p.rules.valid_until;
  grace_minutes = p.rules.grace_minutes;
  status = status_on today p.rules;
  phone_linked = is_some p.linked_device;
  inside = inside;
  upcoming_exceptions = exceptions;
  created_at = p.created_at;
}

-- `[...new Set(days)].sort((a, b) => a - b)`
insert_day : ℕ → List ℕ → List ℕ
insert_day d [] = d ∷ []
insert_day d (e ∷ es) =
    if ltb d e then d ∷ e ∷ es else if d == e then e ∷ es else e ∷ insert_day d es

unfoldable pub sort_days : List ℕ → List ℕ
unfolding insert_day
sort_days [] = []
sort_days (d ∷ ds) = insert_day d (sort_days ds)

-- `dto.phone?.trim() || null`
abbrev pub non_empty : Text → Option Text
non_empty [] = none
non_empty (c ∷ cs) = some (c ∷ cs)

abbrev pub phone_or_null : Option Text → Option Text
phone_or_null none = none
phone_or_null (some p) = non_empty (trim p)

abbrev pub schedule_of : CreateRecurringPass → Schedule
schedule_of dto = record {
  days = sort_days dto.days;
  start_minute = dto.start_minute;
  end_minute = dto.end_minute;
  grace_minutes = get_or dto.grace_minutes 30;
  valid_from = dto.valid_from;
  valid_until = dto.valid_until;
}

-- `dto.validUntil < today`
abbrev pub is_past : Option DateKey → DateKey → Bool
is_past none today = false
is_past (some d) today = date_lt d today

abbrev pub no_problems : List Problem → Bool
no_problems [] = true
no_problems (p ∷ ps) = false

-- The problems of a new pass: those of its schedule, or that it has ended already.
unfoldable pub create_problems : CreateRecurringPass → DateKey → List Problem
create_problems dto today =
    let errors = validate_pass_schedule (schedule_of dto) in
    if no_problems errors
    then problem_if (is_past (date_key dto.valid_until) today) already_past
    else errors

-- The date that is stored for a text, or `none` where the client gets an invalid `Date`.
abbrev pub stored_date : Text → Option DateKey
stored_date t = elim (date_key t) [ none ↦ none | some d ↦ date_from_key d ]

-- A direction is kept for the newest scan of a pass only.
abbrev pub is_inside : List RecurringPassScan → ℕ → Bool
is_inside scans id = direction_is_in (direction_of (find (λ s. s.pass_id == id) scans))

-- `orderBy: { date: 'asc' }`
insert_exception : PassException → List PassException → List PassException
insert_exception e [] = e ∷ []
insert_exception e (f ∷ fs) =
    if date_lt f.date e.date then f ∷ insert_exception e fs else e ∷ f ∷ fs

unfoldable pub sort_exceptions : List PassException → List PassException
unfolding insert_exception
sort_exceptions [] = []
sort_exceptions (e ∷ es) = insert_exception e (sort_exceptions es)

abbrev pub upcoming : DateKey → RecurringPass → List PassException
upcoming today p = take 30 (sort_exceptions (select (λ e. not (date_lt e.date today)) p.exceptions))

pub record ScanView : Type 0 where
  pub at : ℕ
  pub local_date : DateKey
  pub direction : Option ScanDirection
  pub allowed : Bool
  pub reason : Option ScanDenyReason

-- Today in the zone of an estate.
abbrev pub today_in : (Text → ℕ → Parts) → Env → ℕ → Db → DateKey
today_in format_to_parts env estate_id db =
    (local_moment format_to_parts (zone_of (find (λ e. e.id == estate_id) db.estates)) env.now).date

module _ (hash : Text → ℕ) (format_to_parts : Text → ℕ → Parts) where
  abbrev pub new_pass :
      Env → ResidentPassContext → CreateRecurringPass → ℕ → DateKey → DateKey → Text → RecurringPass
  new_pass env ctx dto apartment_id from until token = record {
    id = env.new_id;
    estate_id = ctx.estate_id;
    resident_id = ctx.resident_id;
    apartment_id = apartment_id;
    full_name = trim dto.full_name;
    phone = phone_or_null dto.phone;
    role = dto.role;
    rules = record {
      status = PassStatus.active;
      valid_from = from;
      valid_until = until;
      days = sort_days dto.days;
      start_minute = dto.start_minute;
      end_minute = dto.end_minute;
      grace_minutes = get_or dto.grace_minutes 30;
      token_hash = hash token;
    };
    exceptions = [];
    linked_device = none;
    linked_at = none;
    created_at = env.now;
  }

  -- The rows that `create` writes.
  abbrev pub insert_pass : RecurringPass → ℕ → Db → Db
  insert_pass p user_id db =
      log
        (record {
          action =
              recurring_pass_created p.role p.rules.days p.rules.valid_from p.rules.valid_until;
          user_id = some user_id;
          estate_id = some p.estate_id;
          entity_id = some p.id;
        })
        (record db { recurring_passes = p ∷ db.recurring_passes })

  -- `create`; `token` is the fresh random one, returned with the view.
  unfoldable pub create :
      Env → ResidentPassContext → CreateRecurringPass → Text → Action Db (PassView × Text)
  create env ctx dto token = do
    apartment_id ←
        or_throw ctx.apartment_id (forbidden "Your account is not linked to an apartment.")
    today ← gets (today_in format_to_parts env ctx.estate_id)
    throw_if (not (no_problems (create_problems dto today)))
        (bad_request_with (join_problems (create_problems dto today)))
    from ← or_throw (stored_date dto.valid_from) (internal "Invalid Date")
    until ← or_throw (stored_date dto.valid_until) (internal "Invalid Date")
    modify (insert_pass (new_pass env ctx dto apartment_id from until token) ctx.user_id)
    pure (view (new_pass env ctx dto apartment_id from until token) today [] false, token)

  -- `list`
  unfoldable pub list : Env → ResidentPassContext → Db → List PassView
  list env ctx db =
      let today = today_in format_to_parts env ctx.estate_id db in
      let passes = take 100 (
        select (λ p. p.resident_id == ctx.resident_id && p.estate_id == ctx.estate_id)
          db.recurring_passes) in
      let scans =
        take 500 (
          select (λ s. any (λ p. p.id == s.pass_id) passes && s.allowed) db.recurring_pass_scans) in
      map (λ p. view p today (upcoming today p) (is_inside scans p.id)) passes

  abbrev pub scan_view : Text → RecurringPassScan → ScanView
  scan_view zone s = record {
    at = s.scanned_at;
    local_date = (local_moment format_to_parts zone s.scanned_at).date;
    direction = s.direction;
    allowed = s.allowed;
    reason = s.reason;
  }

  -- `history`
  unfoldable pub history : ResidentPassContext → ℕ → Action Db (List ScanView)
  history ctx id = do
    pass ← owned ctx id
    zone ← gets (λ db. zone_of (find (λ e. e.id == ctx.estate_id) db.estates))
    gets (λ db.
        map (scan_view zone) (take 30 (select (λ s. s.pass_id == id) db.recurring_pass_scans)))

-- ===== src/RecurringPass.antt =====
-- The rules for a recurring pass: backend/src/modules/recurring-passes/recurring-pass.rules.ts.
-- The clock of the estate's time zone (`Intl`) and HMAC-SHA256 are parameters. A token hash is a
-- number (its hexadecimal digits are only compared or handed to HMAC).
pub mod Scan
pub mod Code
pub mod Schedule
use entryva.Base.{
  ℕ, ◌+◌, ◌-◌, ◌*◌, Bool, true, false, ◌&&◌, ◌||◌, not, ltb, ◌==◌, if◌then◌else◌, Option, none,
  some, List, [], ◌∷◌, any, find, take, is_some, get_or, Text, codes, String, text_eq, trim,
  to_upper,
}
use entryva.Calendar.{
  DateKey, date_lt, date_eq, LocalMoment, Parts, local_moment, previous_date_key,
}

-- `RecurringPassStatus`
pub data PassStatus : Type 0 where
  active paused revoked expired : PassStatus

-- `ScanDirection`: 'IN' and 'OUT'
pub data ScanDirection : Type 0 where
  scan_in scan_out : ScanDirection

pub data ScanDenyReason : Type 0 where
  invalid_pass paused revoked expired skipped not_scheduled outside_hours : ScanDenyReason
  blacklisted code_outdated : ScanDenyReason

-- `DEFAULT_TIME_ZONE`
abbrev pub default_time_zone : Text
default_time_zone = codes "Africa/Lagos"

abbrev pub yesterday_code_grace_minutes : ℕ
yesterday_code_grace_minutes = 60

pub record PassRules : Type 0 where
  pub status : PassStatus
  pub valid_from : DateKey
  pub valid_until : DateKey
  pub days : List ℕ
  pub start_minute : ℕ
  pub end_minute : ℕ
  pub grace_minutes : ℕ
  pub token_hash : ℕ

pub data ExceptionType : Type 0 where
  skip extra : ExceptionType

pub record PassException : Type 0 where
  pub date : DateKey
  pub type : ExceptionType
  pub start_minute : Option ℕ
  pub end_minute : Option ℕ

pub record ScanInput : Type 0 where
  pub pass : Option PassRules
  pub exceptions : List PassException
  pub blacklisted : Bool
  pub now : ℕ
  pub time_zone : Option Text
  pub presented_code : Option Text
  pub code_required : Bool
  pub last_direction : Option ScanDirection

pub record ScanDecision : Type 0 where
  pub allowed : Bool
  pub reason : Option ScanDenyReason
  pub message : String
  pub direction : Option ScanDirection
  pub local : LocalMoment

-- `DENY_MESSAGES`
unfoldable pub deny_message : ScanDenyReason → String
deny_message ScanDenyReason.invalid_pass = "Invalid pass"
deny_message ScanDenyReason.paused = "Pass paused"
deny_message ScanDenyReason.revoked = "Pass revoked"
deny_message ScanDenyReason.expired = "Pass expired"
deny_message ScanDenyReason.skipped = "Skipped by resident"
deny_message ScanDenyReason.not_scheduled = "Not scheduled today"
deny_message ScanDenyReason.outside_hours = "Outside allowed hours"
deny_message ScanDenyReason.blacklisted = "Not allowed by estate"
deny_message ScanDenyReason.code_outdated = "Code outdated"

abbrev pub deny : ScanDenyReason → LocalMoment → ScanDecision
deny reason local = record {
  allowed = false;
  reason = some reason;
  message = deny_message reason;
  direction = none;
  local = local;
}

-- `e.type === 'SKIP'` and `e.type === 'EXTRA'`
abbrev pub is_skip : ExceptionType → Bool
is_skip skip = true
is_skip extra = false

abbrev pub is_extra : ExceptionType → Bool
is_extra skip = false
is_extra extra = true

abbrev pub direction_is_in : Option ScanDirection → Bool
direction_is_in (some scan_in) = true
direction_is_in _ = false

-- The direction of an allowed scan: out after in, in after anything else.
abbrev pub next_direction : Option ScanDirection → ScanDirection
next_direction last = if direction_is_in last then scan_out else scan_in

abbrev pub start_of : Option PassException → Option ℕ
start_of none = none
start_of (some e) = e.start_minute

abbrev pub end_of : Option PassException → Option ℕ
end_of none = none
end_of (some e) = e.end_minute

-- Check 3: `local.date < pass.validFrom || local.date > pass.validUntil`
unfoldable pub outside_dates : PassRules → LocalMoment → Bool
outside_dates pass local = date_lt local.date pass.valid_from || date_lt pass.valid_until local.date

-- Check 4: `input.exceptions.some((e) => e.date === local.date && e.type === 'SKIP')`
unfoldable pub skipped_today : List PassException → LocalMoment → Bool
skipped_today exceptions local = any (λ e. date_eq e.date local.date && is_skip e.type) exceptions

-- Check 5: the first extra day listed for today, and `pass.days.includes(local.weekday)`.
unfoldable pub extra_today : List PassException → LocalMoment → Option PassException
extra_today exceptions local = find (λ e. date_eq e.date local.date && is_extra e.type) exceptions

unfoldable pub on_weekday : PassRules → LocalMoment → Bool
on_weekday pass local = any (λ d. d == local.weekday) pass.days

-- Check 6. The start less the grace period stops at 0 here and is negative there: no minute lies
-- below either.
unfoldable pub outside_window : PassRules → Option PassException → LocalMoment → Bool
outside_window pass extra_day local =
    let start = get_or (start_of extra_day) pass.start_minute in
    let end = get_or (end_of extra_day) pass.end_minute in
    ltb local.minute (start - pass.grace_minutes) || ltb (end + pass.grace_minutes) local.minute

module _ (hmac_hex : ℕ → DateKey → Text) where
  -- `dailyCodeFor`; `hmac_hex` gives the hexadecimal digest for the message `entryva-pass:<date>`.
  unfoldable pub daily_code_for : ℕ → DateKey → Text
  daily_code_for token_hash date = to_upper (take 10 (hmac_hex token_hash date))

  -- `codeIsCurrent`; `codesMatch` compares lengths and then bytes.
  unfoldable pub code_is_current : ℕ → Option Text → LocalMoment → Bool
  code_is_current token_hash none local = false
  code_is_current token_hash (some []) local = false
  code_is_current token_hash (some (c ∷ cs)) local =
      let code = to_upper (trim (c ∷ cs)) in
      text_eq code (daily_code_for token_hash local.date)
      || (ltb local.minute yesterday_code_grace_minutes
          && text_eq code (daily_code_for token_hash (previous_date_key local.date)))

  -- Checks 2 to 9 of `evaluateRecurringScan`, once a pass was found.
  unfoldable pub evaluate_pass : PassRules → ScanInput → LocalMoment → ScanDecision
  evaluate_pass pass input local =
      let extra_day = extra_today input.exceptions local in
      elim pass.status [
        | PassStatus.paused ↦ deny ScanDenyReason.paused local
        | PassStatus.revoked ↦ deny ScanDenyReason.revoked local
        | PassStatus.expired ↦ deny ScanDenyReason.expired local
        | PassStatus.active ↦
            if outside_dates pass local
            then deny ScanDenyReason.expired local
            else if skipped_today input.exceptions local
            then deny ScanDenyReason.skipped local
            else if not (is_some extra_day) && not (on_weekday pass local)
            then deny ScanDenyReason.not_scheduled local
            else if outside_window pass extra_day local
            then deny ScanDenyReason.outside_hours local
            else if input.blacklisted
            then deny ScanDenyReason.blacklisted local
            else if input.code_required
                && not (code_is_current pass.token_hash input.presented_code local)
            then deny ScanDenyReason.code_outdated local
            else record {
              allowed = true;
              reason = none;
              message = "Allowed";
              direction = some (next_direction input.last_direction);
              local = local;
            }
      ]

  -- Check 1: without a pass the scan is refused.
  unfoldable pub evaluate_at : Option PassRules → ScanInput → LocalMoment → ScanDecision
  evaluate_at none input local = deny ScanDenyReason.invalid_pass local
  evaluate_at (some pass) input local = evaluate_pass pass input local

  -- `evaluateRecurringScan`
  unfoldable pub evaluate_recurring_scan : (Text → ℕ → Parts) → ScanInput → ScanDecision
  unfolding evaluate_at
  evaluate_recurring_scan format_to_parts input =
      evaluate_at input.pass input
        (local_moment format_to_parts (get_or input.time_zone default_time_zone) input.now)

-- `isOverdueInside`
unfoldable pub is_overdue_inside :
    (Text → ℕ → Parts) → Option ScanDirection → Option DateKey → ℕ → ℕ → ℕ → Option Text → Bool
is_overdue_inside format_to_parts last_direction none end_minute grace_minutes now tz = false
is_overdue_inside format_to_parts last_direction (some last) end_minute grace_minutes now tz =
    let local = local_moment format_to_parts (get_or tz default_time_zone) now in
    if direction_is_in last_direction
    then date_lt last local.date
      || (date_eq local.date last && ltb (end_minute + grace_minutes) local.minute)
    else false

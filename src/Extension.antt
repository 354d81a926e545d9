-- ===== src/Extension.antt =====
-- The rules for extending a visitor's pass:
-- backend/src/modules/invitation-extensions/extension.rules.ts. Times are milliseconds since the
-- epoch, and the clock of the estate's time zone is a parameter.
pub mod Quiet
pub mod Bounds
use entryva.Base.{
  ℕ, ◌+◌, ◌-◌, ◌*◌, ◌/◌, ◌%◌, max, Bool, true, false, ◌&&◌, ◌||◌, ltb, leb, ◌==◌, if◌then◌else◌,
  Option, none, some, [], ◌++◌, Text, codes, JsNumber, whole, below_zero, not_integer, show,
  show_two,
}
use entryva.Calendar.{LocalMoment}

-- `LONG_EXPIRED_MINUTES`
abbrev pub long_expired_minutes : ℕ
long_expired_minutes = 120

-- `InvitationStatus` and `EntryPolicy` of backend/prisma/schema.prisma.
pub data InvitationStatus : Type 0 where
  pending active used expired revoked cancelled : InvitationStatus

pub data EntryPolicy : Type 0 where
  one_time multi_entry : EntryPolicy

pub record ExtensionRules : Type 0 where
  pub enabled : Bool
  pub max_extend_minutes : ℕ
  pub max_total_minutes : ℕ
  pub quiet_from_minute : Option ℕ
  pub quiet_to_minute : Option ℕ

pub record ExtensionTarget : Type 0 where
  pub status : InvitationStatus
  pub entry_policy : EntryPolicy
  pub valid_from : ℕ
  pub valid_until : ℕ

pub data ExtensionDenyCode : Type 0 where
  disabled revoked already_used expired_too_long invalid_amount : ExtensionDenyCode
  too_long_request too_long_total quiet_hours : ExtensionDenyCode

pub data ExtensionDecision : Type 0 where
  -- The new end, and the minutes that were added.
  extended : ℕ → ℕ → ExtensionDecision
  deny : ExtensionDenyCode → Text → ExtensionDecision

-- `status === 'REVOKED' || status === 'CANCELLED'`
abbrev pub is_revoked : InvitationStatus → Bool
is_revoked InvitationStatus.revoked = true
is_revoked InvitationStatus.cancelled = true
is_revoked _ = false

-- `status === 'USED'`, and so on.
abbrev pub is_used : InvitationStatus → Bool
is_used InvitationStatus.used = true
is_used _ = false

abbrev pub is_active : InvitationStatus → Bool
is_active InvitationStatus.active = true
is_active _ = false

abbrev pub is_expired : InvitationStatus → Bool
is_expired InvitationStatus.expired = true
is_expired _ = false

abbrev pub is_one_time : EntryPolicy → Bool
is_one_time one_time = true
is_one_time multi_entry = false

-- `inQuietHours`; a window like 22:00-05:00 wraps past midnight.
unfoldable pub in_quiet_hours : ℕ → Option ℕ → Option ℕ → Bool
in_quiet_hours minute (some from) (some to) =
    if from == to
    then false
    else if ltb from to
    then leb from minute && ltb minute to
    else leb from minute || ltb minute to
in_quiet_hours minute _ _ = false

-- `clock`
unfoldable pub clock : ℕ → Text
unfolding show_two
clock minute = show_two (minute / 60) ++ codes ":" ++ show_two (minute % 60)

-- `describeMinutes`
unfoldable pub describe_minutes : ℕ → Text
unfolding show
describe_minutes total =
    if total % 60 == 0
    then show (total / 60) ++ codes " hour" ++ (if total == 60 then [] else codes "s")
    else show total ++ codes " minutes"

-- `quietMessage`
unfoldable pub quiet_message : Option ℕ → Option ℕ → Text
unfolding clock
quiet_message (some from) (some to) =
    codes "Passes can't be extended between "
    ++ clock from
    ++ codes " and "
    ++ clock to
    ++ codes "."
quiet_message _ _ = []

-- The checks of `evaluateExtension` on a whole number of minutes, from the amount on. `at` is
-- `localMoment` in the estate's time zone. The total less the start stops at 0 here and may be
-- negative there: neither is more than a maximum.
unfoldable pub evaluate_amount :
    (ℕ → LocalMoment) → ExtensionTarget → ExtensionRules → ℕ → ℕ → ExtensionDecision
unfolding in_quiet_hours
evaluate_amount at target rules requested now =
    let new_valid_until = max target.valid_until now + requested * 60000 in
    if ltb requested 1
    then deny invalid_amount (codes "Choose how many minutes to add.")
    else if ltb rules.max_extend_minutes requested
    then deny too_long_request (
        codes "You can add at most "
        ++ describe_minutes rules.max_extend_minutes
        ++ codes " at a time.")
    else if ltb (rules.max_total_minutes * 60000) (new_valid_until - target.valid_from)
    then deny too_long_total (
        codes "A pass can last at most "
        ++ describe_minutes rules.max_total_minutes
        ++ codes " in total.")
    else if in_quiet_hours (at now).minute rules.quiet_from_minute rules.quiet_to_minute
        || in_quiet_hours (at new_valid_until).minute rules.quiet_from_minute rules.quiet_to_minute
    then deny quiet_hours (quiet_message rules.quiet_from_minute rules.quiet_to_minute)
    else extended new_valid_until requested

-- The amount check refuses what is no whole number.
unfoldable pub evaluate_number :
    (ℕ → LocalMoment) → ExtensionTarget → ExtensionRules → JsNumber → ℕ → ExtensionDecision
evaluate_number at target rules (whole n) now = evaluate_amount at target rules n now
evaluate_number at target rules (below_zero _) now =
    deny invalid_amount (codes "Choose how many minutes to add.")
evaluate_number at target rules not_integer now =
    deny invalid_amount (codes "Choose how many minutes to add.")

-- `evaluateExtension`
unfoldable pub evaluate_extension :
    (ℕ → LocalMoment) → ExtensionTarget → ExtensionRules → JsNumber → ℕ → ExtensionDecision
evaluate_extension at target rules requested now =
    if rules.enabled
    then (if is_revoked target.status
        then deny ExtensionDenyCode.revoked (codes "A revoked pass cannot be extended.")
        else if is_one_time target.entry_policy && is_used target.status
        then deny already_used (codes "This one-time pass has already been used.")
        else if ltb (long_expired_minutes * 60000) (now - target.valid_until)
        then deny expired_too_long (codes "This pass expired a while ago. Please create a new one.")
        else evaluate_number at target rules requested now)
    else deny disabled (codes "This estate does not allow pass extensions.")

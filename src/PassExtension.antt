-- ===== src/PassExtension.antt =====
-- Extending a pass, and the estate's rules for it:
-- backend/src/modules/invitation-extensions/invitation-extensions.service.ts.
pub mod Written
pub mod Granted
pub mod Rules
use entryva.Base.{
  ℕ, Bool, true, false, ◌&&◌, not, ltb, ◌==◌, if◌then◌else◌, Option, none, some, List, [], ◌∷◌,
  find, update_where, count_where, Text, JsNumber, is_none, differ,
}
use entryva.Calendar.{LocalMoment}
use entryva.Effects.{
  Action, Exception, Result, ok, err, pure, throw, gets, modify, throw_if, or_throw, ◌>>=◌, ◌>>◌,
  not_found, forbidden, bad_request, conflict, bad_request_with, forbidden_with, conflict_with,
}
use entryva.Extension.{
  InvitationStatus, ExtensionRules, ExtensionTarget, ExtensionDenyCode, already_used,
  invalid_amount, too_long_request, too_long_total, ExtensionDecision, extended, deny, is_revoked,
  is_expired, evaluate_extension,
}
use entryva.Store.{
  UserRole, super_admin, estate_admin, resident, security_officer, Estate, User, Invitation, Db,
  Env, log, dispatch, AuditAction, NotificationEvent, pass_rules_updated, ResidentContext,
}

-- `exceptionFor`
unfoldable pub exception_for : ExtensionDenyCode → Text → Exception
exception_for already_used message = conflict_with message
exception_for invalid_amount message = bad_request_with message
exception_for too_long_request message = bad_request_with message
exception_for too_long_total message = bad_request_with message
exception_for _ message = forbidden_with message

-- `if (!decision.ok) throw exceptionFor(decision)`
abbrev pub or_refuse : ExtensionDecision → Action Db (ℕ × ℕ)
or_refuse (extended until minutes) db = (ok (until, minutes), db)
or_refuse (deny code message) db = (err (exception_for code message), db)

abbrev pub target_of : Invitation → ExtensionTarget
target_of i = record {
  status = i.status;
  entry_policy = i.entry_policy;
  valid_from = i.valid_from;
  valid_until = i.valid_until;
}

-- The row is as it was read, and nobody has revoked it since.
abbrev pub unchanged : Invitation → Invitation → Bool
unchanged i row =
    row.id == i.id && (row.valid_until == i.valid_until && not (is_revoked row.status))

abbrev pub prolong : Bool → ℕ → Invitation → Invitation
prolong reactivate until row = record row {
  valid_until = until;
  status = if reactivate then InvitationStatus.active else row.status;
}

-- The write that succeeds only on an unchanged row.
unfoldable pub write_extension : Invitation → ℕ → Action Db (Unit {0})
write_extension i until = do
  count ← gets (λ db. count_where (unchanged i) db.invitations)
  modify (λ db. record db {
    invitations = update_where (unchanged i) (prolong (is_expired i.status) until) db.invitations;
  })
  throw_if (count == 0) (conflict "This pass was just changed. Reload the page and try again.")

-- What the resident gets back: the new end and the status.
abbrev pub status_after : Invitation → InvitationStatus
status_after i = if is_expired i.status then InvitationStatus.active else i.status

module _ (local_moment : Text → ℕ → LocalMoment) where
  -- `extend`
  unfoldable pub extend : Env → ResidentContext → ℕ → JsNumber → Action Db (ℕ × InvitationStatus)
  extend env ctx id minutes = do
    found ← gets (λ db.
        find (λ i. i.id == id && (i.resident.id == ctx.id && i.estate_id == ctx.estate_id))
          db.invitations)
    i ← or_throw found (not_found "Invitation not found.")
    row ← gets (λ db. find (λ e. e.id == ctx.estate_id) db.estates)
    estate ← or_throw row (not_found "Estate not found.")
    granted ← or_refuse (
        evaluate_extension (local_moment estate.timezone) (target_of i) estate.pass_rules minutes
          env.now)
    write_extension i granted.0
    modify (
        log (record {
          action =
              AuditAction.invitation_extended i.valid_until granted.0 granted.1 ctx.display_name;
          user_id = some ctx.user_id;
          estate_id = some ctx.estate_id;
          entity_id = some i.id;
        }))
    modify (
        dispatch i.resident.user_id (
          NotificationEvent.invitation_extended i.id i.visitor.full_name i.valid_until granted.0
            granted.1))
    pure (granted.0, status_after i)

-- `if (user.role === 'ESTATE_ADMIN')`
abbrev pub is_estate_admin : UserRole → Bool
is_estate_admin estate_admin = true
is_estate_admin _ = false

-- An estate admin's own estate, whatever was asked for; anyone else names one.
unfoldable pub scope_of : User → Option ℕ → Action Db ℕ
scope_of user param =
    if is_estate_admin user.role
    then or_throw user.admin_estate_id (forbidden "This admin is not linked to an estate.")
    else or_throw param (bad_request "Choose an estate (estateId).")

-- `resolveEstateId`
unfoldable pub resolve_estate_id : ℕ → Option ℕ → Action Db ℕ
unfolding scope_of
resolve_estate_id user_id param = do
  row ← gets (λ db. find (λ u. u.id == user_id) db.users)
  user ← or_throw row (forbidden "Not authenticated.")
  scope_of user param

abbrev pub find_estate : ℕ → Db → Option Estate
find_estate id db = find (λ e. e.id == id) db.estates

-- `getRules`
unfoldable pub get_rules : ℕ → Option ℕ → Action Db (ExtensionRules × Text)
get_rules user_id param = do
  id ← resolve_estate_id user_id param
  row ← gets (find_estate id)
  estate ← or_throw row (not_found "Estate not found.")
  pure (estate.pass_rules, estate.timezone)

-- `from !== null && from === to`
abbrev pub same_minute : Option ℕ → Option ℕ → Bool
same_minute (some a) (some b) = a == b
same_minute _ _ = false

abbrev pub set_rules : ℕ → ExtensionRules → Db → Db
set_rules id rules db = record db {
  estates = update_where (λ e. e.id == id) (λ e. record e { pass_rules = rules }) db.estates;
}

-- `updateRules`
unfoldable pub update_rules : ℕ → Option ℕ → ExtensionRules → Action Db (ExtensionRules × Text)
update_rules user_id param rules = do
  id ← resolve_estate_id user_id param
  throw_if (differ (is_none rules.quiet_from_minute) (is_none rules.quiet_to_minute))
      (bad_request "Set both quiet-hours times, or neither.")
  throw_if (same_minute rules.quiet_from_minute rules.quiet_to_minute)
      (bad_request "Quiet hours must start and end at different times.")
  throw_if (ltb rules.max_total_minutes rules.max_extend_minutes)
      (bad_request "The total pass length must be at least the longest single extension.")
  row ← gets (find_estate id)
  before ← or_throw row (not_found "Estate not found.")
  modify (set_rules id rules)
  modify (
      log (record {
        action = pass_rules_updated before.pass_rules rules;
        user_id = some user_id;
        estate_id = some id;
        entity_id = some id;
      }))
  pure (rules, before.timezone)

-- ===== src/Store/Journal.antt =====
-- The rows of the audit log and of the notifications.
use entryva.Base.{ℕ, Bool, Option, List, Text}
use entryva.Calendar.{DateKey}
use entryva.Extension.{EntryPolicy, ExtensionRules}
use entryva.RecurringPass.{PassStatus, ScanDirection, ScanDenyReason}
use entryva.Store.People.{UserStatus}
use entryva.Store.Gate.{VerificationOutcome, Method, OfflineEvent}
use entryva.Store.Passes.{RecurringPassRole}
use entryva.Store.Alerts.{EmergencyKind}
use entryva.Store.Posts.{AnnouncementKind}

-- `EmailSendResult`
pub data EmailStatus : Type 0 where
  sent failed not_configured : EmailStatus

pub data LoginFailure : Type 0 where
  no_such_account_or_no_password account_not_active wrong_password : LoginFailure

-- What an admin changed of a resident.
pub data ResidentChange : Type 0 where
  resident_created : Text → Text → ResidentChange
  -- With the apartments, where the resident moved.
  resident_updated : Text → Option (ℕ × ℕ) → ResidentChange
  resident_removed : Text → ResidentChange
  resident_status : UserStatus → Text → ResidentChange

-- The action of an audit log entry, with its metadata.
pub data AuditAction : Type 0 where
  invitation_created : EntryPolicy → AuditAction
  invitation_verified : VerificationOutcome → Method → Bool → AuditAction
  invitation_revoked : AuditAction
  invitation_extended : ℕ → ℕ → ℕ → Text → AuditAction
  entry_allowed : ℕ → AuditAction
  exit_recorded : AuditAction
  entry_denied : Option Text → AuditAction
  offline_event_synced : Text → OfflineEvent → AuditAction
  pass_rules_updated : ExtensionRules → ExtensionRules → AuditAction
  recurring_scan_allowed : Option ScanDirection → Bool → Bool → ℕ → AuditAction
  recurring_scan_denied : Option ScanDenyReason → Bool → Bool → ℕ → AuditAction
  -- Why a login failed.
  login_failed : Text → LoginFailure → AuditAction
  login : AuditAction
  signup_rejected : Text → AuditAction
  signup_started : Text → Text → EmailStatus → AuditAction
  estate_signup_completed : ℕ → AuditAction
  resident_invite_created : ℕ → Text → EmailStatus → AuditAction
  resident_invite_resent : EmailStatus → AuditAction
  resident_invite_cancelled : Option Text → AuditAction
  resident_invite_completed : ℕ → ℕ → AuditAction
  recurring_pass_created : RecurringPassRole → List ℕ → DateKey → DateKey → AuditAction
  -- From one status to another.
  recurring_pass_paused recurring_pass_resumed : PassStatus → PassStatus → AuditAction
  recurring_pass_revoked : PassStatus → PassStatus → AuditAction
  recurring_pass_day_skipped : DateKey → AuditAction
  recurring_pass_extra_day : DateKey → Option ℕ → Option ℕ → AuditAction
  recurring_pass_renewed : DateKey → DateKey → AuditAction
  recurring_pass_phone_reset : AuditAction
  emergency_raised : EmergencyKind → ℕ → AuditAction
  emergency_acknowledged : AuditAction
  announcement_posted : AnnouncementKind → AuditAction
  announcement_deleted : AuditAction
  admin_changed_resident : ResidentChange → AuditAction
  admin_removal_password_check_failed : AuditAction
  -- Whether staff closed the alert.
  emergency_resolved : Bool → AuditAction

pub record AuditLog : Type 0 where
  pub action : AuditAction
  pub user_id : Option ℕ
  pub estate_id : Option ℕ
  pub entity_id : Option ℕ

-- `NotificationType`, with the payload.
pub data NotificationEvent : Type 0 where
  visitor_verified visitor_entered visitor_exited : ℕ → Text → NotificationEvent
  invitation_expired : ℕ → Text → NotificationEvent
  invitation_extended : ℕ → Text → ℕ → ℕ → ℕ → NotificationEvent
  recurring_pass_entered recurring_pass_exited : ℕ → Text → NotificationEvent
  recurring_pass_overdue : ℕ → Text → NotificationEvent
  emergency_raised : ℕ → EmergencyKind → Text → Text → NotificationEvent
  emergency_acknowledged : ℕ → Text → NotificationEvent
  emergency_resolved : ℕ → NotificationEvent
  -- A post, with its title and preview.
  announcement_posted security_alert : ℕ → Text → Text → NotificationEvent

pub record Notification : Type 0 where
  pub user_id : ℕ
  pub event : NotificationEvent

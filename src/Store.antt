-- ===== src/Store.antt =====
-- The database: the tables of backend/prisma/schema.prisma that the gate works with. A table is a
-- list with the newest row first, so `orderBy: { createdAt: 'desc' }` is the order of the list.
-- The rows that `include` joins to an invitation stand in it, and the status of a user in the user's
-- profile: what changes the one changes the other, except that the apartment of an invitation keeps
-- its occupancy, which is not read there.
-- Identifiers, hashes and times are numbers.
mod People
mod Gate
mod Passes
mod Alerts
mod Posts
mod Journal
mod Accounts
pub use People.*
pub use Gate.*
pub use Passes.*
pub use Alerts.*
pub use Journal.*
pub use Accounts.*
pub use Posts.*
use entryva.Base.{ℕ, Bool, Option, List, ◌∷◌, Text}

pub record Db : Type 0 where
  pub estates : List Estate
  pub apartments : List Apartment
  pub residents : List ResidentProfile
  pub officers : List OfficerProfile
  pub users : List User
  pub visitors : List Visitor
  pub invitations : List Invitation
  pub visits : List Visit
  pub entry_exit_events : List EntryExitEvent
  pub invitation_events : List InvitationEvent
  pub verification_events : List VerificationEvent
  pub offline_sync_events : List OfflineSyncEvent
  pub emergency_alerts : List EmergencyAlert
  pub recurring_passes : List RecurringPass
  pub recurring_pass_scans : List RecurringPassScan
  pub blocked_persons : List EstateBlockedPerson
  pub pending_signups : List PendingSignup
  pub resident_invites : List ResidentInvite
  pub mails : List Mail
  pub officer_messages : List OfficerMessage
  pub announcements : List Announcement
  pub audit_logs : List AuditLog
  pub notifications : List Notification

-- The server's clock during a request, and the identifier that the database gives to a new row.
pub record Env : Type 0 where
  pub now : ℕ
  pub new_id : ℕ

-- `AuditLogsService.log`
abbrev pub log : AuditLog → Db → Db
log row db = record db { audit_logs = row ∷ db.audit_logs }

-- `NotificationsService.dispatch`: the saved row; the push to the phones is not followed.
abbrev pub dispatch : ℕ → NotificationEvent → Db → Db
dispatch user_id event db = record db {
  notifications = record { user_id = user_id; event = event } ∷ db.notifications;
}

-- The identity that `SecurityContextGuard` resolves.
pub record SecurityContext : Type 0 where
  pub officer_id : ℕ
  pub estate_id : ℕ

-- The identity that `ResidentContextGuard` resolves: the resident's own profile, whose fields are
-- `residentId`, `userId`, `estateId`, `apartmentId` and `displayName`.
abbrev pub ResidentContext : Type 0
ResidentContext = ResidentProfile

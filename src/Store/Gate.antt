-- ===== src/Store/Gate.antt =====
-- The rows of invitations, visits and what happens at the gate.
use entryva.Base.{ℕ, Bool, Option, none, Text}
use entryva.Effects.{Exception}
use entryva.Extension.{InvitationStatus, EntryPolicy}
use entryva.Store.People.{Apartment, ResidentProfile, Visitor}

pub data VisitorType : Type 0 where
  guest courier : VisitorType

pub data VerificationOutcome : Type 0 where
  valid expired not_yet_valid revoked already_used not_found wrong_estate : VerificationOutcome

pub data Method : Type 0 where
  qr manual_code : Method

pub data EntryExitType : Type 0 where
  entry exit : EntryExitType

pub data InvitationEventType : Type 0 where
  created entered exited revoked : InvitationEventType

-- The columns of `Invitation` on the visitor's way to the gate. Coordinates, headings and accuracies
-- are stored and handed on, never computed with: they are numbers here.
pub record LiveLocation : Type 0 where
  pub lat : Option ℕ
  pub lng : Option ℕ
  pub heading : Option ℕ
  pub accuracy_m : Option ℕ
  pub updated_at : Option ℕ
  pub arrived_at : Option ℕ

-- The columns of a new invitation.
abbrev pub no_live : LiveLocation
no_live = record {
  lat = none;
  lng = none;
  heading = none;
  accuracy_m = none;
  updated_at = none;
  arrived_at = none;
}

pub record Invitation : Type 0 where
  pub id : ℕ
  pub estate_id : ℕ
  pub resident : ResidentProfile
  pub apartment : Apartment
  pub visitor : Visitor
  pub secure_token_hash : ℕ
  pub display_code_hash : ℕ
  pub valid_from : ℕ
  pub valid_until : ℕ
  pub status : InvitationStatus
  pub entry_policy : EntryPolicy
  pub visitor_type : VisitorType
  pub revoked_at : Option ℕ
  pub used_at : Option ℕ
  pub live : LiveLocation

pub record Visit : Type 0 where
  pub id : ℕ
  pub invitation_id : ℕ
  pub entered_at : Option ℕ
  pub exited_at : Option ℕ

pub record EntryExitEvent : Type 0 where
  pub visit_id : ℕ
  pub officer_id : ℕ
  pub type : EntryExitType
  pub created_at : ℕ

pub record InvitationEvent : Type 0 where
  pub invitation_id : ℕ
  pub type : InvitationEventType

pub record VerificationEvent : Type 0 where
  pub invitation_id : Option ℕ
  pub officer_id : ℕ
  pub outcome : VerificationOutcome
  pub method : Method
  pub offline : Bool

pub data OfflineDecision : Type 0 where
  allowed denied : OfflineDecision

-- 'ENTRY' and 'DENY'
pub data OfflineEventType : Type 0 where
  entry_event deny_event : OfflineEventType

-- One event that a gate device recorded while it was offline.
pub record OfflineEvent : Type 0 where
  pub client_event_id : ℕ
  pub invitation_id : ℕ
  pub decision : OfflineDecision
  pub method : Method
  pub occurred_at : ℕ
  pub reason : Option Text

pub data SyncStatus : Type 0 where
  synced failed : SyncStatus

pub record OfflineSyncEvent : Type 0 where
  pub estate_id : ℕ
  pub officer_id : ℕ
  pub device_id : Text
  pub event_type : OfflineEventType
  pub payload : OfflineEvent
  pub status : SyncStatus
  -- The exception whose message is stored.
  pub error : Option Exception
  pub client_event_id : ℕ

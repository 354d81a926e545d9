-- ===== src/Store/Alerts.antt =====
-- The rows of emergency alerts.
use entryva.Base.{ℕ, Option, Text}

pub data EmergencyKind : Type 0 where
  fire medical security other : EmergencyKind

pub data EmergencyStatus : Type 0 where
  opened acknowledged resolved : EmergencyStatus

pub record EmergencyAlert : Type 0 where
  pub id : ℕ
  pub estate_id : ℕ
  pub raised_by_id : ℕ
  pub raised_by_name : Text
  pub apartment_label : Text
  pub kind : EmergencyKind
  pub note : Option Text
  pub status : EmergencyStatus
  pub acknowledged_by : Option (ℕ × Text × ℕ)
  pub resolved_by : Option (ℕ × Text × ℕ)
  pub created_at : ℕ

-- ===== src/Store/Accounts.antt =====
-- The rows of sign-ups, of resident invites and of the mail that was handed over for delivery.
use entryva.Base.{ℕ, Option, Text}

-- `PendingSignupStatus`
pub data SignupStatus : Type 0 where
  pending verified expired superseded : SignupStatus

pub record PendingSignup : Type 0 where
  pub id : ℕ
  pub email : Text
  pub token_hash : ℕ
  pub password_hash : Text
  pub admin_name : Text
  pub admin_phone : Option Text
  pub estate_name : Text
  pub address : Text
  pub city : Text
  pub state : Text
  pub country : Text
  pub timezone : Text
  pub contact_phone : Option Text
  pub status : SignupStatus
  pub expires_at : ℕ
  pub verified_at : Option ℕ
  pub created_at : ℕ

-- `ResidentInviteStatus`
pub data InviteStatus : Type 0 where
  pending used expired revoked : InviteStatus

pub record ResidentInvite : Type 0 where
  pub id : ℕ
  pub estate_id : ℕ
  pub apartment_id : ℕ
  pub email : Text
  pub token_hash : ℕ
  pub status : InviteStatus
  pub expires_at : ℕ
  pub invited_by_id : ℕ
  pub used_at : Option ℕ

-- A mail to an address, with the secret token of its link if it has one.
pub record Mail : Type 0 where
  pub to : Text
  pub token : Option Text

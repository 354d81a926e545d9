-- ===== src/Store/People.antt =====
-- The rows of estates and of the people in them.
use entryva.Base.{ℕ, Bool, true, false, Option, Text}
use entryva.Extension.{ExtensionRules}

pub data UserRole : Type 0 where
  super_admin estate_admin resident security_officer : UserRole

pub data UserStatus : Type 0 where
  active suspended pending removed : UserStatus

abbrev pub is_active_user : UserStatus → Bool
is_active_user UserStatus.active = true
is_active_user _ = false

abbrev pub is_removed : UserStatus → Bool
is_removed UserStatus.removed = true
is_removed _ = false

pub record Estate : Type 0 where
  pub id : ℕ
  pub name : Text
  pub timezone : Text
  pub pass_rules : ExtensionRules
  pub main_gate_name : Option Text
  pub main_gate_latitude : Option ℕ
  pub main_gate_longitude : Option ℕ
  pub address : Option Text
  pub city : Option Text
  pub state : Option Text
  pub country : Option Text
  pub contact_phone : Option Text

pub record Apartment : Type 0 where
  pub id : ℕ
  pub estate_id : ℕ
  pub building_name : Text
  pub flat_number : Text
  -- `status: 'OCCUPIED'`
  pub occupied : Bool

pub record ResidentProfile : Type 0 where
  pub id : ℕ
  pub user_id : ℕ
  pub estate_id : ℕ
  pub apartment_id : ℕ
  pub display_name : Text
  pub phone : Option Text
  -- `status: 'ACTIVE'` of the profile, which nothing writes, and the status of its user.
  pub active : Bool
  pub user_status : UserStatus

pub record OfficerProfile : Type 0 where
  pub id : ℕ
  pub user_id : ℕ
  pub estate_id : ℕ
  pub full_name : Text
  pub active : Bool
  pub user_status : UserStatus

pub record User : Type 0 where
  pub id : ℕ
  pub role : UserRole
  pub admin_estate_id : Option ℕ
  pub status : UserStatus
  pub email : Option Text
  pub phone : Option Text
  pub password_hash : Option Text
  pub display_name : Option Text
  pub refresh_token_hash : Option ℕ
  pub last_login_at : Option ℕ

pub record Visitor : Type 0 where
  pub id : ℕ
  pub estate_id : ℕ
  pub full_name : Text
  pub phone : Option Text

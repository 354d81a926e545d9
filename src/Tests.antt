-- ===== src/Tests.antt =====
-- An estate with a resident, an officer and a few passes, for the examples.
pub mod Gate
pub mod Rules
pub mod Passes
pub mod Offline
pub mod Alerts
pub mod Scans
pub mod Residents
pub mod Created
pub mod Onboarding
pub mod Moves
pub mod Posts
pub mod Admins
use entryva.Base.{ℕ, ◌+◌, ◌-◌, ◌*◌, ◌/◌, ◌%◌, true, Option, none, some, List, [], ◌∷◌, Text, codes}
use entryva.Calendar.{LocalMoment, Parts}
use entryva.Extension.{InvitationStatus, EntryPolicy, one_time, ExtensionRules}
use entryva.Store.{
  UserStatus, guest, Estate, Apartment, ResidentProfile, UserRole, estate_admin, User, Visitor,
  Invitation, Visit, Db, Env, SecurityContext, OfflineDecision, no_live, OfflineEvent, Method,
}

-- Stand-ins for SHA-256, its bytes and the clocks.
abbrev pub sample_hash : Text → ℕ
sample_hash [] = 7
sample_hash (c ∷ cs) = c + 131 * sample_hash cs

abbrev pub sample_digest : Text → List ℕ
sample_digest token = token

abbrev pub digits : ℕ → Text → ℕ
digits n [] = n
digits n (c ∷ cs) = digits (n * 10 + (c - 48)) cs

abbrev pub sample_from_iso : Text → Text → Option ℕ
sample_from_iso timezone text = some (digits 0 text)

abbrev pub sample_moment : Text → ℕ → LocalMoment
sample_moment timezone now = record {
  date = record { year = 2026; month = 3; day = 2 };
  weekday = 1;
  minute = now / 60000 % 1440;
}

abbrev pub sample_parts : Text → ℕ → Parts
sample_parts timezone now = record {
  year = 2026;
  month = 3;
  day = 2;
  weekday = 1;
  hour = now / 3600000 % 24;
  minute = now / 60000 % 60;
}

abbrev pub sample_rules : ExtensionRules
sample_rules = record {
  enabled = true;
  max_extend_minutes = 120;
  max_total_minutes = 1000;
  quiet_from_minute = some 1320;
  quiet_to_minute = some 300;
}

abbrev pub sample_estate : Estate
sample_estate = record {
  id = 1;
  name = codes "Palm";
  timezone = codes "Africa/Lagos";
  pass_rules = sample_rules;
  main_gate_name = none;
  main_gate_latitude = some 64281;
  main_gate_longitude = some 34219;
  address = none;
  city = none;
  state = none;
  country = none;
  contact_phone = none;
}

abbrev pub sample_apartment : Apartment
sample_apartment = record {
  id = 5;
  estate_id = 1;
  building_name = codes "B";
  flat_number = codes "2";
  occupied = true;
}

abbrev pub sample_resident : ResidentProfile
sample_resident = record {
  id = 10;
  user_id = 11;
  estate_id = 1;
  apartment_id = 5;
  display_name = codes "Ada";
  phone = none;
  active = true;
  user_status = UserStatus.active;
}

abbrev pub sample_admin : User
sample_admin = record {
  id = 12;
  role = estate_admin;
  admin_estate_id = some 1;
  status = UserStatus.active;
  email = some (codes "eve@palm.ng");
  phone = none;
  password_hash = some (codes "secret-pass");
  display_name = some (codes "Eve");
  refresh_token_hash = none;
  last_login_at = none;
}

-- A pass for one entry, from 6:00 to 10:00 of the first day.
abbrev pub sample_invitation : Invitation
sample_invitation = record {
  id = 1;
  estate_id = 1;
  resident = sample_resident;
  apartment = sample_apartment;
  visitor = record { id = 3; estate_id = 1; full_name = codes "Bo"; phone = none };
  secure_token_hash = sample_hash (codes "token");
  display_code_hash = sample_hash (codes "ABCDEF");
  valid_from = 21600000;
  valid_until = 36000000;
  status = InvitationStatus.active;
  entry_policy = one_time;
  visitor_type = guest;
  revoked_at = none;
  used_at = none;
  live = no_live;
}

abbrev pub sample_db : Db
sample_db = record {
  estates = sample_estate ∷ [];
  apartments = sample_apartment ∷ [];
  residents = sample_resident ∷ [];
  officers = [];
  users = sample_admin ∷ [];
  visitors = [];
  invitations = sample_invitation ∷ [];
  visits = [];
  entry_exit_events = [];
  invitation_events = [];
  verification_events = [];
  offline_sync_events = [];
  emergency_alerts = [];
  recurring_passes = [];
  recurring_pass_scans = [];
  blocked_persons = [];
  pending_signups = [];
  resident_invites = [];
  mails = [];
  officer_messages = [];
  announcements = [];
  audit_logs = [];
  notifications = [];
}

-- 7:00 and 11:00 of the first day.
abbrev pub morning : Env
morning = record { now = 25200000; new_id = 100 }

abbrev pub noon : Env
noon = record { now = 39600000; new_id = 101 }

abbrev pub sample_officer : SecurityContext
sample_officer = record { officer_id = 20; estate_id = 1 }

abbrev pub sample_event : OfflineEvent
sample_event = record {
  client_event_id = 900;
  invitation_id = 1;
  decision = OfflineDecision.allowed;
  method = Method.manual_code;
  occurred_at = 25200000;
  reason = none;
}

-- ===== src/Signup.antt =====
-- Estates that sign up by themselves: `startSignup` of backend/src/modules/signup/signup.service.ts.
-- SHA-256, bcrypt, the fresh random token and the delivery of mail are parameters.
pub mod Activation
pub mod Pending
pub mod Completed
pub mod Once
pub mod Login
use entryva.Base.{
  ℕ, ◌+◌, ◌*◌, Bool, true, false, ◌&&◌, ◌||◌, not, ltb, leb, ◌==◌, if◌then◌else◌, Option, none,
  some, is_some, List, [], ◌∷◌, any, find, select, update_where, count_where, Text, text_eq,
}
use entryva.Effects.{
  Exception, Action, ok, pure, gets, modify, throw_if, or_throw, transaction, rethrow, ◌>>=◌, ◌>>◌,
  not_found, gone, conflict, unique_violation,
}
use entryva.Extension.{ExtensionRules}
use entryva.Store.{
  UserStatus, UserRole, estate_admin, Estate, User, SignupStatus, PendingSignup, Mail, EmailStatus,
  signup_rejected, signup_started, estate_signup_completed, Db, Env, log,
}
use entryva.Accounts.{TokenPair, is_text, start_session}

-- `SIGNUP_LINK_TTL_MS`, `SIGNUP_RESEND_COOLDOWN_MS`, and the week that dead rows are kept.
abbrev pub signup_link_ttl_ms : ℕ
signup_link_ttl_ms = 86400000

abbrev pub signup_resend_cooldown_ms : ℕ
signup_resend_cooldown_ms = 60000

abbrev pub week_ms : ℕ
week_ms = 604800000

-- `StartSignupDto`
pub record StartSignup : Type 0 where
  pub estate_name : Text
  pub address : Text
  pub city : Text
  pub state : Text
  pub country : Text
  pub timezone : Text
  pub contact_phone : Option Text
  pub admin_name : Text
  pub email : Text
  pub admin_phone : Option Text
  pub password : Text

-- `value || null`
abbrev pub or_null : Option Text → Option Text
or_null none = none
or_null (some []) = none
or_null (some (c ∷ cs)) = some (c ∷ cs)

abbrev pub is_pending : SignupStatus → Bool
is_pending SignupStatus.pending = true
is_pending _ = false

abbrev pub is_verified : SignupStatus → Bool
is_verified SignupStatus.verified = true
is_verified _ = false

-- A row that waits for the confirmation of an address.
abbrev pub pending_for : Text → PendingSignup → Bool
pending_for email p = text_eq p.email email && is_pending p.status

-- The rows that expired less than a week ago, or have not yet; the source compares with a time that
-- may lie before the epoch.
abbrev pub cleanup : ℕ → Db → Db
cleanup now db = record db {
  pending_signups = select (λ p. not (ltb (p.expires_at + week_ms) now)) db.pending_signups;
}

-- The address was sent a link less than a minute ago.
abbrev pub is_recent : ℕ → Text → PendingSignup → Bool
is_recent now email p = pending_for email p && ltb now (p.created_at + signup_resend_cooldown_ms)

abbrev pub supersede : Text → Db → Db
supersede email db = record db {
  pending_signups =
      update_where (pending_for email) (λ p. record p { status = SignupStatus.superseded })
        db.pending_signups;
}

module _ (hash : Text → ℕ) (hash_password : Text → Text) where
  abbrev pub new_pending : Env → StartSignup → Text → PendingSignup
  new_pending env dto token = record {
    id = env.new_id;
    email = dto.email;
    token_hash = hash token;
    password_hash = hash_password dto.password;
    admin_name = dto.admin_name;
    admin_phone = or_null dto.admin_phone;
    estate_name = dto.estate_name;
    address = dto.address;
    city = dto.city;
    state = dto.state;
    country = dto.country;
    timezone = dto.timezone;
    contact_phone = or_null dto.contact_phone;
    status = SignupStatus.pending;
    expires_at = env.now + signup_link_ttl_ms;
    verified_at = none;
    created_at = env.now;
  }

  -- The rows of a sign-up that goes ahead, the mail with its link and the audit entry.
  abbrev pub begin : Env → StartSignup → Text → EmailStatus → Db → Db
  begin env dto token delivered db =
      log
        (record {
          action = signup_started dto.email dto.estate_name delivered;
          user_id = none;
          estate_id = none;
          entity_id = some env.new_id;
        })
        (record db {
          pending_signups = new_pending env dto token ∷ db.pending_signups;
          mails = record { to = dto.email; token = some token } ∷ db.mails;
        })

  -- `startSignup`; `token` is the fresh random one and `delivered` what became of the mail.
  unfoldable pub start_signup : Env → StartSignup → Text → EmailStatus → Action Db (Unit {0})
  start_signup env dto token delivered db =
      let kept = cleanup env.now db in
      if any (λ u. is_text u.email dto.email) kept.users
      then (
        ok tt,
        log
            (record {
              action = signup_rejected dto.email;
              user_id = none;
              estate_id = none;
              entity_id = none;
            })
            kept,
      )
      else if any (is_recent env.now dto.email) kept.pending_signups
      then (ok tt, kept)
      else (ok tt, begin env dto token delivered (supersede dto.email kept))

-- ===== src/Signup/Activation.antt =====
-- A sign-up that is confirmed: `findLivePending`, `previewByToken` and `completeSignup` of
-- backend/src/modules/signup/signup.service.ts. SHA-256, bcrypt and the tokens of a session are
-- parameters.
use entryva.Base.{
  ℕ, Bool, true, false, ◌&&◌, ◌||◌, not, ltb, leb, ◌==◌, if◌then◌else◌, Option, none, some, ◌∷◌,
  any, find, update_where, count_where, Text,
}
use entryva.Effects.{
  Exception, Action, pure, gets, modify, throw_if, or_throw, transaction, rethrow, ◌>>=◌, ◌>>◌,
  not_found, gone, conflict, unique_violation,
}
use entryva.Extension.{ExtensionRules}
use entryva.Store.{
  UserStatus, estate_admin, Estate, User, SignupStatus, PendingSignup, estate_signup_completed, Db,
  Env, log,
}
use entryva.Accounts.{TokenPair, is_text, start_session}
use entryva.Signup.{is_pending, is_verified}

pub record PublicSignupPreview : Type 0 where
  pub estate_name : Text
  pub admin_name : Text
  pub email : Text
  pub expires_at : ℕ

-- The columns of a new estate that the schema fills in.
abbrev pub default_rules : ExtensionRules
default_rules = record {
  enabled = true;
  max_extend_minutes = 120;
  max_total_minutes = 720;
  quiet_from_minute = none;
  quiet_to_minute = none;
}

abbrev pub new_estate : ℕ → PendingSignup → Estate
new_estate id p = record {
  id = id;
  name = p.estate_name;
  timezone = p.timezone;
  pass_rules = default_rules;
  main_gate_name = none;
  main_gate_latitude = none;
  main_gate_longitude = none;
  address = some p.address;
  city = some p.city;
  state = some p.state;
  country = some p.country;
  contact_phone = p.contact_phone;
}

abbrev pub new_admin : ℕ → ℕ → Option Text → PendingSignup → User
new_admin id estate_id phone p = record {
  id = id;
  role = estate_admin;
  admin_estate_id = some estate_id;
  status = UserStatus.active;
  email = some p.email;
  phone = phone;
  password_hash = some p.password_hash;
  display_name = some p.admin_name;
  refresh_token_hash = none;
  last_login_at = none;
}

-- A user has the column that is asked for.
abbrev pub same_text : Option Text → Option Text → Bool
same_text s none = false
same_text s (some t) = is_text s t

-- `user.create`, with the unique columns of the schema.
abbrev pub create_user : User → Action Db (Unit {0})
create_user u = do
  taken ← gets (λ db. any (λ v. same_text v.email u.email || same_text v.phone u.phone) db.users)
  throw_if taken unique_violation
  modify (λ db. record db { users = u ∷ db.users })

-- The phone of a new admin, unless an account has it.
abbrev pub free_phone : Option Text → Db → Option Text
free_phone none db = none
free_phone (some p) db = if any (λ u. is_text u.phone p) db.users then none else some p

-- The exception of a sign-up whose address was taken in the meantime.
abbrev pub address_taken : Exception → Exception
address_taken unique_violation =
    conflict "An account with this email already exists. Try signing in instead."
address_taken e = e

-- `findLivePending`
unfoldable pub find_live_pending : (Text → ℕ) → ℕ → Text → Action Db PendingSignup
find_live_pending hash now token = do
  row ← gets (λ db. find (λ p. p.token_hash == hash token) db.pending_signups)
  p ← or_throw row (not_found "This signup link is invalid.")
  throw_if (is_verified p.status) (gone "This signup link has already been used. Try signing in.")
  throw_if (not (is_pending p.status) || leb p.expires_at now)
      (gone "This signup link has expired. Please sign up again.")
  pure p

-- `previewByToken`
unfoldable pub preview_by_token : (Text → ℕ) → ℕ → Text → Action Db PublicSignupPreview
preview_by_token hash now token = do
  p ← find_live_pending hash now token
  pure (record {
    estate_name = p.estate_name;
    admin_name = p.admin_name;
    email = p.email;
    expires_at = p.expires_at;
  })

abbrev pub claimable : ℕ → ℕ → PendingSignup → Bool
claimable id now p = p.id == id && (is_pending p.status && ltb now p.expires_at)

abbrev pub verify : ℕ → PendingSignup → PendingSignup
verify now p = record p { status = SignupStatus.verified; verified_at = some now }

-- The claim of the row, the estate and its admin, in one transaction.
unfoldable pub activate : Env → ℕ → PendingSignup → Option Text → Action Db (ℕ × ℕ)
activate env user_id pending phone = do
  count ← gets (λ db. count_where (claimable pending.id env.now) db.pending_signups)
  modify (λ db. record db {
    pending_signups =
        update_where (claimable pending.id env.now) (verify env.now) db.pending_signups;
  })
  throw_if (not (count == 1)) (gone "This signup link has already been used or has expired.")
  modify (λ db. record db { estates = new_estate env.new_id pending ∷ db.estates })
  create_user (new_admin user_id env.new_id phone pending)
  pure (user_id, env.new_id)

module _ (hash : Text → ℕ) (compare_password : Text → Text → Bool)
    (issue_tokens : ℕ → ℕ → TokenPair) where
  -- `completeSignup`; the estate gets the new id of the request, its admin the other.
  unfoldable pub complete_signup : Env → ℕ → Text → Action Db (TokenPair × ℕ × ℕ)
  complete_signup env user_id token = do
    pending ← find_live_pending hash env.now token
    phone ← gets (free_phone pending.admin_phone)
    created ← rethrow address_taken (transaction (activate env user_id pending phone))
    tokens ← start_session hash compare_password issue_tokens env created.0
    modify (
        log (record {
          action = estate_signup_completed pending.id;
          user_id = some created.0;
          estate_id = some created.1;
          entity_id = some created.1;
        }))
    pure (tokens, created.0, created.1)

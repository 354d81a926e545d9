-- ===== src/Accounts.antt =====
-- Sessions: backend/src/modules/auth/auth.service.ts. SHA-256 (`hash`), bcrypt
-- (`compare_password`) and the signing of the two tokens (`issue_tokens`, which depends on the user
-- and the time) are parameters.
pub mod Sessions
use entryva.Base.{
  ℕ, Bool, true, false, ◌&&◌, ◌||◌, not, leb, ◌==◌, ◌+◌, if◌then◌else◌, Option, none, some, is_none,
  get_or, List, [], ◌∷◌, map, find, update_where, Text, text_eq,
}
use entryva.Effects.{
  Exception, Action, ok, err, pure, throw, gets, modify, throw_if, or_throw, ◌>>=◌, ◌>>◌,
  unauthorized, internal,
}
use entryva.Store.{
  is_active_user, UserRole, super_admin, estate_admin, resident, security_officer, ResidentProfile,
  OfficerProfile, User, AuditAction, login_failed, LoginFailure, no_such_account_or_no_password,
  account_not_active, wrong_password, Db, Env, log,
}

pub record TokenPair : Type 0 where
  pub access_token : Text
  pub refresh_token : Text

-- `LoginDto`
pub record Login : Type 0 where
  pub identifier : Text
  pub password : Text

abbrev pub lower : ℕ → ℕ
lower c = if leb 65 c && leb c 90 then c + 32 else c

abbrev pub is_text : Option Text → Text → Bool
is_text none t = false
is_text (some s) t = text_eq s t

-- `{ email: { equals: identifier, mode: 'insensitive' } }`, for the letters of ASCII.
abbrev pub is_text_insensitive : Option Text → Text → Bool
is_text_insensitive none t = false
is_text_insensitive (some s) t = text_eq (map lower s) (map lower t)

abbrev pub goes_by : Text → User → Bool
goes_by identifier u = is_text_insensitive u.email identifier || is_text u.phone identifier

abbrev pub estate_of_resident : Option ResidentProfile → Option ℕ
estate_of_resident none = none
estate_of_resident (some r) = some r.estate_id

abbrev pub estate_of_officer : Option OfficerProfile → Option ℕ
estate_of_officer none = none
estate_of_officer (some o) = some o.estate_id

-- `resolveEstateIdForUser`
abbrev pub estate_of_user : User → Db → Option ℕ
estate_of_user u db = elim u.role [
  | estate_admin ↦ u.admin_estate_id
  | resident ↦ estate_of_resident (find (λ r. r.user_id == u.id) db.residents)
  | security_officer ↦ estate_of_officer (find (λ o. o.user_id == u.id) db.officers)
  | super_admin ↦ none
]

-- The fields of `user` that a login reads, and the hash of its password.
abbrev pub with_password : Option User → Option (User × Text)
with_password none = none
with_password (some u) = elim u.password_hash [ none ↦ none | some h ↦ some (u, h) ]

abbrev pub log_failure : Text → LoginFailure → Option ℕ → Option ℕ → Db → Db
log_failure identifier why user_id estate_id = log (record {
  action = login_failed identifier why;
  user_id = user_id;
  estate_id = estate_id;
  entity_id = none;
})

-- An update of the user with an id.
abbrev pub update_user : ℕ → (User → User) → Db → Db
update_user id f db = record db { users = update_where (λ u. u.id == id) f db.users }

abbrev pub bad_credentials : Exception
bad_credentials = unauthorized "Incorrect email/phone or password."

abbrev pub expired_session : Exception
expired_session = unauthorized "Session expired. Please sign in again."

abbrev pub refresh_hash : Option User → Option ℕ
refresh_hash none = none
refresh_hash (some u) = u.refresh_token_hash

-- `decodeSubject` gives the user of a presented token; it is a parameter of the controller.
module _ (hash : Text → ℕ) (compare_password : Text → Text → Bool)
    (issue_tokens : ℕ → ℕ → TokenPair) where
  -- `startSession`
  unfoldable pub start_session : Env → ℕ → Action Db TokenPair
  start_session env user_id = do
    modify (
        update_user user_id (λ u. record u {
          last_login_at = some env.now;
          refresh_token_hash = some (hash (issue_tokens user_id env.now).refresh_token);
        }))
    pure (issue_tokens user_id env.now)

  -- `login`, once the account was found.
  unfoldable pub login_as : Env → Login → User → Text → Action Db (TokenPair × ℕ)
  unfolding start_session
  login_as env dto user password_hash = do
    estate_id ← gets (estate_of_user user)
    modify (λ db.
        if not (is_active_user user.status)
        then log_failure dto.identifier account_not_active (some user.id) estate_id db
        else db)
    throw_if (not (is_active_user user.status)) (unauthorized "This account is not active.")
    modify (λ db.
        if not (compare_password dto.password password_hash)
        then log_failure dto.identifier wrong_password (some user.id) estate_id db
        else db)
    throw_if (not (compare_password dto.password password_hash)) bad_credentials
    tokens ← start_session env user.id
    modify (
        log (record {
          action = AuditAction.login;
          user_id = some user.id;
          estate_id = estate_id;
          entity_id = some user.id;
        }))
    pure (tokens, user.id)

  -- `login`. `findFirst` without an order returns any row that matches: which one is the choice of the
  -- database, `find_first`.
  unfoldable pub login :
      ((User → Bool) → List User → Option User) → Env → Login → Action Db (TokenPair × ℕ)
  login find_first env dto db =
      elim (with_password (find_first (goes_by dto.identifier) db.users)) [
        | none ↦ (
          err bad_credentials,
          log_failure dto.identifier no_such_account_or_no_password none none db,
        )
        | some (user, password_hash) ↦ login_as env dto user password_hash db
      ]

  -- `refresh`
  unfoldable pub refresh : Env → ℕ → Text → Action Db TokenPair
  refresh env user_id presented = do
    stored ← gets (λ db. refresh_hash (find (λ u. u.id == user_id) db.users))
    current ← or_throw stored expired_session
    modify (λ db.
        if not (hash presented == current)
        then update_user user_id (λ u. record u { refresh_token_hash = none }) db
        else db)
    throw_if (not (hash presented == current)) expired_session
    modify (
        update_user user_id (λ u. record u {
          refresh_token_hash = some (hash (issue_tokens user_id env.now).refresh_token);
        }))
    pure (issue_tokens user_id env.now)

  -- `verifyPassword`
  unfoldable pub verify_password : ℕ → Text → Db → Bool
  verify_password user_id password db =
      elim (with_password (find (λ u. u.id == user_id) db.users)) [
        | none ↦ false
        | some (user, password_hash) ↦ compare_password password password_hash
      ]

-- `logout`; Prisma throws where there is no such user.
unfoldable pub logout : ℕ → Action Db (Unit {0})
logout user_id = do
  row ← gets (λ db. find (λ u. u.id == user_id) db.users)
  user ← or_throw row (internal "P2025")
  modify (update_user user_id (λ u. record u { refresh_token_hash = none }))

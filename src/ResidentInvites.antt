-- ===== src/ResidentInvites.antt =====
-- Invites for residents, as an admin makes them:
-- backend/src/modules/resident-invites/resident-invites.service.ts. SHA-256, the fresh random token and
-- the delivery of mail are parameters.
pub mod Public
pub mod MovedIn
pub mod Homes
pub mod Live
use entryva.Base.{
  ℕ, ◌+◌, Bool, true, false, ◌&&◌, ◌||◌, not, ltb, ◌==◌, if◌then◌else◌, Option, none, some, is_some,
  List, [], ◌∷◌, ◌++◌, any, find, select, update_where, Text, codes,
}
use entryva.Effects.{
  Action, ok, pure, throw, gets, modify, throw_if, or_throw, transaction, ◌>>=◌, ◌>>◌, not_found,
  gone, conflict, conflict_with, forbidden,
}
use entryva.Emergency.{AuthenticatedUser}
use entryva.Store.{
  UserStatus, super_admin, estate_admin, resident, security_officer, Estate, Apartment,
  ResidentProfile, User, InviteStatus, ResidentInvite, Mail, EmailStatus, sent, failed,
  not_configured, resident_invite_created, resident_invite_resent, resident_invite_cancelled,
  resident_invite_completed, Db, Env, log,
}
use entryva.Accounts.{is_text}
use entryva.Signup.Activation.{create_user}

-- `INVITE_TTL_MS`
abbrev pub invite_ttl_ms : ℕ
invite_ttl_ms = 7200000

-- `CreateResidentInviteDto`
pub record CreateResidentInvite : Type 0 where
  pub apartment_id : ℕ
  pub email : Text

-- What an admin gets back, with the token of the link.
pub record InviteAnswer : Type 0 where
  pub id : ℕ
  pub email : Text
  pub expires_at : ℕ
  pub token : Text
  pub email_status : EmailStatus

-- `resolveEstateId`
unfoldable pub resolve_estate_id : AuthenticatedUser → Option ℕ → Action Db ℕ
resolve_estate_id user requested = elim user.role [
  | super_admin ↦ or_throw requested (forbidden "estateId is required for SUPER_ADMIN requests.")
  | estate_admin ↦ or_throw user.estate_id (forbidden "No estate scope available for this account.")
  | resident ↦ throw (forbidden "No estate scope available for this account.")
  | security_officer ↦ throw (forbidden "No estate scope available for this account.")
]

abbrev pub is_pending : InviteStatus → Bool
is_pending InviteStatus.pending = true
is_pending _ = false

abbrev pub is_used : InviteStatus → Bool
is_used InviteStatus.used = true
is_used _ = false

abbrev pub is_revoked : InviteStatus → Bool
is_revoked InviteStatus.revoked = true
is_revoked _ = false

-- The invites of an apartment that wait for an answer.
abbrev pub live_for : ℕ → ResidentInvite → Bool
live_for apartment_id i = i.apartment_id == apartment_id && is_pending i.status

abbrev pub revoked : ResidentInvite → ResidentInvite
revoked i = record i { status = InviteStatus.revoked }

abbrev pub write_invites : (ResidentInvite → Bool) → (ResidentInvite → ResidentInvite) → Db → Db
write_invites p f db = record db { resident_invites = update_where p f db.resident_invites }

abbrev pub occupied_message : Apartment → Text
occupied_message a =
    codes "Apartment \""
    ++ a.flat_number
    ++ codes
        "\" already has a resident assigned. Remove the existing resident first if this is a re-assignment."

abbrev pub send : Text → Option Text → Db → Db
send to token db = record db { mails = record { to = to; token = token } ∷ db.mails }

abbrev pub find_in_estate : ℕ → ℕ → Action Db ResidentInvite
find_in_estate id estate_id = do
  row ← gets (λ db. find (λ i. i.id == id && i.estate_id == estate_id) db.resident_invites)
  or_throw row (not_found "Invite not found in this estate.")

module _ (hash : Text → ℕ) where
  abbrev pub new_invite : Env → AuthenticatedUser → ℕ → CreateResidentInvite → Text → ResidentInvite
  new_invite env user estate_id dto token = record {
    id = env.new_id;
    estate_id = estate_id;
    apartment_id = dto.apartment_id;
    email = dto.email;
    token_hash = hash token;
    status = InviteStatus.pending;
    expires_at = env.now + invite_ttl_ms;
    invited_by_id = user.user_id;
    used_at = none;
  }

  -- The rows of a new invite: those before it for the apartment are revoked.
  abbrev pub insert_invite : ResidentInvite → Text → EmailStatus → ℕ → Db → Db
  insert_invite i token delivered user_id db =
      let written = write_invites (live_for i.apartment_id) revoked db in
      log
        (record {
          action = resident_invite_created i.apartment_id i.email delivered;
          user_id = some user_id;
          estate_id = some i.estate_id;
          entity_id = some i.id;
        })
        (send i.email (some token)
          (record written { resident_invites = i ∷ written.resident_invites }))

  -- `createInvite`
  unfoldable pub create_invite :
      Env
      → AuthenticatedUser
      → Option ℕ
      → CreateResidentInvite
      → Text
      → EmailStatus
      → Action Db InviteAnswer
  create_invite env user requested dto token delivered = do
    estate_id ← resolve_estate_id user requested
    row ←
        gets (λ db. find (λ a. a.id == dto.apartment_id && a.estate_id == estate_id) db.apartments)
    apartment ← or_throw row (not_found "Apartment not found in this estate.")
    throw_if apartment.occupied (conflict_with (occupied_message apartment))
    taken ← gets (λ db. any (λ u. is_text u.email dto.email) db.users)
    throw_if taken (conflict "An account with that email already exists.")
    modify (insert_invite (new_invite env user estate_id dto token) token delivered user.user_id)
    pure (record {
      id = env.new_id;
      email = dto.email;
      expires_at = env.now + invite_ttl_ms;
      token = token;
      email_status = delivered;
    })

  abbrev pub reissued : ℕ → Text → ResidentInvite → ResidentInvite
  reissued now token i = record i {
    token_hash = hash token;
    expires_at = now + invite_ttl_ms;
    status = InviteStatus.pending;
  }

  -- `resendInvite`
  unfoldable pub resend_invite :
      Env → AuthenticatedUser → Option ℕ → ℕ → Text → EmailStatus → Action Db InviteAnswer
  resend_invite env user requested id token delivered = do
    estate_id ← resolve_estate_id user requested
    existing ← find_in_estate id estate_id
    throw_if (is_used existing.status)
        (conflict "This invite has already been used to create an account.")
    modify (write_invites (λ i. i.id == existing.id) (reissued env.now token))
    modify (send existing.email (some token))
    modify (
        log (record {
          action = resident_invite_resent delivered;
          user_id = some user.user_id;
          estate_id = some estate_id;
          entity_id = some existing.id;
        }))
    pure (record {
      id = existing.id;
      email = existing.email;
      expires_at = env.now + invite_ttl_ms;
      token = token;
      email_status = delivered;
    })

-- `cancelInvite`
unfoldable pub cancel_invite : AuthenticatedUser → Option ℕ → ℕ → Option Text → Action Db (Unit {0})
cancel_invite user requested id reason = do
  estate_id ← resolve_estate_id user requested
  i ← find_in_estate id estate_id
  throw_if (is_used i.status)
      (conflict "This invite has already been used; the resident already has an account.")
  throw_if (is_revoked i.status) (conflict "This invite was already cancelled.")
  modify (write_invites (λ x. x.id == i.id) revoked)
  modify (send i.email none)
  modify (
      log (record {
        action = resident_invite_cancelled reason;
        user_id = some user.user_id;
        estate_id = some estate_id;
        entity_id = some i.id;
      }))

-- `listInvites`
unfoldable pub list_invites : AuthenticatedUser → Option ℕ → Action Db (List ResidentInvite)
list_invites user requested = do
  estate_id ← resolve_estate_id user requested
  gets (λ db. select (λ i. i.estate_id == estate_id) db.resident_invites)

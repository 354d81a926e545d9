-- ===== src/ResidentInvites/Public.antt =====
-- The public side of a resident's invite: `findLiveInviteByToken`, `previewByToken` and
-- `completeInvite` of backend/src/modules/resident-invites/resident-invites.service.ts. SHA-256 and
-- bcrypt are parameters.
use entryva.Base.{
  ℕ, true, ◌||◌, not, ltb, ◌==◌, Option, none, some, [], ◌∷◌, find, update_where, Text,
}
use entryva.Effects.{
  Action, pure, gets, modify, throw_if, or_throw, transaction, ◌>>=◌, ◌>>◌, not_found, gone,
  conflict,
}
use entryva.Store.{
  UserStatus, resident, Estate, Apartment, ResidentProfile, User, InviteStatus, ResidentInvite,
  resident_invite_completed, Db, Env, log,
}
use entryva.Signup.Activation.{create_user}
use entryva.ResidentInvites.{is_pending, is_used}

-- `CompleteResidentInviteDto`
pub record CompleteResidentInvite : Type 0 where
  pub display_name : Text
  pub phone : Option Text
  pub password : Text

pub record PublicResidentInvitePreview : Type 0 where
  pub apartment_label : Text
  pub building_name : Text
  pub estate_name : Text
  pub email : Text
  pub expires_at : ℕ

abbrev pub flat_of : Option Apartment → Text
flat_of none = []
flat_of (some a) = a.flat_number

abbrev pub building_of : Option Apartment → Text
building_of none = []
building_of (some a) = a.building_name

abbrev pub name_of : Option Estate → Text
name_of none = []
name_of (some e) = e.name

module _ (hash : Text → ℕ) where
  -- `findLiveInviteByToken`
  unfoldable pub find_live_invite : ℕ → Text → Action Db ResidentInvite
  find_live_invite now token = do
    row ← gets (λ db. find (λ i. i.token_hash == hash token) db.resident_invites)
    i ← or_throw row (not_found "This invite link is invalid.")
    throw_if (is_used i.status) (gone "This invite link has already been used.")
    throw_if (not (is_pending i.status) || ltb i.expires_at now)
        (gone "This invite link has expired. Ask your estate admin to resend it.")
    pure i

  -- `previewByToken`; the apartment and the estate of an invite are there, by its foreign keys.
  unfoldable pub preview_by_token : ℕ → Text → Action Db PublicResidentInvitePreview
  preview_by_token now token = do
    i ← find_live_invite now token
    gets (λ db. record {
      apartment_label = flat_of (find (λ a. a.id == i.apartment_id) db.apartments);
      building_name = building_of (find (λ a. a.id == i.apartment_id) db.apartments);
      estate_name = name_of (find (λ e. e.id == i.estate_id) db.estates);
      email = i.email;
      expires_at = i.expires_at;
    })

abbrev pub new_resident_user : ℕ → ResidentInvite → CompleteResidentInvite → Text → User
new_resident_user id i dto password_hash = record {
  id = id;
  role = resident;
  admin_estate_id = none;
  status = UserStatus.active;
  email = some i.email;
  phone = dto.phone;
  password_hash = some password_hash;
  display_name = none;
  refresh_token_hash = none;
  last_login_at = none;
}

abbrev pub new_profile : ℕ → ℕ → ResidentInvite → CompleteResidentInvite → ResidentProfile
new_profile id user_id i dto = record {
  id = id;
  user_id = user_id;
  estate_id = i.estate_id;
  apartment_id = i.apartment_id;
  display_name = dto.display_name;
  phone = dto.phone;
  active = true;
  user_status = UserStatus.active;
}

abbrev pub occupy : Apartment → Apartment
occupy a = record a { occupied = true }

-- The rows that `completeInvite` writes beside the account.
abbrev pub move_in : Env → ℕ → ResidentInvite → CompleteResidentInvite → Db → Db
move_in env user_id i dto db = record db {
  residents = new_profile env.new_id user_id i dto ∷ db.residents;
  apartments = update_where (λ a. a.id == i.apartment_id) occupy db.apartments;
  resident_invites =
      update_where (λ x. x.id == i.id)
        (λ x. record x { status = InviteStatus.used; used_at = some env.now }) db.resident_invites;
}

-- The transaction of `completeInvite`.
unfoldable pub create_resident :
    Env → ℕ → ResidentInvite → CompleteResidentInvite → Text → Action Db (Unit {0})
create_resident env user_id i dto password_hash = do
  create_user (new_resident_user user_id i dto password_hash)
  modify (move_in env user_id i dto)

module _ (hash : Text → ℕ) (hash_password : Text → Text) where
  -- `completeInvite`; the resident gets the new id of the request, the account the other.
  unfoldable pub complete_invite : Env → ℕ → Text → CompleteResidentInvite → Action Db ℕ
  complete_invite env user_id token dto = do
    i ← find_live_invite hash env.now token
    row ← gets (λ db. find (λ a. a.id == i.apartment_id) db.apartments)
    apartment ← or_throw row (not_found "Apartment no longer exists.")
    throw_if apartment.occupied (
        conflict
          "This apartment already has a resident. Contact your estate admin if this is unexpected.")
    transaction (create_resident env user_id i dto (hash_password dto.password))
    modify (
        log (record {
          action = resident_invite_completed i.apartment_id i.id;
          user_id = some user_id;
          estate_id = some i.estate_id;
          entity_id = some env.new_id;
        }))
    pure env.new_id

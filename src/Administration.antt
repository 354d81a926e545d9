-- ===== src/Administration.antt =====
-- Residents as an estate's admin keeps them:
-- backend/src/modules/administration/administration.service.ts. SHA-256, bcrypt and the tokens of a
-- session, which the check of the admin's password comes with, are parameters.
pub mod Occupancy
pub mod Kept
pub mod Requests
pub mod Revived
use entryva.Base.{
  ℕ, Bool, true, false, ◌&&◌, not, ltb, ◌==◌, if◌then◌else◌, Option, none, some, get_or, List, [],
  ◌∷◌, find, select, update_where, count_where, Text,
}
use entryva.Effects.{
  Action, pure, throw, gets, modify, throw_if, or_throw, transaction, ◌>>=◌, ◌>>◌, not_found,
  forbidden,
}
use entryva.Emergency.{AuthenticatedUser}
use entryva.Store.{
  super_admin, estate_admin, resident, security_officer, UserStatus, is_removed, Apartment,
  ResidentProfile, OfficerProfile, User, Invitation, ResidentChange, resident_created,
  resident_updated, resident_removed, resident_status, admin_changed_resident,
  admin_removal_password_check_failed, Db, Env, log,
}
use entryva.Accounts.{TokenPair, verify_password}
use entryva.Signup.Activation.{create_user}

-- `CreateResidentDto` and `UpdateResidentDto`
pub record CreateResident : Type 0 where
  pub display_name : Text
  pub email : Text
  pub phone : Option Text
  pub apartment_id : ℕ
  pub temporary_password : Text

pub record UpdateResident : Type 0 where
  pub display_name : Option Text
  pub phone : Option Text
  pub apartment_id : Option ℕ

-- `resolveEstateId`
unfoldable pub resolve_estate_id : AuthenticatedUser → Option ℕ → Action Db ℕ
resolve_estate_id user requested = elim user.role [
  | super_admin ↦ or_throw requested (forbidden "estateId is required for SUPER_ADMIN requests.")
  | estate_admin ↦ or_throw user.estate_id (forbidden "No estate scope available for this account.")
  | resident ↦ throw (forbidden "No estate scope available for this account.")
  | security_officer ↦ throw (forbidden "No estate scope available for this account.")
]

-- A resident of the apartment who was not removed.
abbrev pub lives : ℕ → ResidentProfile → Bool
lives apartment_id r = r.apartment_id == apartment_id && not (is_removed r.user_status)

abbrev pub set_occupied : Bool → Apartment → Apartment
set_occupied b a = record a { occupied = b }

-- `recomputeApartmentOccupancy`
abbrev pub recompute_occupancy : ℕ → Db → Db
recompute_occupancy apartment_id db = record db {
  apartments =
      update_where (λ a. a.id == apartment_id)
        (set_occupied (ltb 0 (count_where (lives apartment_id) db.residents))) db.apartments;
}

-- A write to residents, and to the rows that are joined to invitations.
abbrev pub write_residents :
    (ResidentProfile → Bool) → (ResidentProfile → ResidentProfile) → Db → Db
write_residents p f db = record db {
  residents = update_where p f db.residents;
  invitations =
      update_where (λ i. p i.resident) (λ i. record i { resident = f i.resident }) db.invitations;
}

abbrev pub with_status : UserStatus → ResidentProfile → ResidentProfile
with_status status r = record r { user_status = status }

-- A change of a user; the status is also that of the user's profiles.
abbrev pub write_user : ℕ → UserStatus → (User → User) → Db → Db
write_user user_id status f db =
    write_residents (λ r. r.user_id == user_id) (with_status status)
      (record db {
        users = update_where (λ u. u.id == user_id) f db.users;
        officers =
            update_where (λ o. o.user_id == user_id) (λ o. record o { user_status = status })
              db.officers;
      })

abbrev pub find_resident : ℕ → ℕ → Action Db ResidentProfile
find_resident id estate_id = do
  row ← gets (λ db. find (λ r. r.id == id && r.estate_id == estate_id) db.residents)
  or_throw row (not_found "Resident not found in this estate.")

abbrev pub log_resident : ℕ → ℕ → ℕ → ResidentChange → Db → Db
log_resident user_id estate_id resident_id change = log (record {
  action = admin_changed_resident change;
  user_id = some user_id;
  estate_id = some estate_id;
  entity_id = some resident_id;
})

abbrev pub new_resident : ℕ → ℕ → ℕ → CreateResident → ResidentProfile
new_resident id user_id estate_id dto = record {
  id = id;
  user_id = user_id;
  estate_id = estate_id;
  apartment_id = dto.apartment_id;
  display_name = dto.display_name;
  phone = dto.phone;
  active = true;
  user_status = UserStatus.active;
}

abbrev pub new_account : ℕ → CreateResident → Text → User
new_account id dto password_hash = record {
  id = id;
  role = resident;
  admin_estate_id = none;
  status = UserStatus.active;
  email = some dto.email;
  phone = dto.phone;
  password_hash = some password_hash;
  display_name = none;
  refresh_token_hash = none;
  last_login_at = none;
}

-- The transaction of `createResident`.
unfoldable pub insert_resident : ℕ → ℕ → ℕ → CreateResident → Text → Action Db (Unit {0})
insert_resident id user_id estate_id dto password_hash = do
  create_user (new_account user_id dto password_hash)
  modify (λ db. record db {
    residents = new_resident id user_id estate_id dto ∷ db.residents;
    apartments = update_where (λ a. a.id == dto.apartment_id) (set_occupied true) db.apartments;
  })

-- `createResident`; the resident gets the new id of the request, the account the other.
unfoldable pub create_resident :
    (Text → Text)
    → Env
    → ℕ
    → AuthenticatedUser
    → Option ℕ
    → CreateResident
    → Action Db ResidentProfile
create_resident hash_password env user_id user requested dto = do
  estate_id ← resolve_estate_id user requested
  row ← gets (λ db. find (λ a. a.id == dto.apartment_id && a.estate_id == estate_id) db.apartments)
  apartment ← or_throw row (not_found "Apartment not found in this estate.")
  transaction
      (insert_resident env.new_id user_id estate_id dto (hash_password dto.temporary_password))
  modify (
      log_resident user.user_id estate_id env.new_id
        (resident_created dto.display_name apartment.flat_number))
  pure (new_resident env.new_id user_id estate_id dto)

-- `listResidents`
unfoldable pub list_residents : AuthenticatedUser → Option ℕ → Action Db (List ResidentProfile)
list_residents user requested = do
  estate_id ← resolve_estate_id user requested
  gets (λ db. select (λ r. r.estate_id == estate_id && not (is_removed r.user_status)) db.residents)

-- The apartment that a resident moves to, or stays in.
abbrev pub target_apartment : ℕ → ResidentProfile → Option ℕ → Action Db ℕ
target_apartment estate_id r none db = pure r.apartment_id db
target_apartment estate_id r (some id) db =
    if id == r.apartment_id
    then pure r.apartment_id db
    else (do
      row ← gets (λ db. find (λ a. a.id == id && a.estate_id == estate_id) db.apartments)
      apartment ← or_throw row (not_found "Apartment not found in this estate.")
      pure id)
        db

-- A field that was not sent stays.
abbrev pub or_kept : Option Text → Option Text → Option Text
or_kept none old = old
or_kept (some t) old = some t

abbrev pub with_changes : UpdateResident → ℕ → ResidentProfile → ResidentProfile
with_changes dto apartment_id r = record r {
  display_name = get_or dto.display_name r.display_name;
  phone = or_kept dto.phone r.phone;
  apartment_id = apartment_id;
}

-- The transaction of `updateResident`.
abbrev pub change_resident : ResidentProfile → ℕ → UpdateResident → Db → Db
change_resident r apartment_id dto db =
    let written = write_residents (λ x. x.id == r.id) (with_changes dto apartment_id) db in
    if apartment_id == r.apartment_id
    then written
    else recompute_occupancy apartment_id (recompute_occupancy r.apartment_id written)

-- `updateResident`
unfoldable pub update_resident :
    AuthenticatedUser → Option ℕ → ℕ → UpdateResident → Action Db ResidentProfile
update_resident user requested id dto = do
  estate_id ← resolve_estate_id user requested
  r ← find_resident id estate_id
  apartment_id ← target_apartment estate_id r dto.apartment_id
  modify (change_resident r apartment_id dto)
  modify (
      log_resident user.user_id estate_id r.id (
        resident_updated (get_or dto.display_name r.display_name)
          (if apartment_id == r.apartment_id then none else some (r.apartment_id, apartment_id))))
  pure (with_changes dto apartment_id r)

-- `updateResidentStatus`
unfoldable pub update_resident_status :
    AuthenticatedUser → Option ℕ → ℕ → UserStatus → Action Db (Unit {0})
update_resident_status user requested id status = do
  estate_id ← resolve_estate_id user requested
  r ← find_resident id estate_id
  modify (write_user r.user_id status (λ u. record u { status = status }))
  modify (log_resident user.user_id estate_id r.id (resident_status status r.display_name))

module _ (hash : Text → ℕ) (compare_password : Text → Text → Bool)
    (issue_tokens : ℕ → ℕ → TokenPair) where
  -- `assertActingAdminPassword`
  abbrev pub assert_acting_admin_password : AuthenticatedUser → ℕ → Text → ℕ → Action Db (Unit {0})
  assert_acting_admin_password user estate_id password entity_id = do
    verified ← gets (verify_password hash compare_password issue_tokens user.user_id password)
    modify (λ db.
        if verified
        then db
        else log
            (record {
              action = admin_removal_password_check_failed;
              user_id = some user.user_id;
              estate_id = some estate_id;
              entity_id = some entity_id;
            })
            db)
    throw_if (not verified)
        (forbidden "Incorrect password. Re-enter your password to confirm this removal.")

  -- `removeResident`
  unfoldable pub remove_resident : AuthenticatedUser → Option ℕ → ℕ → Text → Action Db (Unit {0})
  remove_resident user requested id current_password = do
    estate_id ← resolve_estate_id user requested
    r ← find_resident id estate_id
    assert_acting_admin_password user estate_id current_password r.id
    modify (
        write_user r.user_id UserStatus.removed
          (λ u. record u { status = UserStatus.removed; refresh_token_hash = none }))
    modify (recompute_occupancy r.apartment_id)
    modify (log_resident user.user_id estate_id r.id (resident_removed r.display_name))

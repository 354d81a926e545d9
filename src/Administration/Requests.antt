-- ===== src/Administration/Requests.antt =====
-- The requests that change who lives where, in sequence:
-- backend/src/modules/administration/administration.service.ts and `completeInvite` of
-- backend/src/modules/resident-invites/resident-invites.service.ts.
use entryva.Base.{
  ℕ, ◌≡◌, refl, Bool, true, false, arith, ◌==◌, ◌&&◌, inl, inr, Option, List, [], ◌∷◌, All,
  All-find, find_sound, update_where, Text,
}
use entryva.Effects.{Result-cases}
use entryva.Emergency.{AuthenticatedUser}
use entryva.Accounts.{TokenPair}
use entryva.Store.{UserStatus, is_removed, Db, Env}
use entryva.Administration.{
  CreateResident, UpdateResident, with_status, create_resident, update_resident,
  update_resident_status, remove_resident,
}
use entryva.Administration.Occupancy.{AllMarked-add, AllMarked-same, AllMarked-recompute_one}
use entryva.Administration.Kept.{
  Marked, UniqueResidents, create_resident-Marked, change_resident-Marked, update_resident-rows,
  remove_resident-rows, update_resident_status-rows, find-only, user-only, update-same,
}
use entryva.ResidentInvites.Public.{CompleteResidentInvite, complete_invite, new_profile}
use entryva.ResidentInvites.MovedIn.{complete_invite-MovedIn, complete_invite_atomic}

-- What the server is started with.
pub record AdminPlatform : Type 0 where
  pub hash : Text → ℕ
  pub hash_password : Text → Text
  pub compare_password : Text → Text → Bool
  pub issue_tokens : ℕ → ℕ → TokenPair

pub data AdminRequest : Type 0 where
  create : Env → ℕ → AuthenticatedUser → Option ℕ → CreateResident → AdminRequest
  update : AuthenticatedUser → Option ℕ → ℕ → UpdateResident → AdminRequest
  set_status : AuthenticatedUser → Option ℕ → ℕ → UserStatus → AdminRequest
  remove : AuthenticatedUser → Option ℕ → ℕ → Text → AdminRequest
  complete : Env → ℕ → Text → CompleteResidentInvite → AdminRequest

-- A status is set to one that the form allows, of a resident who was not removed.
abbrev pub IsAdmissible : AdminRequest → Db → Type 0
IsAdmissible (set_status user requested id status) db =
    (is_removed status ≡ false)
    × All (λ r. (r.id == id) ≡ true → is_removed r.user_status ≡ false) db.residents
IsAdmissible _ db = Unit {0}

module _ (o : AdminPlatform) where
  -- The database after a request.
  unfoldable pub serve_admin : AdminRequest → Db → Db
  serve_admin (create env user_id user requested dto) db =
      (create_resident o.hash_password env user_id user requested dto db).1
  serve_admin (update user requested id dto) db = (update_resident user requested id dto db).1
  serve_admin (set_status user requested id status) db =
      (update_resident_status user requested id status db).1
  serve_admin (remove user requested id password) db =
      (remove_resident o.hash o.compare_password o.issue_tokens user requested id password db).1
  serve_admin (complete env user_id token dto) db =
      (complete_invite o.hash o.hash_password env user_id token dto db).1

  -- The database after a sequence of requests.
  unfoldable pub serve_admins : List AdminRequest → Db → Db
  unfolding serve_admin
  serve_admins [] db = db
  serve_admins (r ∷ rs) db = serve_admins rs (serve_admin r db)

  -- Whenever a request is served its condition holds, and the database keeps the unique columns unique.
  abbrev pub AllAdmissible : List AdminRequest → Db → Type 0
  AllAdmissible [] db = Unit {0}
  AllAdmissible (r ∷ rs) db =
      UniqueResidents db × IsAdmissible r db × AllAdmissible rs (serve_admin r db)

  serve_admin-Marked :
      (r : AdminRequest) (db : Db)
      → UniqueResidents db
      → IsAdmissible r db
      → Marked db
      → Marked (serve_admin r db)
  unfolding serve_admin
  serve_admin-Marked (create env user_id user requested dto) db u a m =
      create_resident-Marked o.hash_password env user_id user requested dto db m
  serve_admin-Marked (update user requested id dto) db u a m =
      elim (update_resident-rows user requested id dto db) [
        | inl (rs, apartments) ↦ rw (rs, apartments) m
        | inr (r, t, estate_id, f, rs, apartments) ↦
            rw (rs, apartments)
              (change_resident-Marked r t dto db (find-only id estate_id db r u f).1 m)
      ]
  serve_admin-Marked (set_status user requested id status) db u a m =
      elim (update_resident_status-rows user requested id status db) [
        | inl (rs, apartments) ↦ rw (rs, apartments) m
        | inr (r, estate_id, f, rs, apartments) ↦
            let there =
              All-find (λ x. (x.id == id) ≡ true → is_removed x.user_status ≡ false)
                (λ x. x.id == id && x.estate_id == estate_id) db.residents r a.1 f in
            let mine = find_sound (λ x. x.id == id && x.estate_id == estate_id) db.residents r f in
            let here : is_removed r.user_status ≡ false = there (ground arith) in
            rw (rs, apartments)
              (AllMarked-same db.residents
                (update_where (λ x. x.user_id == r.user_id) (with_status status) db.residents)
                db.apartments
                (λ y.
                  update-same (λ x. x.user_id == r.user_id) (with_status status) r db.residents y
                    (ground (arith, here, a.0)) (user-only id estate_id db r u f))
                m)
      ]
  serve_admin-Marked (remove user requested id password) db u a m =
      elim (remove_resident-rows o.hash o.compare_password o.issue_tokens user requested id password
        db) [
          | inl (rs, apartments) ↦ rw (rs, apartments) m
          | inr (r, estate_id, f, rs, apartments) ↦
              rw (rs, apartments)
                (AllMarked-recompute_one db.residents
                  (update_where (λ x. x.user_id == r.user_id) (with_status UserStatus.removed)
                    db.residents)
                  r.apartment_id db.apartments
                  (λ z away.
                    update-same (λ x. x.user_id == r.user_id) (with_status UserStatus.removed) r
                      db.residents z (ground arith) (user-only id estate_id db r u f))
                  m)
        ]
  serve_admin-Marked (complete env user_id token dto) db u a m =
      elim (Result-cases (complete_invite o.hash o.hash_password env user_id token dto db)) [
        | inr (x, s, e) ↦
            rw (complete_invite_atomic o.hash o.hash_password env user_id token dto db x (rw e)) m
        | inl (r, s, e) ↦
            let n =
              complete_invite-MovedIn o.hash o.hash_password env user_id token dto db r (rw e) in
            rw (n.homes, n.residents)
              (AllMarked-add (new_profile env.new_id user_id n.invite dto) db.residents
                db.apartments refl m)
      ]

  -- Where every apartment is marked as occupied exactly when a resident who was not removed lives in it,
  -- that is so after any sequence of requests: residents created, changed, moved to another apartment,
  -- suspended, made active again and removed, and invites completed, whether they succeed or not. It
  -- is assumed that the database keeps the identifiers and the users of residents unique, and that
  -- the status is set only of residents who were not removed, to one that is not removed.
  pub serve_admins-Marked :
      (rs : List AdminRequest) (db : Db)
      → AllAdmissible rs db
      → Marked db
      → Marked (serve_admins rs db)
  unfolding serve_admins
  serve_admins-Marked [] db a m = m
  serve_admins-Marked (r ∷ rs) db a m =
      let (unique, now, later) = a in
      serve_admins-Marked rs (serve_admin r db) later (serve_admin-Marked r db unique now m)

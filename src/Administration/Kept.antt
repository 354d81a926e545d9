-- ===== src/Administration/Kept.antt =====
-- The occupied apartments after each operation: backend/src/modules/administration/
-- administration.service.ts, and `completeInvite` of
-- backend/src/modules/resident-invites/resident-invites.service.ts.
use entryva.Base.{
  ℕ, ◌≡◌, refl, sym, subst, Bool, true, false, arith, ltb, ◌==◌, ==_refl, ◌&&◌, Bool-cases,
  Option-cases, ◌⊎◌, find_sound, mem_of_find, inl, inr, Option, some, List, ◌∷◌, All, All-mono,
  AtMostOne, unique_row, only_row, find, update_where, Text,
}
use entryva.Effects.{Result-cases}
use entryva.Emergency.{AuthenticatedUser}
use entryva.Accounts.{TokenPair, verify_password}
use entryva.Store.{UserStatus, is_removed, ResidentProfile, Db, Env}
use entryva.Administration.{
  CreateResident, UpdateResident, lives, set_occupied, change_resident, with_changes, with_status,
  new_resident, resolve_estate_id, create_resident, update_resident, update_resident_status,
  remove_resident, insert_resident, target_apartment,
}
use entryva.Administration.Occupancy.{
  residents_in, AllMarked, AllMarked-add, AllMarked-same, AllMarked-recompute, residents_in-update,
}

abbrev pub Marked : Db → Type 0
Marked db = AllMarked db.residents db.apartments

-- The unique columns of residents.
abbrev pub UniqueResidents : Db → Type 0
UniqueResidents db =
    ((k : ℕ) → AtMostOne (λ r. r.id == k) db.residents)
    × ((k : ℕ) → AtMostOne (λ r. r.user_id == k) db.residents)

resolve-same :
    (user : AuthenticatedUser) (requested : Option ℕ) (db : Db)
    → (resolve_estate_id user requested db).1 ≡ db
unfolding resolve_estate_id
resolve-same user requested db = ground arith

-- The residents and the apartments after `createResident`.
create_resident-rows :
    (hash_password : Text → Text) (env : Env) (user_id : ℕ) (user : AuthenticatedUser)
    (requested : Option ℕ) (dto : CreateResident) (db : Db)
    → let after = (create_resident hash_password env user_id user requested dto db).1 in
      ((after.residents ≡ db.residents) × (after.apartments ≡ db.apartments))
      ⊎ ((r : ResidentProfile) × (is_removed r.user_status ≡ false)
          × (after.residents ≡ r ∷ db.residents)
          × (after.apartments
              ≡ update_where (λ a. a.id == r.apartment_id) (set_occupied true) db.apartments))
unfolding create_resident insert_resident
create_resident-rows hash_password env user_id user requested dto db =
    let same = resolve-same user requested db in
    elim (Result-cases (resolve_estate_id user requested db)) [
      | inr (x, s, e) ↦ inl (ground arith, ground arith)
      | inl (estate_id, s, e) ↦
          elim (Result-cases (create_resident hash_password env user_id user requested dto db)) [
            | inr (x, s', f) ↦ inl (ground arith, ground arith)
            | inl (r, s', f) ↦
                inr
                  (new_resident env.new_id user_id estate_id dto, refl, ground arith, ground arith)
          ]
    ]

pub create_resident-Marked :
    (hash_password : Text → Text) (env : Env) (user_id : ℕ) (user : AuthenticatedUser)
    (requested : Option ℕ) (dto : CreateResident) (db : Db)
    → Marked db
    → Marked (create_resident hash_password env user_id user requested dto db).1
create_resident-Marked hash_password env user_id user requested dto db m =
    elim (create_resident-rows hash_password env user_id user requested dto db) [
      | inl (rs, apartments) ↦ rw (rs, apartments) m
      | inr (r, here, rs, apartments) ↦
          rw (rs, apartments) (AllMarked-add r db.residents db.apartments here m)
    ]

-- The resident that a request is about, the only row with its id.
pub find-only :
    (id estate_id : ℕ) (db : Db) (r : ResidentProfile)
    → UniqueResidents db
    → find (λ x. x.id == id && x.estate_id == estate_id) db.residents ≡ some r
    → (r.id ≡ id) × All (λ x. (x.id == r.id) ≡ true → x ≡ r) db.residents
find-only id estate_id db r u f =
    let mine : r.id ≡ id =
      ground (arith, find_sound (λ x. x.id == id && x.estate_id == estate_id) db.residents r f) in
    (
      mine,
      subst (λ k. All (λ x. (x.id == k) ≡ true → x ≡ r) db.residents) (sym mine)
          (unique_row (λ x. x.id == id) (λ x. x.estate_id == estate_id) db.residents r (u.0 id) f),
    )

-- A write to a resident that leaves where the resident lives.
pub update-same :
    (p : ResidentProfile → Bool) (f : ResidentProfile → ResidentProfile) (r : ResidentProfile)
    (rs : List ResidentProfile) (y : ℕ)
    → lives y (f r) ≡ lives y r
    → All (λ x. p x ≡ true → x ≡ r) rs
    → residents_in y (update_where p f rs) ≡ residents_in y rs
update-same p f r rs y same only = residents_in-update y p f rs (
    All-mono (λ x. p x ≡ true → x ≡ r) (λ x. p x ≡ true → lives y (f x) ≡ lives y x) rs
      (λ x e h. subst (λ z. lives y (f z) ≡ lives y z) (sym (e h)) same) only)

pub change_resident-Marked :
    (r : ResidentProfile) (t : ℕ) (dto : UpdateResident) (db : Db)
    → All (λ x. (x.id == r.id) ≡ true → x ≡ r) db.residents
    → Marked db
    → Marked (change_resident r t dto db)
change_resident-Marked r t dto db only m =
    let rs' = update_where (λ x. x.id == r.id) (with_changes dto t) db.residents in
    elim (Bool-cases (t == r.apartment_id)) [
      | inl e ↦ rw e (
          AllMarked-same db.residents rs' db.apartments
            (λ y.
              update-same (λ x. x.id == r.id) (with_changes dto t) r db.residents y (ground arith)
                only)
            m)
      | inr e ↦ rw e (
          AllMarked-recompute db.residents rs' r.apartment_id t
            (λ z away other.
              update-same (λ x. x.id == r.id) (with_changes dto t) r db.residents z (ground arith)
                only)
            db.apartments m)
    ]

target-same :
    (estate_id : ℕ) (r : ResidentProfile) (to : Option ℕ) (db : Db)
    → (target_apartment estate_id r to db).1 ≡ db
target-same estate_id r to db = ground arith

-- What `updateResident` writes, if it writes.
pub update_resident-rows :
    (user : AuthenticatedUser) (requested : Option ℕ) (id : ℕ) (dto : UpdateResident) (db : Db)
    → let after = (update_resident user requested id dto db).1 in
      ((after.residents ≡ db.residents) × (after.apartments ≡ db.apartments))
      ⊎ ((r : ResidentProfile) × (t : ℕ) × (estate_id : ℕ) × (find
              (λ x. x.id == id && x.estate_id == estate_id)
              db.residents
            ≡ some r)
          × (after.residents ≡ (change_resident r t dto db).residents)
          × (after.apartments ≡ (change_resident r t dto db).apartments))
unfolding update_resident
update_resident-rows user requested id dto db =
    let same = resolve-same user requested db in
    elim (Result-cases (resolve_estate_id user requested db)) [
      | inr (x, s, e) ↦ inl (ground arith, ground arith)
      | inl (estate_id, s, e) ↦
          elim (Option-cases (find (λ x. x.id == id && x.estate_id == estate_id) db.residents)) [
            | inl f ↦ inl (ground arith, ground arith)
            | inr (r, f) ↦
                let still = target-same estate_id r dto.apartment_id db in
                elim (Result-cases (target_apartment estate_id r dto.apartment_id db)) [
                  | inr (x, s', g) ↦ inl (ground arith, ground arith)
                  | inl (t, s', g) ↦ inr (r, t, estate_id, f, ground arith, ground arith)
                ]
          ]
    ]

pub remove_resident-rows :
    (hash : Text → ℕ) (compare_password : Text → Text → Bool) (issue_tokens : ℕ → ℕ → TokenPair)
    (user : AuthenticatedUser) (requested : Option ℕ) (id : ℕ) (password : Text) (db : Db)
    → let after =
        (remove_resident hash compare_password issue_tokens user requested id password db).1 in
      ((after.residents ≡ db.residents) × (after.apartments ≡ db.apartments))
      ⊎ ((r : ResidentProfile) × (estate_id : ℕ) × (find
              (λ x. x.id == id && x.estate_id == estate_id)
              db.residents
            ≡ some r)
          × (after.residents
              ≡ update_where
                  (λ x. x.user_id == r.user_id)
                  (with_status UserStatus.removed)
                  db.residents)
          × (after.apartments
              ≡ update_where
                  (λ a. a.id == r.apartment_id)
                  (set_occupied (
                    ltb 0 (
                      residents_in r.apartment_id (
                        update_where
                          (λ x. x.user_id == r.user_id)
                          (with_status UserStatus.removed)
                          db.residents))))
                  db.apartments))
unfolding remove_resident
remove_resident-rows hash compare_password issue_tokens user requested id password db =
    let same = resolve-same user requested db in
    elim (Result-cases (resolve_estate_id user requested db)) [
      | inr (x, s, e) ↦ inl (ground arith, ground arith)
      | inl (estate_id, s, e) ↦
          elim (Option-cases (find (λ x. x.id == id && x.estate_id == estate_id) db.residents)) [
            | inl f ↦ inl (ground arith, ground arith)
            | inr (r, f) ↦
                elim (Bool-cases
                  (verify_password hash compare_password issue_tokens user.user_id password db)) [
                    | inl v ↦ inr (r, estate_id, f, ground arith, ground arith)
                    | inr v ↦ inl (ground arith, ground arith)
                  ]
          ]
    ]

pub update_resident_status-rows :
    (user : AuthenticatedUser) (requested : Option ℕ) (id : ℕ) (status : UserStatus) (db : Db)
    → let after = (update_resident_status user requested id status db).1 in
      ((after.residents ≡ db.residents) × (after.apartments ≡ db.apartments))
      ⊎ ((r : ResidentProfile) × (estate_id : ℕ) × (find
              (λ x. x.id == id && x.estate_id == estate_id)
              db.residents
            ≡ some r)
          × (after.residents
              ≡ update_where (λ x. x.user_id == r.user_id) (with_status status) db.residents)
          × (after.apartments ≡ db.apartments))
unfolding update_resident_status
update_resident_status-rows user requested id status db =
    let same = resolve-same user requested db in
    elim (Result-cases (resolve_estate_id user requested db)) [
      | inr (x, s, e) ↦ inl (ground arith, ground arith)
      | inl (estate_id, s, e) ↦
          elim (Option-cases (find (λ x. x.id == id && x.estate_id == estate_id) db.residents)) [
            | inl f ↦ inl (ground arith, ground arith)
            | inr (r, f) ↦ inr (r, estate_id, f, ground arith, ground arith)
          ]
    ]

-- The only row with the user of a resident that was found.
pub user-only :
    (id estate_id : ℕ) (db : Db) (r : ResidentProfile)
    → UniqueResidents db
    → find (λ x. x.id == id && x.estate_id == estate_id) db.residents ≡ some r
    → All (λ x. (x.user_id == r.user_id) ≡ true → x ≡ r) db.residents
user-only id estate_id db r u f =
    only_row (λ x. x.user_id == r.user_id) db.residents r (u.1 r.user_id)
      (mem_of_find (λ x. x.id == id && x.estate_id == estate_id) db.residents r f)
      (==_refl r.user_id)

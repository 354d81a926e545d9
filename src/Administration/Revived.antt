-- ===== src/Administration/Revived.antt =====
-- A removed resident whose status is set: `updateResidentStatus` of
-- backend/src/modules/administration/administration.service.ts.
use mathlib.Core.List.{Memᴰ}
use entryva.Base.{
  ap, sym, ◌∙◌, count_of_mem, mem-update_where, ℕ, ◌≡◌, subst, false, arith, ◌==◌, ◌&&◌, ltb,
  Option, some, List, All-find, find, find_sound, mem_of_find, update_where, ==_refl,
}
use entryva.Effects.{ok}
use entryva.Emergency.{AuthenticatedUser}
use entryva.Store.{UserStatus, Apartment, ResidentProfile, Db}
use entryva.Administration.{lives, with_status, resolve_estate_id, update_resident_status}
use entryva.Administration.Occupancy.{residents_in, IsMarked}
use entryva.Administration.Kept.{Marked}

-- Nothing keeps an admin from making a removed resident active again, and the apartment is not counted
-- again then: where every apartment is marked as its residents say and the one of the removed
-- resident is vacant, it is still vacant after the update and the resident, ACTIVE, lives in it, and
-- no longer is every apartment marked as its residents say.
pub update_resident_status-unmarked :
    (user : AuthenticatedUser) (requested : Option ℕ) (id estate_id : ℕ) (db : Db)
    (r : ResidentProfile) (a : Apartment)
    → Marked db
    → (resolve_estate_id user requested db) ≡ (ok estate_id, db)
    → find (λ x. x.id == id && x.estate_id == estate_id) db.residents ≡ some r
    → r.user_status ≡ UserStatus.removed
    → find (λ x. x.id == r.apartment_id) db.apartments ≡ some a
    → a.occupied ≡ false
    → let (answer, after) = update_resident_status user requested id UserStatus.active db in
      (answer ≡ ok tt)
      × (find (λ x. x.id == r.apartment_id) after.apartments ≡ some a)
      × Memᴰ (record r { user_status = UserStatus.active }) after.residents
      × (¬ Marked after)
unfolding update_resident_status
update_resident_status-unmarked user requested id estate_id db r a before scope f gone g vacant =
    let rs' =
      update_where (λ x. x.user_id == r.user_id) (with_status UserStatus.active) db.residents in
    let after = (update_resident_status user requested id UserStatus.active db).1 in
    let rows : after.residents ≡ rs' = ground arith in
    let flats : after.apartments ≡ db.apartments = ground arith in
    let there : Memᴰ (record r { user_status = UserStatus.active }) rs' =
      mem-update_where (λ (x : ResidentProfile). x.user_id == r.user_id)
        (with_status UserStatus.active) db.residents r
        (mem_of_find (λ x. x.id == id && x.estate_id == estate_id) db.residents r f)
        (==_refl r.user_id) in
    let home = find_sound (λ (x : Apartment). x.id == r.apartment_id) db.apartments a g in
    let full =
      count_of_mem (lives r.apartment_id) rs' (with_status UserStatus.active r) there
        (ground (arith, ==_refl r.apartment_id)) in
    (
      ground arith,
      ap (find (λ (x : Apartment). x.id == r.apartment_id)) flats ∙ g,
      subst (λ (rs : List ResidentProfile). Memᴰ (record r { user_status = UserStatus.active }) rs)
          (sym rows) there,
      λ m.
          let mark : IsMarked rs' a =
            All-find (IsMarked rs') (λ x. x.id == r.apartment_id) db.apartments a
              (rw (rows, flats) at m) g in
          let same : a.id ≡ r.apartment_id = ground arith in
          let marked : a.occupied ≡ ltb 0 (residents_in r.apartment_id rs') =
            subst (λ k. a.occupied ≡ ltb 0 (residents_in k rs')) same mark in
          absurd (ground (arith, marked, full, vacant)),
    )

-- ===== src/LiveTracking/Shown.antt =====
-- When a visitor's position is shown, and when it is deleted:
-- backend/src/modules/live-location/live-location.ts.
use entryva.Base.{
  ℕ, ◌+◌, ◌-◌, ◌/◌, ◌<◌, ◌≡◌, refl, ◌∙◌, true, arith, ◌==◌, ◌&&◌, not, Bool-cases, inl, inr, none,
  some, is_some, find, find-update_where, update_where, Text, ==_refl,
}
use entryva.Effects.{ok}
use entryva.Store.{LiveLocation, Invitation, Db, Env}
use entryva.LiveTracking.{
  is_live, LivePosition, LiveLocationResponse, saved, cleared, with_live, stored_position,
  save_live_position, stop_live_sharing, of_resident, response, get_live_for_resident,
}

-- The row that a resident's request is about, after a write to it.
module _ (db : Db) (i : Invitation) (f : LiveLocation → LiveLocation)
    (row : find (of_resident i.id i.resident.id) db.invitations ≡ some i) where
  written :
      find
        (of_resident i.id i.resident.id)
        (update_where (λ y. y.id == i.id) (with_live f) db.invitations)
      ≡ some (with_live f i)
  written =
      find-update_where (λ y. y.id == i.id) (with_live f) (of_resident i.id i.resident.id)
        db.invitations i (λ y. refl) row
      ∙ rw (==_refl i.id) refl

get-found :
    (env : Env) (id resident_id : ℕ) (db : Db) (q : Invitation)
    → find (of_resident id resident_id) db.invitations ≡ some q
    → (get_live_for_resident env id resident_id db).0 ≡ ok (response env.now q db)
unfolding get_live_for_resident
get-found env id resident_id db q e =
    elim (Bool-cases (not (is_live env.now q) && is_some (stored_position env.now q.live))) [
      | inl y ↦ ground arith
      | inr n ↦ ground arith
    ]

-- The position that a visitor's phone saved while the invitation was live is what its resident is
-- shown, with its age rounded to seconds, before the invitation ends, on any database where the
-- resident's row of that id is the one that the save left, whatever else was written.
pub save-get :
    (hash : Text → ℕ) (env later : Env) (token : Text) (input : LivePosition) (db s : Db)
    (i : Invitation)
    → find (λ y. y.secure_token_hash == hash token) db.invitations ≡ some i
    → find (of_resident i.id i.resident.id) db.invitations ≡ some i
    → (save_live_position hash env token input db).0 ≡ ok tt
    → later.now < i.valid_until
    → find (of_resident i.id i.resident.id) s.invitations
      ≡ find
          (of_resident i.id i.resident.id)
          (save_live_position hash env token input db).1.invitations
    → (r : LiveLocationResponse) × ((get_live_for_resident later i.id i.resident.id s).0 ≡ ok r)
      × (r.sharing ≡ true)
      × (r.position
          ≡ some (record {
            lat = input.lat;
            lng = input.lng;
            heading = input.heading;
            accuracy_m = input.accuracy_m;
            updated_at = env.now;
            age_seconds = (later.now - env.now + 500) / 1000;
          }))
unfolding save_live_position stored_position
save-get hash env later token input db s i f row h live kept =
    let q = with_live (λ l. saved env.now input) i in
    let found = written db i (λ l. saved env.now input) row in
    let was : is_live env.now i ≡ true = ground arith in
    let still : is_live later.now i ≡ true = ground arith in
    let after = (save_live_position hash env token input db).1 in
    let there : find (of_resident i.id i.resident.id) after.invitations ≡ some q = ground arith in
    (
      response later.now q s,
      get-found later i.id i.resident.id s q (kept ∙ there),
      ground arith,
      ground arith,
    )

-- After the visitor stops sharing, no position is stored with the invitation, and its resident is shown
-- none.
stop-get :
    (hash : Text → ℕ) (later : Env) (token : Text) (db : Db) (i : Invitation)
    → find (λ y. y.secure_token_hash == hash token) db.invitations ≡ some i
    → find (of_resident i.id i.resident.id) db.invitations ≡ some i
    → let after = (stop_live_sharing hash token db).1 in
      (find (of_resident i.id i.resident.id) after.invitations ≡ some (with_live cleared i))
      × ((r : LiveLocationResponse) × ((get_live_for_resident later i.id i.resident.id after).0
            ≡ ok r)
          × (r.position ≡ none))
unfolding stop_live_sharing stored_position
stop-get hash later token db i f row =
    let found = written db i cleared row in
    let after = (stop_live_sharing hash token db).1 in
    let q = with_live cleared i in
    let there : find (of_resident i.id i.resident.id) after.invitations ≡ some q = ground arith in
    (
      there,
      (response later.now q after, get-found later i.id i.resident.id after q there, ground arith),
    )

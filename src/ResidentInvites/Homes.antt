-- ===== src/ResidentInvites/Homes.antt =====
-- A home is given to one resident: `completeInvite` of
-- backend/src/modules/resident-invites/resident-invites.service.ts.
use entryva.Base.{
  ℕ, ◌≡◌, ◌≢◌, refl, sym, ◌∙◌, ap, true, arith, ◌==◌, Bool-cases, inl, inr, Option, some, List, [],
  ◌∷◌, All, All-update_where, All-map_where, All-trivial, All-find, find_sound, find, Text,
  eq_of_some,
}
use entryva.Effects.{ok, Result-cases}
use entryva.Emergency.{AuthenticatedUser}
use entryva.Store.{Apartment, ResidentInvite, EmailStatus, Db, Env}
use entryva.ResidentInvites.{
  CreateResidentInvite, resolve_estate_id, create_invite, resend_invite, cancel_invite,
}
use entryva.ResidentInvites.Public.{CompleteResidentInvite, complete_invite, occupy}
use entryva.ResidentInvites.MovedIn.{
  InviteRequest, create, resend, cancel, complete, serve_invite, serve_invites,
  complete_invite-MovedIn, complete_invite_atomic,
}

-- The apartment is occupied.
abbrev IsTaken : ℕ → Apartment → Type 0
IsTaken x a = a.id ≡ x → a.occupied ≡ true

abbrev Taken : ℕ → Db → Type 0
Taken x db = All (IsTaken x) db.apartments

module _ (hash : Text → ℕ) (hash_password : Text → Text) (x : ℕ) where
  create_invite-apartments :
      (env : Env) (user : AuthenticatedUser) (requested : Option ℕ) (dto : CreateResidentInvite)
      (token : Text) (delivered : EmailStatus) (db : Db)
      → (create_invite hash env user requested dto token delivered db).1.apartments ≡ db.apartments
  unfolding create_invite resolve_estate_id
  create_invite-apartments env user requested dto token delivered db = ground arith

  resend_invite-apartments :
      (env : Env) (user : AuthenticatedUser) (requested : Option ℕ) (id : ℕ) (token : Text)
      (delivered : EmailStatus) (db : Db)
      → (resend_invite hash env user requested id token delivered db).1.apartments ≡ db.apartments
  unfolding resend_invite resolve_estate_id
  resend_invite-apartments env user requested id token delivered db = ground arith

  cancel_invite-apartments :
      (user : AuthenticatedUser) (requested : Option ℕ) (id : ℕ) (reason : Option Text) (db : Db)
      → (cancel_invite user requested id reason db).1.apartments ≡ db.apartments
  unfolding cancel_invite resolve_estate_id
  cancel_invite-apartments user requested id reason db = ground arith

  complete_invite-Taken :
      (env : Env) (user_id : ℕ) (token : Text) (dto : CompleteResidentInvite) (db : Db)
      → Taken x db
      → Taken x (complete_invite hash hash_password env user_id token dto db).1
  complete_invite-Taken env user_id token dto db t =
      elim (Result-cases (complete_invite hash hash_password env user_id token dto db)) [
        | inr (y, s, e) ↦
            rw (complete_invite_atomic hash hash_password env user_id token dto db y (rw e)) t
        | inl (r, s, e) ↦
            let m = complete_invite-MovedIn hash hash_password env user_id token dto db r (rw e) in
            rw (m.homes) (
              All-update_where (IsTaken x) (λ a. a.id == m.invite.apartment_id) occupy db.apartments
                (λ a i w same. refl) t)
      ]

  serve_invite-Taken :
      (r : InviteRequest) (db : Db) → Taken x db → Taken x (serve_invite hash hash_password r db)
  unfolding serve_invite
  serve_invite-Taken (create env user requested dto token delivered) db t =
      rw (create_invite-apartments env user requested dto token delivered db) t
  serve_invite-Taken (resend env user requested id token delivered) db t =
      rw (resend_invite-apartments env user requested id token delivered db) t
  serve_invite-Taken (cancel user requested id reason) db t =
      rw (cancel_invite-apartments user requested id reason db) t
  serve_invite-Taken (complete env user_id token dto) db t =
      complete_invite-Taken env user_id token dto db t

  serve_invites-Taken :
      (rs : List InviteRequest) (db : Db)
      → Taken x db
      → Taken x (serve_invites hash hash_password rs db)
  unfolding serve_invites
  serve_invites-Taken [] db t = t
  serve_invites-Taken (r ∷ rs) db t =
      serve_invites-Taken rs (serve_invite hash hash_password r db) (serve_invite-Taken r db t)

-- Once an invite is completed, no sequence of requests (invites made, sent again, cancelled and
-- completed) lets another invite for the same apartment be completed, and trying it changes nothing.
pub home_given_once :
    (hash : Text → ℕ) (hash_password : Text → Text) (env later : Env) (user_id other_id r r' : ℕ)
    (token token' : Text) (dto dto' : CompleteResidentInvite) (db : Db) (i j : ResidentInvite)
    (rs : List InviteRequest)
    → find (λ y. y.token_hash == hash token) db.resident_invites ≡ some i
    → (complete_invite hash hash_password env user_id token dto db).0 ≡ ok r
    → let once = (complete_invite hash hash_password env user_id token dto db).1 in
      let last = serve_invites hash hash_password rs once in
      find (λ y. y.token_hash == hash token') last.resident_invites ≡ some j
      → j.apartment_id ≡ i.apartment_id
      → let (answer, unchanged) =
          complete_invite hash hash_password later other_id token' dto' last in
        (answer ≢ ok r') × (unchanged ≡ last)
home_given_once hash hash_password env later user_id other_id r r' token token' dto dto' db i j rs f
      h g same =
    let once = (complete_invite hash hash_password env user_id token dto db).1 in
    let last = serve_invites hash hash_password rs once in
    let m = complete_invite-MovedIn hash hash_password env user_id token dto db r h in
    let mine : m.invite ≡ i = eq_of_some _ _ (sym m.found ∙ f) in
    let first : Taken m.invite.apartment_id once = rw (m.homes) (
      All-map_where (λ a. Unit {0}) (IsTaken m.invite.apartment_id)
        (λ a. a.id == m.invite.apartment_id) occupy db.apartments
        (λ a u. elim (Bool-cases (a.id == m.invite.apartment_id)) [
          | inl e ↦ rw e (λ t. refl)
          | inr n ↦ rw n (λ t. absurd (ground arith))
        ])
        (All-trivial db.apartments)) in
    let taken = serve_invites-Taken hash hash_password m.invite.apartment_id rs once first in
    let refused : (x : ℕ)
        → (complete_invite hash hash_password later other_id token' dto' last).0 ≢ ok x =
      λ x e.
        let n = complete_invite-MovedIn hash hash_password later other_id token' dto' last x e in
        let theirs : n.invite ≡ j = eq_of_some _ _ (sym n.found ∙ g) in
        let at_home =
          find_sound (λ a. a.id == n.invite.apartment_id) last.apartments n.home n.home_found in
        let full =
          All-find (IsTaken m.invite.apartment_id) (λ a. a.id == n.invite.apartment_id)
            last.apartments n.home taken n.home_found in
        absurd (
          ground (
            arith,
            full,
            ap (λ (y : ResidentInvite). y.apartment_id) mine,
            ap (λ (y : ResidentInvite). y.apartment_id) theirs,
            n.vacant,
          )) in
    elim (Result-cases (complete_invite hash hash_password later other_id token' dto' last)) [
      | inl (x, s, e) ↦ absurd (refused x (rw e))
      | inr (x, s, e) ↦ (
        refused r',
        complete_invite_atomic hash hash_password later other_id token' dto' last x (rw e),
      )
    ]

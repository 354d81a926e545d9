-- ===== src/ResidentInvites/MovedIn.antt =====
-- The requests on resident invites, and what a completed one has done: `completeInvite` of
-- backend/src/modules/resident-invites/resident-invites.service.ts.
use entryva.Base.{
  ℕ, ◌≡◌, true, false, arith, ◌==◌, inl, inr, Option, some, Option-cases, List, [], ◌∷◌, find,
  update_where, Text,
}
use entryva.Effects.{Exception, ok, err}
use entryva.Emergency.{AuthenticatedUser}
use entryva.Store.{Apartment, ResidentInvite, EmailStatus, Db, Env}
use entryva.ResidentInvites.{
  CreateResidentInvite, create_invite, resend_invite, cancel_invite, is_pending,
}
use entryva.ResidentInvites.Public.{
  CompleteResidentInvite, complete_invite, find_live_invite, create_resident, occupy, new_profile,
}

pub data InviteRequest : Type 0 where
  create :
      Env → AuthenticatedUser → Option ℕ → CreateResidentInvite → Text → EmailStatus → InviteRequest
  resend : Env → AuthenticatedUser → Option ℕ → ℕ → Text → EmailStatus → InviteRequest
  cancel : AuthenticatedUser → Option ℕ → ℕ → Option Text → InviteRequest
  complete : Env → ℕ → Text → CompleteResidentInvite → InviteRequest

module _ (hash : Text → ℕ) (hash_password : Text → Text) where
  -- The database after a request.
  unfoldable pub serve_invite : InviteRequest → Db → Db
  serve_invite (create env user requested dto token delivered) db =
      (create_invite hash env user requested dto token delivered db).1
  serve_invite (resend env user requested id token delivered) db =
      (resend_invite hash env user requested id token delivered db).1
  serve_invite (cancel user requested id reason) db = (cancel_invite user requested id reason db).1
  serve_invite (complete env user_id token dto) db =
      (complete_invite hash hash_password env user_id token dto db).1

  -- The database after a sequence of requests.
  unfoldable pub serve_invites : List InviteRequest → Db → Db
  unfolding serve_invite
  serve_invites [] db = db
  serve_invites (r ∷ rs) db = serve_invites rs (serve_invite r db)

  -- Where the link leads, and what a completed invite has done.
  pub record MovedIn (env : Env) (user_id : ℕ) (token : Text) (dto : CompleteResidentInvite)
      (db : Db) (r : ℕ) : Type 0 where
    pub invite : ResidentInvite
    pub found : find (λ i. i.token_hash == hash token) db.resident_invites ≡ some invite
    pub live : is_pending invite.status ≡ true
    pub home : Apartment
    pub home_found : find (λ a. a.id == invite.apartment_id) db.apartments ≡ some home
    pub vacant : home.occupied ≡ false
    pub homes :
        (complete_invite hash hash_password env user_id token dto db).1.apartments
        ≡ update_where (λ a. a.id == invite.apartment_id) occupy db.apartments
    pub residents :
        (complete_invite hash hash_password env user_id token dto db).1.residents
        ≡ new_profile env.new_id user_id invite dto ∷ db.residents

  module _ (env : Env) (user_id : ℕ) (token : Text) (dto : CompleteResidentInvite) (db : Db) where
    -- A completed invite puts a new resident, with the name and phone of the form, into the apartment
    -- and the estate that the invite was made for, which was vacant.
    pub complete_invite-MovedIn :
        (r : ℕ)
        → (complete_invite hash hash_password env user_id token dto db).0 ≡ ok r
        → MovedIn env user_id token dto db r
    unfolding complete_invite find_live_invite create_resident
    complete_invite-MovedIn r h =
        elim (Option-cases (find (λ i. i.token_hash == hash token) db.resident_invites)) [
          | inl e ↦ absurd (ground arith)
          | inr (i, e) ↦ elim (Option-cases (find (λ a. a.id == i.apartment_id) db.apartments)) [
            | inl f ↦ absurd (ground arith)
            | inr (a, f) ↦ record {
              invite = i;
              found = e;
              live = ground arith;
              home = a;
              home_found = f;
              vacant = ground arith;
              homes = ground arith;
              residents = ground arith;
            }
          ]
        ]

    -- An invite that is not completed changes nothing.
    pub complete_invite_atomic :
        (x : Exception)
        → (complete_invite hash hash_password env user_id token dto db).0 ≡ err x
        → (complete_invite hash hash_password env user_id token dto db).1 ≡ db
    unfolding complete_invite find_live_invite create_resident
    complete_invite_atomic x h =
        elim (Option-cases (find (λ i. i.token_hash == hash token) db.resident_invites)) [
          | inl e ↦ ground arith
          | inr (i, e) ↦ elim (Option-cases (find (λ a. a.id == i.apartment_id) db.apartments)) [
            | inl f ↦ ground arith
            | inr (a, f) ↦ ground arith
          ]
        ]

-- ===== src/ResidentInvites/Live.antt =====
-- How many invites of an apartment wait for an answer: `createInvite`, `cancelInvite` and
-- `resendInvite` of backend/src/modules/resident-invites/resident-invites.service.ts.
use entryva.Base.{
  same_row, ℕ, ◌≡◌, ◌≢◌, refl, subst, ◌∙◌, ap, false, arith, ◌==◌, ◌&&◌, Bool-cases, ◌⊎◌, inl, inr,
  Option, some, Option-cases, List, ◌∷◌, All, All-map_where, All-trivial, AtMostOne,
  AtMostOne-update_where, find_sound, mem_of_find, find-update_where, find, update_where, Text,
}
use entryva.Effects.{ok, Result-cases}
use entryva.Emergency.{AuthenticatedUser}
use entryva.Store.{InviteStatus, ResidentInvite, EmailStatus, Db, Env}
use entryva.ResidentInvites.{
  CreateResidentInvite, InviteAnswer, new_invite, resolve_estate_id, create_invite, resend_invite,
  live_for, revoked, reissued,
}

-- At most one invite of each apartment waits for an answer.
abbrev pub OneLive : Db → Type 0
OneLive db = (a : ℕ) → AtMostOne (live_for a) db.resident_invites

revoke-none :
    (a : ℕ) (is : List ResidentInvite)
    → All (λ i. live_for a i ≡ false) (update_where (live_for a) revoked is)
revoke-none a is =
    All-map_where (λ i. Unit {0}) (λ i. live_for a i ≡ false) (live_for a) revoked is
      (λ i h. elim (Bool-cases (live_for a i)) [ inl e ↦ rw e (ground arith) | inr e ↦ rw e e ])
      (All-trivial is)

revoke-OneLive :
    (a : ℕ) (is : List ResidentInvite)
    → ((b : ℕ) → AtMostOne (live_for b) is)
    → (b : ℕ) → AtMostOne (live_for b) (update_where (live_for a) revoked is)
revoke-OneLive a is h b =
    AtMostOne-update_where (live_for b) (live_for a) revoked is (λ i e. ground arith) (h b)

insert-OneLive :
    (i : ResidentInvite) (is : List ResidentInvite)
    → ((b : ℕ) → AtMostOne (live_for b) is)
    → (b : ℕ) → AtMostOne (live_for b) (i ∷ update_where (live_for i.apartment_id) revoked is)
insert-OneLive i is h b = (
  λ e.
      let same : i.apartment_id ≡ b = ground arith in
      subst
        (λ a. All (λ j. live_for a j ≡ false) (update_where (live_for i.apartment_id) revoked is))
        same (revoke-none i.apartment_id is),
  revoke-OneLive i.apartment_id is h b,
)

resolve-state :
    (user : AuthenticatedUser) (requested : Option ℕ) (db : Db)
    → (resolve_estate_id user requested db).1 ≡ db
unfolding resolve_estate_id
resolve-state user requested db = ground arith

-- The invites after `createInvite`.
create_invite-rows :
    (hash : Text → ℕ) (env : Env) (user : AuthenticatedUser) (requested : Option ℕ)
    (dto : CreateResidentInvite) (token : Text) (delivered : EmailStatus) (db : Db)
    → let after =
        (create_invite hash env user requested dto token delivered db).1.resident_invites in
      (after ≡ db.resident_invites)
      ⊎ ((i : ResidentInvite) × (after
            ≡ i ∷ update_where (live_for i.apartment_id) revoked db.resident_invites))
unfolding create_invite
create_invite-rows hash env user requested dto token delivered db =
    let same = resolve-state user requested db in
    elim (Result-cases (resolve_estate_id user requested db)) [
      | inr (x, s, e) ↦ inl (ground arith)
      | inl (estate_id, s, e) ↦
          elim (Result-cases (create_invite hash env user requested dto token delivered db)) [
            | inr (x, s', f) ↦ inl (ground arith)
            | inl (r, s', f) ↦ inr (new_invite hash env user estate_id dto token, ground arith)
          ]
    ]

-- Where at most one invite of each apartment waits for an answer, that is so after another was made,
-- whatever becomes of the request.
pub create_invite-OneLive :
    (hash : Text → ℕ) (env : Env) (user : AuthenticatedUser) (requested : Option ℕ)
    (dto : CreateResidentInvite) (token : Text) (delivered : EmailStatus) (db : Db)
    → OneLive db
    → OneLive (create_invite hash env user requested dto token delivered db).1
create_invite-OneLive hash env user requested dto token delivered db h =
    elim (create_invite-rows hash env user requested dto token delivered db) [
      | inl same ↦ λ a. rw same (h a)
      | inr (i, rows) ↦ λ a. rw rows (insert-OneLive i db.resident_invites h a)
    ]

resend_invite-rows :
    (hash : Text → ℕ) (env : Env) (user : AuthenticatedUser) (requested : Option ℕ) (id : ℕ)
    (token : Text) (delivered : EmailStatus) (db : Db) (r : InviteAnswer)
    → (resend_invite hash env user requested id token delivered db).0 ≡ ok r
    → (resend_invite hash env user requested id token delivered db).1.resident_invites
      ≡ update_where (λ y. y.id == id) (reissued hash env.now token) db.resident_invites
unfolding resend_invite
resend_invite-rows hash env user requested id token delivered db r h =
    let same = resolve-state user requested db in
    elim (Result-cases (resolve_estate_id user requested db)) [
      | inr (x, s, e) ↦ absurd (ground arith)
      | inl (estate_id, s, e) ↦
          elim (Option-cases
            (find (λ y. y.id == id && y.estate_id == estate_id) db.resident_invites)) [
              | inl f ↦ absurd (ground arith)
              | inr (old, f) ↦
                  let mine =
                    find_sound (λ y. y.id == id && y.estate_id == estate_id) db.resident_invites old
                      f in
                  let its_id : old.id ≡ id = ground arith in
                  subst
                    (λ k.
                      (resend_invite hash env user requested id token delivered
                        db).1.resident_invites
                      ≡ update_where (λ y. y.id == k) (reissued hash env.now token)
                          db.resident_invites)
                    its_id (ground arith)
            ]
    ]

-- Sending a cancelled or replaced invite again revives it beside the one that waits for an answer:
-- where at most one invite of each apartment waits, and the first invite with the id that is sent
-- again is REVOKED while another of its apartment, the first with its own id, is PENDING, a
-- successful `resendInvite` leaves both of them PENDING for that apartment, the revived one with the
-- new link, and it no longer holds that at most one waits.
pub resend_invite-revives :
    (hash : Text → ℕ) (env : Env) (user : AuthenticatedUser) (requested : Option ℕ) (id : ℕ)
    (token : Text) (delivered : EmailStatus) (db : Db) (r : InviteAnswer) (i j : ResidentInvite)
    → OneLive db
    → find (λ y. y.id == id) db.resident_invites ≡ some j
    → j.status ≡ InviteStatus.revoked
    → find (λ y. y.id == i.id) db.resident_invites ≡ some i
    → i.status ≡ InviteStatus.pending
    → j.apartment_id ≡ i.apartment_id
    → (resend_invite hash env user requested id token delivered db).0 ≡ ok r
    → let after = (resend_invite hash env user requested id token delivered db).1 in
      (k : ResidentInvite) × (find (λ y. y.id == id) after.resident_invites ≡ some k)
      × (k.status ≡ InviteStatus.pending)
      × (k.apartment_id ≡ i.apartment_id)
      × (k.token_hash ≡ hash token)
      × (find (λ y. y.id == i.id) after.resident_invites ≡ some i)
      × (i.id ≢ id)
      × (¬ OneLive after)
resend_invite-revives hash env user requested id token delivered db r i j before f gone g live same
      h =
    let rows = resend_invite-rows hash env user requested id token delivered db r h in
    let f' = reissued hash env.now token in
    let after = (resend_invite hash env user requested id token delivered db).1 in
    let mine = find_sound (λ (y : ResidentInvite). y.id == id) db.resident_invites j f in
    let other : i.id ≢ id = λ e.
      let both = subst (λ k. find (λ y. y.id == k) db.resident_invites ≡ some i) e g in
      absurd (ground (arith, f, both, gone, live)) in
    let again : find (λ y. y.id == id) after.resident_invites ≡ some (f' j) =
      ap (find (λ (y : ResidentInvite). y.id == id)) rows
      ∙ find-update_where (λ y. y.id == id) f' (λ y. y.id == id) db.resident_invites j (λ y. refl) f
      ∙ rw mine refl in
    let apart : (i.id == id) ≡ false = ground arith in
    let kept : find (λ y. y.id == i.id) after.resident_invites ≡ some i =
      ap (find (λ (y : ResidentInvite). y.id == i.id)) rows
      ∙ find-update_where (λ y. y.id == id) f' (λ y. y.id == i.id) db.resident_invites i (λ y. refl)
          g
      ∙ rw apart refl in
    (
      f' j,
      again,
      refl,
      same,
      refl,
      kept,
      other,
      λ one.
          let twice : f' j ≡ i =
            same_row (live_for i.apartment_id) after.resident_invites (f' j) i (one i.apartment_id)
              (mem_of_find _ _ _ again) (mem_of_find _ _ _ kept) (ground (arith, same))
              (ground (arith, live)) in
          other (ground (arith, ap (λ (y : ResidentInvite). y.id) twice)),
    )

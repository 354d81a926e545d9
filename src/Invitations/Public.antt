-- ===== src/Invitations/Public.antt =====
-- What the holder of a link sees when the link is opened again: `findPublicByToken` of
-- backend/src/modules/invitations/invitations.service.ts.
use entryva.Base.{
  ◌≢◌, ◌≤◌, ◌⊎◌, ◌∷◌, ◌<◌, ℕ, ◌≡◌, refl, ap, ◌∙◌, Bool, true, false, arith, Option, some, List,
  find, find-update_where, if◌then◌else◌, ◌==◌, ==_refl, Text, Bool-cases, inl, inr,
}
use entryva.Effects.{ok, Result}
use entryva.Extension.{InvitationStatus, is_revoked}
use entryva.Store.{Notification, Estate, Invitation, Db, Env, dispatch, invitation_expired}
use entryva.Tokens.{derive_display_code}
use entryva.Invitations.{
  PublicInvitation, estate_name_of, expiry_due, find_public_by_token, set_expired,
}

module _ (hash : Text → ℕ) (digest : Text → List ℕ) (env : Env) (token : Text) where
  abbrev by_link : Invitation → Bool
  by_link x = x.secure_token_hash == hash token

  -- The invitation, what is shown of it and the database after a link was opened, if the expiry
  -- was due and if it was not.
  abbrev seen : Bool → Invitation → Invitation
  seen true i = record i { status = InvitationStatus.expired }
  seen false i = i

  abbrev shown : Invitation → Option Estate → PublicInvitation
  shown i estate = record {
    visitor_name = i.visitor.full_name;
    resident_name = i.resident.display_name;
    apartment_label = i.apartment.flat_number;
    estate_name = estate_name_of estate;
    valid_from = i.valid_from;
    valid_until = i.valid_until;
    status = i.status;
    display_code = derive_display_code digest token;
  }

  abbrev after : Bool → Invitation → Db → Db
  after true i db =
      dispatch i.resident.user_id (invitation_expired i.id i.visitor.full_name)
        (set_expired i.id db)
  after false i db = db

  abbrev estate_of : Invitation → Db → Option Estate
  estate_of i db = find (λ e. e.id == i.estate_id) db.estates

  link-ok :
      (due : Bool) (db : Db) (i : Invitation)
      → find by_link db.invitations ≡ some i
      → is_revoked i.status ≡ false
      → expiry_due env.now i ≡ due
      → find_public_by_token hash digest env token db
        ≡ (ok (shown (seen due i) (estate_of i db)), after due i db)
  unfolding find_public_by_token
  link-ok true db i f r d = ground arith
  link-ok false db i f r d = ground arith

  link-again :
      (due : Bool) (db : Db) (i : Invitation)
      → find by_link db.invitations ≡ some i
      → is_revoked i.status ≡ false
      → expiry_due env.now i ≡ due
      → find_public_by_token hash digest env token (after due i db)
        ≡ (ok (shown (seen due i) (estate_of i db)), after due (seen due i) (after due i db))
  link-again false db i f r d = link-ok false db i f r d
  link-again true db i f r d =
      link-ok true (after true i db) (seen true i)
        (find-update_where (λ x. x.id == i.id) (seen true) by_link db.invitations i (λ y. refl) f
          ∙ ap (λ b. some (if b then seen true i else i)) (==_refl i.id))
        refl (ground arith)

  -- The message that the visit is over.
  abbrev over : Invitation → Notification
  over i = record {
    user_id = i.resident.user_id;
    event = invitation_expired i.id i.visitor.full_name;
  }

  due_or_not :
      (i : Invitation)
      → (i.valid_until < env.now → i.status ≢ InvitationStatus.used → expiry_due env.now i ≡ true)
        × ((env.now ≤ i.valid_until) ⊎ (i.status ≡ InvitationStatus.used)
            → expiry_due env.now i ≡ false)
  due_or_not i = ground arith

  -- The row that the link finds after both.
  written-twice :
      (db : Db) (i : Invitation)
      → find by_link db.invitations ≡ some i
      → find by_link (after true (seen true i) (after true i db)).invitations ≡ some (seen true i)
  written-twice db i f =
      find-update_where (λ x. x.id == i.id) (seen true) by_link (after true i db).invitations
        (seen true i) (λ y. refl)
        (find-update_where (λ x. x.id == i.id) (seen true) by_link db.invitations i (λ y. refl) f
          ∙ ap (λ b. some (if b then seen true i else i)) (==_refl i.id))
      ∙ ap (λ b. some (if b then seen true i else seen true i)) (==_refl i.id)

  -- A link is opened twice at one moment, of an invitation that is neither REVOKED nor CANCELLED. If
  -- the visit is over and the invitation is not USED, it is shown as EXPIRED both times, the row
  -- that the link finds says so, and the resident is told each of the two times, and nobody else;
  -- if the visit is not over or the invitation is USED, it is shown with its own status both
  -- times and nothing is written.
  pub open_link_twice :
      (db : Db) (i : Invitation)
      → find (λ x. x.secure_token_hash == hash token) db.invitations ≡ some i
      → i.status ≢ InvitationStatus.revoked
      → i.status ≢ InvitationStatus.cancelled
      → let (once, first) = find_public_by_token hash digest env token db in
        let (again, second) = find_public_by_token hash digest env token first in
        (p : PublicInvitation) × (once ≡ ok p)
        × (again ≡ ok p)
        × (p.visitor_name ≡ i.visitor.full_name)
        × (p.valid_until ≡ i.valid_until)
        × (i.valid_until < env.now
            → i.status ≢ InvitationStatus.used
            → (p.status ≡ InvitationStatus.expired)
              × (find (λ x. x.secure_token_hash == hash token) second.invitations
                  ≡ some (record i { status = InvitationStatus.expired }))
              × (first.notifications ≡ over i ∷ db.notifications)
              × (second.notifications ≡ over i ∷ over i ∷ db.notifications))
        × ((env.now ≤ i.valid_until) ⊎ (i.status ≡ InvitationStatus.used)
            → (p.status ≡ i.status) × (first ≡ db) × (second ≡ db))
  open_link_twice db i f alive kept =
      let r : is_revoked i.status ≡ false = ground (arith, alive, kept) in
      let (is_due, is_not) = due_or_not i in
      elim (Bool-cases (expiry_due env.now i)) [
        | inl d ↦
            let one = link-ok true db i f r d in
            let two = link-again true db i f r d in
            let p = shown (seen true i) (estate_of i db) in
            (
              p,
              ap (λ (x : Result PublicInvitation × Db). x.0) one,
              rw one (ap (λ (x : Result PublicInvitation × Db). x.0) two),
              refl,
              refl,
              λ late unused.
                  (refl, rw one (rw two (written-twice db i f)), rw one refl, rw one (rw two refl)),
              λ n. absurd (cc (d, is_not n)),
            )
        | inr d ↦
            let one = link-ok false db i f r d in
            (
              shown i (estate_of i db),
              ap (λ (x : Result PublicInvitation × Db). x.0) one,
              rw one (ap (λ (x : Result PublicInvitation × Db). x.0) one),
              refl,
              refl,
              λ late unused. absurd (cc (d, is_due late unused)),
              λ n. (refl, rw one refl, rw one (rw one refl)),
            )
      ]

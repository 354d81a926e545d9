-- ===== src/PassExtension/Written.antt =====
-- The write of `extend` in
-- backend/src/modules/invitation-extensions/invitation-extensions.service.ts, row by row.
use entryva.Base.{
  ◌∙◌, true, if◌then◌else◌, find-update_where, Zip, Zip-update_where, ℕ, ◌≡◌, ◌≢◌, refl, Bool, ◌&&◌,
  arith, some, find, ◌==◌, ==_iff, update_where, update_where_none, count_where, Text, Bool-cases,
  ◌⊎◌, inl, inr,
}
use entryva.Effects.{ok, err, conflict}
use entryva.Extension.{
  InvitationStatus, ExtensionDecision, ExtensionDenyCode, extended, deny, is_expired,
}
use entryva.Store.{Invitation, Db, ResidentContext}
use entryva.PassExtension.{unchanged, prolong, write_extension}

abbrev pub written : Invitation → ℕ → Db → Db
written i t db = record db {
  invitations = update_where (unchanged i) (prolong (is_expired i.status) t) db.invitations;
}

-- The write on a pass that has changed since it was read is refused, and changes nothing.
pub write_extension-cases :
    (i : Invitation) (t : ℕ) (db : Db)
    → (write_extension i t db
        ≡ (err (conflict "This pass was just changed. Reload the page and try again."), db))
      ⊎ ((write_extension i t db ≡ (ok tt, written i t db))
          × (count_where (unchanged i) db.invitations ≢ 0))
unfolding write_extension
write_extension-cases i t db = elim (Bool-cases (count_where (unchanged i) db.invitations == 0)) [
  | inl e ↦
      let none_left = (==_iff (count_where (unchanged i) db.invitations) 0).0 e in
      inl (
        ground (
          arith,
          update_where_none (unchanged i) (prolong (is_expired i.status) t) db.invitations
              none_left,
        ))
  | inr e ↦ inr (
    ground arith,
    λ z. absurd (ground (arith, (==_iff (count_where (unchanged i) db.invitations) 0).1 z)),
  )
]

pub Decision-cases :
    (d : ExtensionDecision)
    → ((t : ℕ) × (n : ℕ) × (d ≡ extended t n))
      ⊎ ((c : ExtensionDenyCode) × (m : Text) × (d ≡ deny c m))
Decision-cases (extended t n) = inl (t, n, refl)
Decision-cases (deny c m) = inr (c, m, refl)

-- What an extension of `pass` until `t` makes of a row: its own row has the new end and, if the pass
-- was EXPIRED, is ACTIVE; another row, one whose end is no longer that of the pass and one that was
-- revoked or cancelled stay as they are.
pub record Extends (pass : Invitation) (t : ℕ) (old new : Invitation) : Type 0 where
  pub changed :
      old.id ≡ pass.id
      → old.valid_until ≡ pass.valid_until
      → old.status ≢ InvitationStatus.revoked
      → old.status ≢ InvitationStatus.cancelled
      → (new.valid_until ≡ t)
        × (pass.status ≡ InvitationStatus.expired → new.status ≡ InvitationStatus.active)
        × (pass.status ≢ InvitationStatus.expired → new.status ≡ old.status)
  pub only : new ≡ record old { valid_until = new.valid_until; status = new.status }
  pub other : old.id ≢ pass.id → new ≡ old
  pub stale : old.valid_until ≢ pass.valid_until → new ≡ old
  pub revoked :
      (old.status ≡ InvitationStatus.revoked) ⊎ (old.status ≡ InvitationStatus.cancelled)
      → new ≡ old

pub prolong-status :
    (i : Invitation) (t : ℕ)
    → (i.status ≡ InvitationStatus.expired
        → (prolong (is_expired i.status) t i).status ≡ InvitationStatus.active)
      × (i.status ≢ InvitationStatus.expired
          → (prolong (is_expired i.status) t i).status ≡ i.status)
prolong-status i t = ground arith

row-Extends :
    (i : Invitation) (t : ℕ) (x : Invitation)
    → Extends i t x (if unchanged i x then prolong (is_expired i.status) t x else x)
row-Extends i t x = elim (Bool-cases (unchanged i x)) [
  | inl e ↦ rw e (record {
    changed = λ a b c d. ground arith;
    only = refl;
    other = λ n. absurd (ground arith);
    stale = λ n. absurd (ground arith);
    revoked = λ s. absurd (ground arith);
  })
  | inr e ↦ rw e (record {
    changed = λ a b c d. absurd (ground arith);
    only = refl;
    other = λ n. refl;
    stale = λ n. refl;
    revoked = λ s. refl;
  })
]

pub written-Extends :
    (i : Invitation) (t : ℕ) (db : Db)
    → Zip (Extends i t) db.invitations (written i t db).invitations
written-Extends i t db =
    Zip-update_where (Extends i t) (unchanged i) (prolong (is_expired i.status) t) db.invitations
      (row-Extends i t)

-- `extend`'s query: a pass of the resident's own, in the resident's estate.
abbrev pub own_pass : ResidentContext → ℕ → Invitation → Bool
own_pass ctx id i = i.id == id && (i.resident.id == ctx.id && i.estate_id == ctx.estate_id)

pub found_again :
    (ctx : ResidentContext) (id : ℕ) (i : Invitation) (t : ℕ) (db : Db)
    → find (own_pass ctx id) db.invitations ≡ some i
    → unchanged i i ≡ true
    → find (own_pass ctx id) (written i t db).invitations ≡ some (prolong (is_expired i.status) t i)
found_again ctx id i t db f fit =
    find-update_where (unchanged i) (prolong (is_expired i.status) t) (own_pass ctx id)
      db.invitations i (λ y. refl) f
    ∙ rw fit refl

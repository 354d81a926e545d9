-- ===== src/EntryExit/Atomic.antt =====
-- Each operation does all of its writes or none, and what an entry that succeeds has checked.
use mathlib.Core.List.{Memᴰ}
use entryva.Base.{
  ◌≢◌, ◌≤◌, find, none, refl, Bool, ap, Bool-cases, mem_of_any, not_of_any, mem_of_count,
  count_of_mem, ℕ, ◌<◌, ◌≡◌, ◌↔◌, true, false, arith, some, ◌∷◌, any, ◌==◌, if◌then◌else◌,
  update_where, count_where, ◌&&◌, inl, inr,
}
use entryva.Effects.{ok, err, Exception, Result-cases}
use entryva.Extension.{InvitationStatus, one_time, is_active, is_revoked, is_one_time}
use entryva.Store.{Invitation, Visit, Db, Env, SecurityContext}
use entryva.EntryExit.{
  find_invitation, is_open, claimable, use_up, claim, create_visit, new_visit, enter, record_entry,
  record_exit,
}

-- An entry that is refused leaves the database as it was, also where the one-time invitation had
-- been claimed before the visitor turned out to be inside.
pub record_entry_atomic :
    (env : Env) (ctx : SecurityContext) (id : ℕ) (db : Db) (e : Exception)
    → (record_entry env ctx id db).0 ≡ err e
    → (record_entry env ctx id db).1 ≡ db
unfolding record_entry
record_entry_atomic env ctx id db e h = ground arith

-- An exit that is refused leaves the database as it was.
pub record_exit_atomic :
    (env : Env) (ctx : SecurityContext) (id : ℕ) (db : Db) (e : Exception)
    → (record_exit env ctx id db).0 ≡ err e
    → (record_exit env ctx id db).1 ≡ db
unfolding record_exit
record_exit_atomic env ctx id db e h = ground arith

-- The invitations after the claim of a one-time invitation.
abbrev pub claimed : Env → Invitation → Db → Db
claimed env i db =
    if is_one_time i.entry_policy
    then record db { invitations = update_where (claimable i.id) (use_up env.now) db.invitations }
    else db

-- What an entry checks.
pub record Admits (env : Env) (ctx : SecurityContext) (id : ℕ) (db : Db) (i : Invitation)
    : Type 0 where
  pub found : find_invitation id ctx db ≡ some i
  pub not_revoked : is_revoked i.status ≡ false
  pub in_time : i.valid_until < env.now → ⊥
  pub claim_held :
      (is_one_time i.entry_policy ≡ true)
      → (count_where (claimable i.id) db.invitations == 0) ≡ false
  pub outside : any (λ v. v.invitation_id == i.id && is_open v) db.visits ≡ false

pub enter-ok :
    (env : Env) (ctx : SecurityContext) (id : ℕ) (db db' : Db) (i : Invitation)
    → enter env ctx id db ≡ (ok i, db')
    → Admits env ctx id db i × (db' ≡ create_visit env ctx i.id (claimed env i db))
unfolding enter claim
enter-ok env ctx id db db' i h = ground arith

enter_complete :
    (env : Env) (ctx : SecurityContext) (id : ℕ) (db : Db) (i : Invitation)
    → Admits env ctx id db i
    → enter env ctx id db ≡ (ok i, create_visit env ctx i.id (claimed env i db))
unfolding enter claim
enter_complete env ctx id db i a = ground arith

record_entry_complete :
    (env : Env) (ctx : SecurityContext) (id : ℕ) (db : Db) (i : Invitation)
    → Admits env ctx id db i
    → (record_entry env ctx id db).0 ≡ ok (env.new_id, env.now)
unfolding record_entry
record_entry_complete env ctx id db i a = ground (arith, enter_complete env ctx id db i a)

-- An entry that succeeds has found an invitation that admits it, and leaves the new visit in front
-- of the others and the invitations as the claim has made them.
pub record_entry-ok :
    (env : Env) (ctx : SecurityContext) (id : ℕ) (db : Db) {r : ℕ × ℕ}
    → (record_entry env ctx id db).0 ≡ ok r
    → (i : Invitation) × Admits env ctx id db i
      × (r ≡ (env.new_id, env.now))
      × ((record_entry env ctx id db).1.visits ≡ new_visit env i.id ∷ db.visits)
      × ((record_entry env ctx id db).1.invitations ≡ (claimed env i db).invitations)
unfolding record_entry
record_entry-ok env ctx id db h = elim (Result-cases (enter env ctx id db)) [
  | inl (i, db', e) ↦
      let (a, d) = enter-ok env ctx id db db' i e in
      (i, a, ground arith, ground arith, ground arith)
  | inr (x, db', e) ↦ absurd (ground arith)
]

-- What an entry asks for, read off the tables.
pub record MayEnter (env : Env) (ctx : SecurityContext) (id : ℕ) (db : Db) (i : Invitation)
    : Type 0 where
  pub found : find (λ x. x.id == id && x.estate_id == ctx.estate_id) db.invitations ≡ some i
  pub not_revoked : i.status ≢ InvitationStatus.revoked
  pub not_cancelled : i.status ≢ InvitationStatus.cancelled
  pub in_time : env.now ≤ i.valid_until
  pub still_active :
      i.entry_policy ≡ one_time
      → (x : Invitation) × Memᴰ x db.invitations
        × (x.id ≡ i.id)
        × (x.status ≡ InvitationStatus.active)
  pub outside :
      (v : Visit)
      → Memᴰ v db.visits
      → v.invitation_id ≡ i.id
      → v.entered_at ≢ none
      → v.exited_at ≢ none

status_of_active : (s : InvitationStatus) → is_active s ≡ true → s ≡ InvitationStatus.active
status_of_active InvitationStatus.active h = refl
status_of_active InvitationStatus.pending h = cc
status_of_active InvitationStatus.used h = cc
status_of_active InvitationStatus.expired h = cc
status_of_active InvitationStatus.revoked h = cc
status_of_active InvitationStatus.cancelled h = cc

module _ (env : Env) (ctx : SecurityContext) (id : ℕ) (db : Db) (i : Invitation) where
  abbrev inside : Visit → Bool
  inside v = v.invitation_id == i.id && is_open v

  Admits-MayEnter : Admits env ctx id db i → MayEnter env ctx id db i
  Admits-MayEnter a = record {
    found = a.found;
    not_revoked = λ e. absurd (cc (a.not_revoked, ap is_revoked e));
    not_cancelled = λ e. absurd (cc (a.not_revoked, ap is_revoked e));
    in_time = ground (arith, a.in_time);
    still_active = λ e.
        let (x, m, h) =
          mem_of_count (claimable i.id) db.invitations (ground (arith, a.claim_held (rw e refl))) in
        (x, m, ground arith, status_of_active x.status (ground arith));
    outside = λ v m same went gone.
        let out : inside v ≡ false = not_of_any inside db.visits v a.outside m in
        absurd (ground arith);
  }

  MayEnter-Admits : MayEnter env ctx id db i → Admits env ctx id db i
  MayEnter-Admits a = record {
    found = a.found;
    not_revoked = ground (arith, a.not_revoked, a.not_cancelled);
    in_time = λ l. absurd (ground (arith, a.in_time));
    claim_held = λ e.
        let (x, m, same, live) = a.still_active (ground arith) in
        let some_row =
          count_of_mem (claimable i.id) db.invitations x m (ground (arith, same, live)) in
        ground arith;
    outside = elim (Bool-cases (any inside db.visits)) [
      | inr none_inside ↦ none_inside
      | inl someone ↦
          let (v, m, h) = mem_of_any inside db.visits someone in
          absurd (a.outside v m (ground arith) (ground arith) (ground arith))
    ];
  }

-- An entry succeeds exactly when the officer's estate has the invitation, it is neither REVOKED nor
-- CANCELLED, its time is not over, a row with its id is still ACTIVE if it is a one-time one, and
-- none of its visits was entered and not left.
pub record_entry-ok_iff :
    (env : Env) (ctx : SecurityContext) (id : ℕ) (db : Db)
    → ((record_entry env ctx id db).0 ≡ ok (env.new_id, env.now))
      ↔ (i : Invitation) × MayEnter env ctx id db i
record_entry-ok_iff env ctx id db = (
  λ h.
      let (i, a, _, _, _) = record_entry-ok env ctx id db h in
      (i, Admits-MayEnter env ctx id db i a),
  λ (i, a). record_entry_complete env ctx id db i (MayEnter-Admits env ctx id db i a),
)

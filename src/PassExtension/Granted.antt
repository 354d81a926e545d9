-- ===== src/PassExtension/Granted.antt =====
-- What `extend` of backend/src/modules/invitation-extensions/invitation-extensions.service.ts does
-- to a pass.
use entryva.Base.{
  ap, ◌∙◌, true, ==_refl, Zip, ℕ, ◌<◌, ◌≡◌, ◌≢◌, sym, subst, arith, some, find, Text, JsNumber,
  whole, Option-cases, inl, inr,
}
use entryva.Calendar.{LocalMoment}
use entryva.Effects.{ok, err, Exception}
use entryva.Extension.{InvitationStatus, evaluate_extension, is_expired}
use entryva.Extension.Bounds.{IsAllowed, evaluate_extension_iff}
use entryva.Store.{Invitation, Estate, Db, Env, ResidentContext}
use entryva.PassExtension.{target_of, unchanged, prolong, extend, find_estate}
use entryva.PassExtension.Written.{
  written, write_extension-cases, Decision-cases, Extends, prolong-status, written-Extends,
  own_pass, found_again,
}

module _ (local_moment : Text → ℕ → LocalMoment) (env : Env) (ctx : ResidentContext) (id : ℕ)
    (minutes : JsNumber) (db : Db) where
  -- An extension that is refused leaves the database as it was, also one whose pass was changed by
  -- someone else after it was read.
  extend_atomic :
      (e : Exception)
      → (extend local_moment env ctx id minutes db).0 ≡ err e
      → (extend local_moment env ctx id minutes db).1 ≡ db
  unfolding extend
  extend_atomic e h = elim (Option-cases (find (own_pass ctx id) db.invitations)) [
    | inl f ↦ ground arith
    | inr (i, f) ↦ elim (Option-cases (find_estate ctx.estate_id db)) [
      | inl g ↦ ground arith
      | inr (estate, g) ↦
          elim (Decision-cases (
            evaluate_extension (local_moment estate.timezone) (target_of i) estate.pass_rules
              minutes env.now)) [
                | inr (c, m, d) ↦ ground arith
                | inl (t, n, d) ↦ elim (write_extension-cases i t db) [
                  | inl w ↦ ground arith
                  | inr (w, _) ↦ absurd (ground arith)
                ]
              ]
    ]
  ]

  -- What an extension that ends at `t` has found and written.
  pub record Prolongs (t : ℕ) (after : Db) : Type 0 where
    pub pass : Invitation
    pub estate : Estate
    pub added : ℕ
    pub found : find (own_pass ctx id) db.invitations ≡ some pass
    pub home : find_estate ctx.estate_id db ≡ some estate
    pub asked : minutes ≡ whole added
    pub allowed :
        IsAllowed (local_moment estate.timezone) (target_of pass) estate.pass_rules env.now added t
    pub longer : (pass.valid_until < t) × (env.now < t)
    pub now : Invitation
    pub found_now : find (own_pass ctx id) after.invitations ≡ some now
    pub ends : now.valid_until ≡ t
    pub status :
        (pass.status ≡ InvitationStatus.expired → now.status ≡ InvitationStatus.active)
        × (pass.status ≢ InvitationStatus.expired → now.status ≡ pass.status)
    pub rows : Zip (Extends pass t) db.invitations after.invitations

  -- An extension that succeeds is of the resident's own pass, by the minutes that were asked for,
  -- which the estate's rules allow. The pass, looked up again, ends at the new end, which is after
  -- its old end and after now, and it is ACTIVE if it was EXPIRED and has its old status otherwise.
  -- Of the other invitations only those with its id and its old end that are neither REVOKED nor
  -- CANCELLED have changed, and in nothing but their end and status.
  pub extend-Prolongs :
      (r : ℕ × InvitationStatus)
      → (extend local_moment env ctx id minutes db).0 ≡ ok r
      → Prolongs r.0 (extend local_moment env ctx id minutes db).1
  unfolding extend
  extend-Prolongs r h = elim (Option-cases (find (own_pass ctx id) db.invitations)) [
    | inl f ↦ absurd (ground arith)
    | inr (i, f) ↦ elim (Option-cases (find_estate ctx.estate_id db)) [
      | inl g ↦ absurd (ground arith)
      | inr (estate, g) ↦
          elim (Decision-cases (
            evaluate_extension (local_moment estate.timezone) (target_of i) estate.pass_rules
              minutes env.now)) [
                | inr (c, m, d) ↦ absurd (ground arith)
                | inl (t, n, d) ↦ elim (write_extension-cases i t db) [
                  | inl w ↦ absurd (ground arith)
                  | inr (w, k) ↦
                      let same : r.0 ≡ t = ground arith in
                      let (asked, allowed) =
                        (evaluate_extension_iff (local_moment estate.timezone) (target_of i)
                            estate.pass_rules env.now minutes n t).0
                          d in
                      let after = (extend local_moment env ctx id minutes db).1 in
                      let moved : after.invitations ≡ (written i t db).invitations = ground arith in
                      let fit : unchanged i i ≡ true = ground (
                        arith,
                        ==_refl i.id,
                        ==_refl i.valid_until,
                        allowed.not_revoked,
                        allowed.not_cancelled,
                      ) in
                      record {
                        pass = i;
                        estate = estate;
                        added = n;
                        found = f;
                        home = g;
                        asked = asked;
                        allowed =
                            subst
                              (IsAllowed (local_moment estate.timezone) (target_of i)
                                estate.pass_rules env.now n)
                              (sym same) allowed;
                        longer = (
                          ground (arith, allowed.end, allowed.some_minutes),
                          ground (arith, allowed.end, allowed.some_minutes),
                        );
                        now = prolong (is_expired i.status) t i;
                        found_now =
                            ap (find (own_pass ctx id)) moved ∙ found_again ctx id i t db f fit;
                        ends = sym same;
                        status = prolong-status i t;
                        rows =
                            subst (λ (u : ℕ). Zip (Extends i u) db.invitations after.invitations)
                              (sym same)
                              (subst (Zip (Extends i t) db.invitations) (sym moved)
                                (written-Extends i t db));
                      }
                ]
              ]
    ]
  ]

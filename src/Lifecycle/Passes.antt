-- ===== src/Lifecycle/Passes.antt =====
-- The residents' and the server's own operations leave a spent one-time invitation spent.
use entryva.Base.{
  ℕ, ◌≡◌, refl, ◌≢◌, ◌⊎◌, sym, ap, ◌∙◌, subst, inl, inr, Bool, true, false, arith, ◌==◌, ◌&&◌, ◌-◌,
  not, All, All-update_where, count_where, some, Option, Option-cases, Bool-cases, find,
  update_where, List, [], ◌∷◌, Text, JsNumber,
}
use entryva.Calendar.{LocalMoment}
use entryva.Extension.{
  InvitationStatus, is_revoked, is_expired, evaluate_extension, extended, deny, ExtensionDecision,
  ExtensionDenyCode, ExtensionRules,
}
use entryva.Extension.Bounds.{evaluate_extension_iff}
use entryva.Store.{
  Invitation, OfflineEvent, OfflineDecision, Db, Env, Estate, SecurityContext, ResidentContext,
}
use entryva.EntryExit.OneTime.{IsSpent, Spent}
use entryva.Invitations.{
  CreateInvitation, resolve_visit_window, create_invitation, find_public_by_token, revoke,
  expiry_due, of_resident,
}
use entryva.InvitationExpiry.{
  overdue, overdue_row, mark_expired, sweep_row, sweep_rows, sweep, notify_within_ms,
}
use entryva.PassExtension.{target_of, unchanged, prolong, write_extension, extend}
use entryva.OfflineSync.{replay, sync_one, sync_batch}
use entryva.Lifecycle.Spent.{
  Keeps, Keeps-refl, Keeps-of_eq, Keeps-of_expire, IsSpent-status, record_entry-Keeps,
  deny_entry-Keeps,
}

Decision-cases :
    (d : ExtensionDecision)
    → ((t : ℕ) × (m : ℕ) × (d ≡ extended t m))
      ⊎ ((c : ExtensionDenyCode) × (message : Text) × (d ≡ deny c message))
Decision-cases (extended t m) = inl (t, m, refl)
Decision-cases (deny c message) = inr (c, message, refl)

abbrev own : ResidentContext → ℕ → Invitation → Bool
own ctx k i = i.id == k && (i.resident.id == ctx.id && i.estate_id == ctx.estate_id)

module _ (id : ℕ) (db : Db) (s : Spent id db) where
  -- A new invitation has another id.
  pub create_invitation-Keeps :
      (hash : Text → ℕ) (digest : Text → List ℕ) (from_iso : Text → Text → Option ℕ) (env : Env)
      (ctx : ResidentContext) (dto : CreateInvitation) (token : Text)
      → env.new_id ≢ id
      → Keeps id db (create_invitation hash digest from_iso env ctx dto token db).1
  unfolding create_invitation resolve_visit_window
  create_invitation-Keeps hash digest from_iso env ctx dto token ne = ground arith

  pub find_public_by_token-Keeps :
      (hash : Text → ℕ) (digest : Text → List ℕ) (env : Env) (token : Text)
      → Keeps id db (find_public_by_token hash digest env token db).1
  unfolding find_public_by_token
  find_public_by_token-Keeps hash digest env token =
      elim (Option-cases (find (λ i. i.secure_token_hash == hash token) db.invitations)) [
        | inl e ↦ rw (e, find_public_by_token) (Keeps-refl id db s)
        | inr (i, e) ↦
            let h = IsSpent-status id db s i _ e in
            Keeps-of_expire id db s _ (not (is_revoked i.status) && expiry_due env.now i) i.id
              (λ b d. ground (arith, h d)) (ground arith) (ground arith)
      ]

  revoked-IsSpent :
      (env : Env) (x : Invitation)
      → IsSpent x
      → IsSpent (record x { status = InvitationStatus.revoked; revoked_at = some env.now })
  revoked-IsSpent env x h = record { once = h.once; state = inr (inl refl) }

  pub revoke-Keeps :
      (env : Env) (ctx : ResidentContext) (k : ℕ) → Keeps id db (revoke env ctx k db).1
  unfolding revoke
  revoke-Keeps env ctx k =
      elim (Option-cases (find (λ i. i.id == k && of_resident ctx i) db.invitations)) [
        | inl e ↦ rw (e, revoke) (Keeps-refl id db s)
        | inr (i, e) ↦
            rw (e, revoke)
              (record {
                spent =
                    All-update_where (λ x. x.id ≡ id → IsSpent x) (λ x. x.id == k)
                      (λ x. record x {
                        status = InvitationStatus.revoked;
                        revoked_at = some env.now;
                      })
                      db.invitations (λ x h _ d. revoked-IsSpent env x (h d)) s;
                visits = refl;
              })
      ]

  -- No extension is granted for a spent pass.
  spent_not_extended :
      (at : ℕ → LocalMoment) (rules : ExtensionRules) (now : ℕ) (minutes : JsNumber)
      (i : Invitation) (t m : ℕ)
      → IsSpent i
      → evaluate_extension at (target_of i) rules minutes now ≢ extended t m
  spent_not_extended at rules now minutes i t m h e =
      let (_, a) = (evaluate_extension_iff at (target_of i) rules now minutes m t).0 e in
      ground (arith, a.not_revoked, a.not_cancelled, a.unused h.once)

  prolong_other :
      (i : Invitation) (until : ℕ)
      → i.id ≢ id
      → All
          (λ x. x.id ≡ id → IsSpent x)
          (update_where (unchanged i) (prolong (is_expired i.status) until) db.invitations)
  prolong_other i until ne =
      All-update_where (λ x. x.id ≡ id → IsSpent x) (unchanged i)
        (prolong (is_expired i.status) until) db.invitations (λ x h u d. absurd (ground arith)) s

  pub extend-Keeps :
      (local_moment : Text → ℕ → LocalMoment) (env : Env) (ctx : ResidentContext) (k : ℕ)
      (minutes : JsNumber)
      → Keeps id db (extend local_moment env ctx k minutes db).1
  unfolding extend write_extension
  extend-Keeps local_moment env ctx k minutes =
      elim (Option-cases (find (own ctx k) db.invitations)) [
        | inl e ↦ Keeps-of_eq id db _ s (ground arith) (ground arith)
        | inr (i, e) ↦ elim (Option-cases (find (λ x. x.id == ctx.estate_id) db.estates)) [
          | inl f ↦ Keeps-of_eq id db _ s (ground arith) (ground arith)
          | inr (estate, f) ↦ elim (Decision-cases (decision i estate)) [
            | inl (t, m, d) ↦
                let other : i.id ≢ id = λ x.
                  spent_not_extended (local_moment estate.timezone) estate.pass_rules env.now
                    minutes i t m (IsSpent-status id db s i _ e x) d in
                let written : (extend local_moment env ctx k minutes db).1.invitations
                    ≡ update_where (unchanged i) (prolong (is_expired i.status) t) db.invitations =
                  ground arith in
                record {
                  spent =
                      subst (All (λ x. x.id ≡ id → IsSpent x)) (sym written)
                        (prolong_other i t other);
                  visits = ap (count_where (λ w. w.invitation_id == id)) (ground arith);
                }
            | inr (code, message, d) ↦ Keeps-of_eq id db _ s (ground arith) (ground arith)
          ]
        ]
      ]
    where
      decision : Invitation → Estate → ExtensionDecision
      decision i estate =
          evaluate_extension (local_moment estate.timezone) (target_of i) estate.pass_rules minutes
            env.now

mark_expired-IsSpent :
    (now id : ℕ) (x : Invitation)
    → (x.id ≡ id → IsSpent x)
    → overdue now x ≡ true
    → x.id ≡ id
    → IsSpent (mark_expired x)
mark_expired-IsSpent now id x h o d = let p = h d in absurd (ground (arith, p.state))

sweep_row-Keeps :
    (id now : ℕ) (row : Invitation) (n : ℕ) (db : Db)
    → Spent id db
    → Keeps id db (sweep_row now row (n, db)).1
unfolding sweep_row
sweep_row-Keeps id now row n db s =
    let marked =
      All-update_where (λ x. x.id ≡ id → IsSpent x) (overdue_row now row.id) mark_expired
        db.invitations (λ x h o. mark_expired-IsSpent now id x h (ground arith)) s in
    elim (Bool-cases (count_where (overdue_row now row.id) db.invitations == 1)) [
      | inl e ↦ rw (e, sweep_row) (record { spent = marked; visits = refl })
      | inr e ↦ rw (e, sweep_row) (record { spent = marked; visits = refl })
    ]

pub Keeps-trans : (id : ℕ) (a b c : Db) → Keeps id a b → Keeps id b c → Keeps id a c
Keeps-trans id a b c h k = record { spent = k.spent; visits = k.visits ∙ h.visits }

sweep_rows-Keeps :
    (id now : ℕ) (rows : List Invitation) (n : ℕ) (db : Db)
    → Spent id db
    → Keeps id db (sweep_rows now rows (n, db)).1
unfolding sweep_rows
sweep_rows-Keeps id now [] n db s = Keeps-refl id db s
sweep_rows-Keeps id now (row ∷ rows) n db s =
    let (m, db') = sweep_row now row (n, db) in
    let first = sweep_row-Keeps id now row n db s in
    Keeps-trans id db db' _ first (sweep_rows-Keeps id now rows m db' first.spent)

pub sweep-Keeps :
    (id : ℕ) (db : Db) (running : Bool) (now : ℕ)
    → Spent id db
    → Keeps id db (sweep running now db).1
unfolding sweep
sweep-Keeps id db true now s = Keeps-refl id db s
sweep-Keeps id db false now s =
    let cutoff = now - notify_within_ms in
    let quiet : Db = record db {
      invitations = update_where (overdue cutoff) mark_expired db.invitations;
    } in
    let marked =
      All-update_where (λ x. x.id ≡ id → IsSpent x) (overdue cutoff) mark_expired db.invitations
        (λ x h o. mark_expired-IsSpent cutoff id x h o) s in
    Keeps-trans id db quiet _ (record { spent = marked; visits = refl })
      (sweep_rows-Keeps id now _ _ quiet marked)

replay-Keeps :
    (id : ℕ) (db : Db) (env : Env) (ctx : SecurityContext) (d : OfflineDecision)
    (event : OfflineEvent)
    → Spent id db
    → Keeps id db (replay env ctx d event db).1
replay-Keeps id db env ctx OfflineDecision.allowed event s =
    ground (arith, record_entry-Keeps id db s env ctx event.invitation_id)
replay-Keeps id db env ctx OfflineDecision.denied event s =
    deny_entry-Keeps id db s ctx event.invitation_id event.reason

sync_one-Keeps :
    (id : ℕ) (db : Db) (ctx : SecurityContext) (device : Text) (env : Env) (event : OfflineEvent)
    → Spent id db
    → Keeps id db (sync_one ctx device env event db).1
unfolding sync_one
sync_one-Keeps id db ctx device env event s =
    ground (arith, replay-Keeps id db env ctx event.decision event s, Keeps-refl id db s)

pub sync_batch-Keeps :
    (id : ℕ) (db : Db) (ctx : SecurityContext) (device : Text) (events : List (Env × OfflineEvent))
    → Spent id db
    → Keeps id db (sync_batch ctx device events db).1
unfolding sync_batch
sync_batch-Keeps id db ctx device [] s = Keeps-refl id db s
sync_batch-Keeps id db ctx device ((env, event) ∷ events) s =
    let (_, db') = sync_one ctx device env event db in
    let first = sync_one-Keeps id db ctx device env event s in
    Keeps-trans id db db' _ first (sync_batch-Keeps id db' ctx device events first.spent)

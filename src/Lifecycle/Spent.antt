-- ===== src/Lifecycle/Spent.antt =====
-- Each operation leaves a spent one-time invitation spent and gives it no further visit.
use entryva.Base.{
  ℕ, ◌≡◌, refl, ◌≢◌, sym, ap, ◌∙◌, subst, inl, inr, Bool, true, false, arith, ◌==◌, ◌&&◌, All,
  All-find, All-update_where, count_where, count_where-update_where, none, some, Option, Bool-cases,
  find, find_sound, Text, if◌then◌else◌,
}
use entryva.Effects.{Result-cases}
use entryva.Extension.{InvitationStatus, is_one_time}
use entryva.Store.{Invitation, Method, Db, Env, SecurityContext}
use entryva.Verification.{just_expired, expire, evaluate_and_record, verify_by_qr, verify_by_code}
use entryva.Verification.Outcome.{evaluate_and_record-rows}
use entryva.EntryExit.{record_entry, record_exit, deny_entry, claimable, use_up, leave}
use entryva.EntryExit.Inside.{leave-ok}
use entryva.EntryExit.Atomic.{claimed, record_entry-ok, record_entry_atomic}
use entryva.EntryExit.OneTime.{IsSpent, Spent, Spent-record_entry}

-- The number of visits that an invitation has had.
abbrev pub visits_of : ℕ → Db → ℕ
visits_of id db = count_where (λ v. v.invitation_id == id) db.visits

-- What an operation does to a spent invitation: nothing.
pub record Keeps (id : ℕ) (db db' : Db) : Type 0 where
  pub spent : Spent id db'
  pub visits : visits_of id db' ≡ visits_of id db

pub Keeps-refl : (id : ℕ) (db : Db) → Spent id db → Keeps id db db
Keeps-refl id db s = record { spent = s; visits = refl }

-- A database with the same invitations and visits.
pub Keeps-of_eq :
    (id : ℕ) (db db' : Db)
    → Spent id db
    → db'.invitations ≡ db.invitations
    → db'.visits ≡ db.visits
    → Keeps id db db'
Keeps-of_eq id db db' s i v = record {
  spent = subst (All (λ x. x.id ≡ id → IsSpent x)) (sym i) s;
  visits = ap (count_where (λ w. w.invitation_id == id)) v;
}

-- One whose invitations were changed otherwise than at the id.
module _ (id : ℕ) (db : Db) (s : Spent id db) where
  expire_other : (k : ℕ) → k ≢ id → All (λ x. x.id ≡ id → IsSpent x) (expire k db).invitations
  expire_other k ne =
      All-update_where _ (λ x. x.id == k) (λ x. record x { status = InvitationStatus.expired })
        db.invitations (λ x h e d. absurd (ground arith)) s

  pub IsSpent-status :
      (i : Invitation) (p : Invitation → Bool)
      → find p db.invitations ≡ some i
      → i.id ≡ id
      → IsSpent i
  IsSpent-status i p f = All-find _ p db.invitations i s f

  -- A write of EXPIRED, made only where the row is not the spent one.
  pub Keeps-of_expire :
      (db' : Db) (b : Bool) (k : ℕ)
      → (b ≡ true → k ≢ id)
      → db'.invitations ≡ (if b then (expire k db).invitations else db.invitations)
      → db'.visits ≡ db.visits
      → Keeps id db db'
  Keeps-of_expire db' true k ne i v = record {
    spent = subst (All (λ x. x.id ≡ id → IsSpent x)) (sym i) (expire_other k (ne refl));
    visits = ap (count_where (λ w. w.invitation_id == id)) v;
  }
  Keeps-of_expire db' false k ne i v = Keeps-of_eq id db db' s i v

  not_just_expired : (now : ℕ) (i : Invitation) → IsSpent i → just_expired now i ≡ false
  unfolding just_expired
  not_just_expired now i h = ground arith

  evaluate_and_record-Keeps :
      (env : Env) (ctx : SecurityContext) (m : Option Invitation) (method : Method) (offline : Bool)
      → ((i : Invitation) → m ≡ some i → i.id ≡ id → IsSpent i)
      → Keeps id db (evaluate_and_record env ctx m method offline db).1
  unfolding evaluate_and_record
  evaluate_and_record-Keeps env ctx none method offline h = Keeps-of_eq id db _ s refl refl
  evaluate_and_record-Keeps env ctx (some i) method offline h =
      let (visits, invitations) = evaluate_and_record-rows env ctx i method offline db in
      Keeps-of_expire _ ((i.estate_id == ctx.estate_id) && just_expired env.now i) i.id
        (λ b e. ground (arith, not_just_expired env.now i (h i refl e)))
        (invitations ∙ ground arith) visits

  pub verify_by_qr-Keeps :
      (hash : Text → ℕ) (env : Env) (ctx : SecurityContext) (token : Text) (offline : Bool)
      → Keeps id db (verify_by_qr hash env ctx token offline db).1
  unfolding verify_by_qr
  verify_by_qr-Keeps hash env ctx token offline =
      evaluate_and_record-Keeps env ctx _ _ offline (λ i f. IsSpent-status i _ f)

  pub verify_by_code-Keeps :
      (hash : Text → ℕ) (env : Env) (ctx : SecurityContext) (code : Text)
      → Keeps id db (verify_by_code hash env ctx code db).1
  unfolding verify_by_code
  verify_by_code-Keeps hash env ctx code =
      evaluate_and_record-Keeps env ctx _ _ false (λ i f. IsSpent-status i _ f)

  use_up-IsSpent : (env : Env) (x : Invitation) → IsSpent x → IsSpent (use_up env.now x)
  use_up-IsSpent env x h = record { once = h.once; state = inl refl }

  claimed-IsSpent :
      (env : Env) (i : Invitation) → All (λ x. x.id ≡ id → IsSpent x) (claimed env i db).invitations
  claimed-IsSpent env i = elim (Bool-cases (is_one_time i.entry_policy)) [
    | inl o ↦ rw o (
        All-update_where (λ x. x.id ≡ id → IsSpent x) (claimable i.id) (use_up env.now)
          db.invitations (λ x h _ d. use_up-IsSpent env x (h d)) s)
    | inr m ↦ rw m s
  ]

  pub record_entry-Keeps :
      (env : Env) (ctx : SecurityContext) (k : ℕ) → Keeps id db (record_entry env ctx k db).1
  record_entry-Keeps env ctx k = elim (Result-cases (record_entry env ctx k db)) [
    | inl (r, db', e) ↦
        let (i, a, _, visits, rows) = record_entry-ok env ctx k db {r = r} (rw e) in
        let found =
          find_sound (λ x. x.id == k && x.estate_id == ctx.estate_id) db.invitations i a.found in
        let other : i.id ≢ id = λ d.
          let same : k ≡ id = ground arith in
          Spent-record_entry k db env ctx r (subst (λ n. Spent n db) (sym same) s) (rw e) in
        record {
          spent = subst (All (λ x. x.id ≡ id → IsSpent x)) (sym rows) (claimed-IsSpent env i);
          visits = ap (count_where (λ w. w.invitation_id == id)) visits ∙ ground arith;
        }
    | inr (x, db', e) ↦
        let same = record_entry_atomic env ctx k db x (rw e) in
        Keeps-of_eq id db _ s (ap (λ d. d.invitations) same) (ap (λ d. d.visits) same)
  ]

  -- The exit of some visit.
  pub record_exit-Keeps :
      (env : Env) (ctx : SecurityContext) (k : ℕ) → Keeps id db (record_exit env ctx k db).1
  unfolding record_exit
  record_exit-Keeps env ctx k = elim (Result-cases (leave env ctx k db)) [
    | inl (r, db', e) ↦
        let closed = leave-ok env ctx k db db' r e in
        record {
          spent = subst (All (λ x. x.id ≡ id → IsSpent x)) (ground arith) s;
          visits =
              ap (count_where (λ w. w.invitation_id == id)) (ground arith)
              ∙ count_where-update_where (λ w. w.invitation_id == id) (λ w. w.id == r.0.id)
                  (λ w. record w { exited_at = some env.now }) db.visits (λ w. refl);
        }
    | inr (x, db', e) ↦ Keeps-of_eq id db _ s (ground arith) (ground arith)
  ]

  pub deny_entry-Keeps :
      (ctx : SecurityContext) (k : ℕ) (reason : Option Text)
      → Keeps id db (deny_entry ctx k reason db).1
  unfolding deny_entry
  deny_entry-Keeps ctx k reason = Keeps-of_eq id db _ s (ground arith) (ground arith)

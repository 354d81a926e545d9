-- ===== src/Verification/Outcome.antt =====
-- Which outcome a scan has, and what it writes.
use entryva.Base.{
  none, List, ◌∷◌, true, false, update_where, ℕ, ◌≤◌, ◌<◌, ◌≡◌, ◌≢◌, ◌⊎◌, Bool, arith, Option, some,
  ◌==◌, if◌then◌else◌,
}
use entryva.Effects.{ok}
use entryva.Extension.{InvitationStatus, one_time, is_expired}
use entryva.Store.{
  VerificationOutcome, valid, expired, not_yet_valid, revoked, already_used, not_found,
  wrong_estate, Method, Invitation, Db, Env, SecurityContext, invitation_verified,
  invitation_expired, visitor_verified,
}
use entryva.Verification.{view, outcome_of, just_expired, expire, evaluate_own, evaluate_and_record}

-- What each outcome says of an invitation of the officer's estate.
abbrev pub Means : ℕ → Invitation → VerificationOutcome → Type 0
Means now i revoked =
    (i.status ≡ InvitationStatus.revoked) ⊎ (i.status ≡ InvitationStatus.cancelled)
Means now i already_used = (i.entry_policy ≡ one_time) × (i.status ≡ InvitationStatus.used)
Means now i expired =
    (i.valid_until < now)
    × (i.status ≢ InvitationStatus.revoked)
    × (i.status ≢ InvitationStatus.cancelled)
    × (i.entry_policy ≡ one_time → i.status ≢ InvitationStatus.used)
Means now i not_yet_valid =
    (now < i.valid_from)
    × (now ≤ i.valid_until)
    × (i.status ≢ InvitationStatus.revoked)
    × (i.status ≢ InvitationStatus.cancelled)
    × (i.entry_policy ≡ one_time → i.status ≢ InvitationStatus.used)
Means now i valid =
    (i.valid_from ≤ now)
    × (now ≤ i.valid_until)
    × (i.status ≢ InvitationStatus.revoked)
    × (i.status ≢ InvitationStatus.cancelled)
    × (i.entry_policy ≡ one_time → i.status ≢ InvitationStatus.used)
Means now i not_found = ⊥
Means now i wrong_estate = ⊥

-- The outcome means what it says: VALID that the invitation is neither revoked nor cancelled nor a
-- used one-time one and the time is in its window, and every other outcome its own failure, the
-- earlier ones excluded.
outcome_of-Means : (now : ℕ) (i : Invitation) → Means now i (outcome_of now i)
unfolding outcome_of
outcome_of-Means now i = ground arith

module _ (env : Env) (ctx : SecurityContext) (i : Invitation) (method : Method) (offline : Bool)
    (db : Db) where
  abbrev after : Db
  after = (evaluate_and_record env ctx (some i) method offline db).1

  -- What a scan writes, in the words of the code.
  pub evaluate_and_record-rows :
      (after.visits ≡ db.visits)
      × (after.invitations ≡ (
          if i.estate_id == ctx.estate_id
          then (if just_expired env.now i then (expire i.id db).invitations else db.invitations)
          else db.invitations))
  unfolding evaluate_and_record evaluate_own
  evaluate_and_record-rows = ground arith

  -- The rows with the invitation's id say EXPIRED, and the others are as they were.
  abbrev marked_expired : List Invitation
  marked_expired =
      update_where (λ x. x.id == i.id) (λ x. record x { status = InvitationStatus.expired })
        db.invitations

  -- The event and the audit entry of a scan, with the outcome that each of them carries; `wrong` is
  -- whether the audit entry says that the estate is another one.
  pub record Attempt (shown logged : VerificationOutcome) (wrong : Bool) (entity : Option ℕ)
      : Type 0 where
    pub event :
        after.verification_events
        ≡ record {
          invitation_id = some i.id;
          officer_id = ctx.officer_id;
          outcome = shown;
          method = method;
          offline = offline;
        }
          ∷ db.verification_events
    pub audit :
        after.audit_logs
        ≡ record {
          action = invitation_verified logged method wrong;
          user_id = none;
          estate_id = some ctx.estate_id;
          entity_id = entity;
        }
          ∷ db.audit_logs
    pub visits : (after.visits ≡ db.visits) × (after.entry_exit_events ≡ db.entry_exit_events)

  -- What a scan of an own invitation with an outcome leaves.
  pub record OwnScan (o : VerificationOutcome) : Type 0 where
    pub means : Means env.now i o
    pub attempt : Attempt o o false (some i.id)
    pub answer :
        (evaluate_and_record env ctx (some i) method offline db).0
        ≡ ok (record { outcome = o; invitation = some (view i) })
    pub newly :
        o ≡ expired
        → i.status ≢ InvitationStatus.expired
        → (after.invitations ≡ marked_expired)
          × (after.notifications
              ≡ record {
                user_id = i.resident.user_id;
                event = invitation_expired i.id i.visitor.full_name;
              }
                ∷ db.notifications)
    pub again :
        i.status ≡ InvitationStatus.expired
        → o ≡ expired
        → (after.invitations ≡ db.invitations) × (after.notifications ≡ db.notifications)
    pub let_in :
        o ≡ valid
        → (after.invitations ≡ db.invitations)
          × (after.notifications
              ≡ record {
                user_id = i.resident.user_id;
                event = visitor_verified i.id i.visitor.full_name;
              }
                ∷ db.notifications)
    pub failed :
        o ≢ expired
        → o ≢ valid
        → (after.invitations ≡ db.invitations) × (after.notifications ≡ db.notifications)

  expired_status : (s : InvitationStatus) → s ≢ InvitationStatus.expired → is_expired s ≡ false
  expired_status s h = ground (arith, h)

  own_scan : i.estate_id ≡ ctx.estate_id → OwnScan (outcome_of env.now i)
  unfolding evaluate_and_record evaluate_own just_expired
  own_scan same = record {
    means = outcome_of-Means env.now i;
    attempt = record { event = ground arith; audit = ground arith; visits = ground arith };
    answer = ground arith;
    newly = λ e s. let f = expired_status i.status s in ground arith;
    again = λ s e. ground arith;
    let_in = λ e. ground arith;
    failed = λ e f. ground arith;
  }

  -- A scan that has found an invitation records one verification event and one audit entry, in front of
  -- the old ones, and leaves the visits and the entry and exit events alone. For one of the
  -- officer's estate both carry the outcome that the officer is shown, and it means what it says;
  -- if it is EXPIRED and the invitation does not say so, the rows with its id say EXPIRED after it
  -- and its resident is told; if it is VALID the resident is told that, and otherwise no
  -- invitation changes and nobody is told. For another estate's the event carries WRONG_ESTATE, the
  -- audit entry and the officer get NOT_FOUND, no invitation changes and nobody is told.
  pub evaluate_and_record_writes :
      (i.estate_id ≡ ctx.estate_id → (o : VerificationOutcome) × OwnScan o)
      × (i.estate_id ≢ ctx.estate_id
          → Attempt wrong_estate not_found true none
            × ((evaluate_and_record env ctx (some i) method offline db).0
                ≡ ok (record { outcome = not_found; invitation = none }))
            × (after.invitations ≡ db.invitations)
            × (after.notifications ≡ db.notifications))
  unfolding evaluate_and_record
  evaluate_and_record_writes = (
    λ same. (outcome_of env.now i, own_scan same),
    λ other.
        let apart : (i.estate_id == ctx.estate_id) ≡ false = ground arith in
        (
          record { event = ground arith; audit = ground arith; visits = ground arith },
          ground arith,
          ground arith,
          ground arith,
        ),
  )

pub own_answer :
    (now : Env) (officer : SecurityContext) (m : Option Invitation) (i : Invitation)
    (method : Method) (offline : Bool) (db : Db)
    → m ≡ some i
    → i.estate_id ≡ officer.estate_id
    → (evaluate_and_record now officer m method offline db).0
      ≡ ok (record { outcome = outcome_of now.now i; invitation = some (view i) })
unfolding evaluate_and_record evaluate_own
own_answer now officer m i method offline db e same = rw e (ground arith)

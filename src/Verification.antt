-- ===== src/Verification.antt =====
-- Scans at the gate: backend/src/modules/verification/verification.service.ts. SHA-256 is a
-- parameter, `hash`.
pub mod Outcome
pub mod Isolation
use entryva.Base.{
  ℕ, ◌<◌, Bool, true, false, ◌&&◌, not, ltb, ◌==◌, if◌then◌else◌, Option, none, some, List, [], ◌∷◌,
  find, update_where, Text, trim, to_upper, is_some,
}
use entryva.Effects.{Action, ok, pure, gets, modify, when, ◌>>=◌, ◌>>◌}
use entryva.Extension.{InvitationStatus, EntryPolicy, is_revoked, is_used, is_expired, is_one_time}
use entryva.Store.{
  VerificationOutcome, valid, expired, not_yet_valid, revoked, already_used, not_found,
  wrong_estate, Method, qr, manual_code, Invitation, VerificationEvent, Db, Env, log, dispatch,
  invitation_verified, visitor_verified, invitation_expired, SecurityContext, AuditLog,
}

-- The part of an invitation that an officer sees.
pub record InvitationView : Type 0 where
  pub invitation_id : ℕ
  pub visitor_name : Text
  pub resident_name : Text
  pub resident_phone : Option Text
  pub apartment_label : Text
  pub valid_until : ℕ
  pub status : InvitationStatus
  pub entry_policy : EntryPolicy

pub record VerificationResult : Type 0 where
  pub outcome : VerificationOutcome
  pub invitation : Option InvitationView

abbrev pub view : Invitation → InvitationView
view i = record {
  invitation_id = i.id;
  visitor_name = i.visitor.full_name;
  resident_name = i.resident.display_name;
  resident_phone = i.resident.phone;
  apartment_label = i.apartment.flat_number;
  valid_until = i.valid_until;
  status = i.status;
  entry_policy = i.entry_policy;
}

-- The ladder of outcomes in `evaluateAndRecord`, for an invitation of the officer's estate.
unfoldable pub outcome_of : ℕ → Invitation → VerificationOutcome
outcome_of now i =
    if is_revoked i.status
    then revoked
    else if is_one_time i.entry_policy && is_used i.status
    then already_used
    else if ltb i.valid_until now
    then expired
    else if ltb now i.valid_from
    then not_yet_valid
    else valid

-- The write of `status: 'EXPIRED'` is made when the outcome is EXPIRED and the row does not say so.
abbrev pub is_outcome_expired : VerificationOutcome → Bool
is_outcome_expired expired = true
is_outcome_expired _ = false

unfoldable pub just_expired : ℕ → Invitation → Bool
unfolding outcome_of
just_expired now i = is_outcome_expired (outcome_of now i) && not (is_expired i.status)

abbrev pub expire : ℕ → Db → Db
expire id db = record db {
  invitations =
      update_where (λ i. i.id == id) (λ i. record i { status = InvitationStatus.expired })
        db.invitations;
}

abbrev pub is_valid : VerificationOutcome → Bool
is_valid valid = true
is_valid _ = false

-- The event and the audit entry that every attempt leaves.
abbrev pub record_attempt :
    SecurityContext
    → Option ℕ
    → Option ℕ
    → VerificationOutcome
    → VerificationOutcome
    → Bool
    → Method
    → Bool
    → Db
    → Db
record_attempt ctx matched effective recorded outcome wrong method offline db =
    log
      (record {
        action = invitation_verified outcome method wrong;
        user_id = none;
        estate_id = some ctx.estate_id;
        entity_id = effective;
      })
      (record db {
        verification_events =
            record {
              invitation_id = matched;
              officer_id = ctx.officer_id;
              outcome = recorded;
              method = method;
              offline = offline;
            }
            ∷ db.verification_events;
      })

-- `evaluateAndRecord`, for an invitation of the officer's own estate.
unfoldable pub evaluate_own :
    Env → SecurityContext → Invitation → Method → Bool → Action Db VerificationResult
evaluate_own env ctx i method offline =
    let outcome = outcome_of env.now i in
    let newly_expired = just_expired env.now i in
    do
      when newly_expired (expire i.id)
      modify (record_attempt ctx (some i.id) (some i.id) outcome outcome false method offline)
      when (is_valid outcome)
          (dispatch i.resident.user_id (visitor_verified i.id i.visitor.full_name))
      when newly_expired (dispatch i.resident.user_id (invitation_expired i.id i.visitor.full_name))
      pure (record { outcome = outcome; invitation = some (view i) })

-- `evaluateAndRecord`; another estate's invitation is reported as not found.
unfoldable pub evaluate_and_record :
    Env → SecurityContext → Option Invitation → Method → Bool → Action Db VerificationResult
evaluate_and_record env ctx none method offline = do
  modify (record_attempt ctx none none not_found not_found false method offline)
  pure (record { outcome = not_found; invitation = none })
evaluate_and_record env ctx (some i) method offline =
    if i.estate_id == ctx.estate_id then evaluate_own env ctx i method offline else (do
      modify (record_attempt ctx (some i.id) none wrong_estate not_found true method offline)
      pure (record { outcome = not_found; invitation = none }))

module _ (hash : Text → ℕ) where
  -- `verifyByQr`
  unfoldable pub verify_by_qr : Env → SecurityContext → Text → Bool → Action Db VerificationResult
  verify_by_qr env ctx token offline = do
    i ← gets (λ db. find (λ x. x.secure_token_hash == hash token) db.invitations)
    evaluate_and_record env ctx i qr offline

  -- `verifyByCode`
  unfoldable pub verify_by_code : Env → SecurityContext → Text → Action Db VerificationResult
  verify_by_code env ctx code = do
    i ← gets (λ db.
        find
          (λ x. x.estate_id == ctx.estate_id && x.display_code_hash == hash (to_upper (trim code)))
          db.invitations)
    evaluate_and_record env ctx i manual_code false

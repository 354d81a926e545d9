-- ===== src/Verification/Isolation.antt =====
-- An officer learns nothing of another estate's invitations.
use entryva.Base.{
  ℕ, ◌≡◌, refl, sym, ap, ◌∙◌, Bool, false, arith, ◌==◌, if◌then◌else◌, Option, none, some, find,
  select, find-select, keep, AtMostOne, keep-find, Text, trim, to_upper,
}
use entryva.Effects.{ok}
use entryva.Store.{not_found, Method, qr, manual_code, Invitation, Db, Env, SecurityContext}
use entryva.Verification.{
  view, outcome_of, evaluate_own, evaluate_and_record, verify_by_qr, verify_by_code,
  VerificationResult,
}

-- The answer to a scan that matched `m`.
abbrev answer : Env → SecurityContext → Option Invitation → VerificationResult
answer env ctx none = record { outcome = not_found; invitation = none }
answer env ctx (some i) =
    if i.estate_id == ctx.estate_id
    then record { outcome = outcome_of env.now i; invitation = some (view i) }
    else record { outcome = not_found; invitation = none }

evaluate_and_record-answer :
    (env : Env) (ctx : SecurityContext) (m : Option Invitation) (method : Method) (offline : Bool)
    (db : Db)
    → (evaluate_and_record env ctx m method offline db).0 ≡ ok (answer env ctx m)
unfolding evaluate_and_record evaluate_own
evaluate_and_record-answer env ctx none method offline db = refl
evaluate_and_record-answer env ctx (some i) method offline db = ground arith

-- The database without the invitations of other estates.
abbrev pub own_estate : ℕ → Db → Db
own_estate e db = record db { invitations = select (λ i. i.estate_id == e) db.invitations }

answer-keep :
    (env : Env) (ctx : SecurityContext) (m : Option Invitation)
    → answer env ctx m ≡ answer env ctx (keep (λ i. i.estate_id == ctx.estate_id) m)
answer-keep env ctx none = refl
answer-keep env ctx (some i) = ground arith

module _ (hash : Text → ℕ) (env : Env) (ctx : SecurityContext) where
  -- The answer to a manual code is the one that the officer's own estate alone would give.
  pub verify_by_code-own_estate :
      (code : Text) (db : Db)
      → (verify_by_code hash env ctx code db).0
        ≡ (verify_by_code hash env ctx code (own_estate ctx.estate_id db)).0
  unfolding verify_by_code
  verify_by_code-own_estate code db =
      rw
        (find-select (λ x. x.estate_id == ctx.estate_id)
          (λ x. x.display_code_hash == hash (to_upper (trim code))) db.invitations)
        (evaluate_and_record-answer env ctx _ manual_code false db
          ∙ sym (
              evaluate_and_record-answer env ctx _ manual_code false (own_estate ctx.estate_id db)))

  -- No two invitations have the same token hash (`secureTokenHash @unique`).
  abbrev pub HasUniqueTokens : Db → Text → Type 0
  HasUniqueTokens db token = AtMostOne (λ x. x.secure_token_hash == hash token) db.invitations

  -- The answer to a QR code is the one that the officer's own estate alone would give, if at most
  -- one invitation has the hash of its token.
  verify_by_qr-own_estate :
      (token : Text) (offline : Bool) (db : Db)
      → HasUniqueTokens db token
      → (verify_by_qr hash env ctx token offline db).0
        ≡ (verify_by_qr hash env ctx token offline (own_estate ctx.estate_id db)).0
  unfolding verify_by_qr
  verify_by_qr-own_estate token offline db u =
      let own = λ (x : Invitation). x.estate_id == ctx.estate_id in
      let q = λ (x : Invitation). x.secure_token_hash == hash token in
      rw (← keep-find own q db.invitations u) (
        evaluate_and_record-answer env ctx _ qr offline db
        ∙ ap ok (answer-keep env ctx (find q db.invitations))
        ∙ sym (evaluate_and_record-answer env ctx _ qr offline (own_estate ctx.estate_id db)))

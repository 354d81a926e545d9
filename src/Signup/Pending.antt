-- ===== src/Signup/Pending.antt =====
-- At most one sign-up of an address waits for its confirmation: `startSignup` of
-- backend/src/modules/signup/signup.service.ts.
use entryva.Base.{
  ℕ, ◌+◌, ◌≡◌, subst, false, arith, ltb, not, Bool-cases, inl, inr, List, All, AtMostOne,
  AtMostOne-update_where, AtMostOne-select, All-map_where, All-trivial, update_where, any, Text,
  text_eq_iff,
}
use entryva.Store.{SignupStatus, PendingSignup, EmailStatus, Db, Env}
use entryva.Accounts.{is_text}
use entryva.Signup.{StartSignup, pending_for, cleanup, is_recent, supersede, start_signup, week_ms}

abbrev pub OnePending : Db → Type 0
OnePending db = (email : Text) → AtMostOne (pending_for email) db.pending_signups

cleanup-OnePending : (now : ℕ) (db : Db) → OnePending db → OnePending (cleanup now db)
cleanup-OnePending now db h email =
    AtMostOne-select (pending_for email) (λ p. not (ltb (p.expires_at + week_ms) now))
      db.pending_signups (h email)

superseded : PendingSignup → PendingSignup
superseded p = record p { status = SignupStatus.superseded }

supersede-none :
    (email : Text) (ps : List PendingSignup)
    → All (λ p. pending_for email p ≡ false) (update_where (pending_for email) superseded ps)
unfolding superseded
supersede-none email ps =
    All-map_where (λ p. Unit {0}) (λ p. pending_for email p ≡ false) (pending_for email) superseded
      ps
      (λ p h. elim (Bool-cases (pending_for email p)) [
        | inl e ↦ rw e (ground arith)
        | inr e ↦ rw e e
      ])
      (All-trivial ps)

supersede-OnePending : (email : Text) (db : Db) → OnePending db → OnePending (supersede email db)
unfolding superseded
supersede-OnePending email db h other =
    AtMostOne-update_where (pending_for other) (pending_for email) superseded db.pending_signups
      (λ p e. ground arith) (h other)

-- Where at most one sign-up of each address waits for its confirmation, that is so after the form was
-- sent again, whatever becomes of it.
pub start_signup-OnePending :
    (hash : Text → ℕ) (hash_password : Text → Text) (env : Env) (dto : StartSignup) (token : Text)
    (delivered : EmailStatus) (db : Db)
    → OnePending db
    → OnePending (start_signup hash hash_password env dto token delivered db).1
unfolding start_signup superseded
start_signup-OnePending hash hash_password env dto token delivered db h =
    let kept = cleanup env.now db in
    let clean = cleanup-OnePending env.now db h in
    elim (Bool-cases (any (λ u. is_text u.email dto.email) kept.users)) [
      | inl known ↦ rw known clean
      | inr new ↦ elim (Bool-cases (any (is_recent env.now dto.email) kept.pending_signups)) [
        | inl soon ↦ rw (new, soon) clean
        | inr late ↦
            rw (new, late)
              (λ email. (
                λ e.
                    let same : dto.email ≡ email = (text_eq_iff dto.email email).0 (ground arith) in
                    subst
                      (λ a.
                        All (λ p. pending_for a p ≡ false)
                          (update_where (pending_for dto.email) superseded kept.pending_signups))
                      same (supersede-none dto.email kept.pending_signups),
                supersede-OnePending dto.email kept clean email,
              ))
      ]
    ]

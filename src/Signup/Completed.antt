-- ===== src/Signup/Completed.antt =====
-- What a completed sign-up has done, and that a failed one has done nothing: `completeSignup` of
-- backend/src/modules/signup/signup.service.ts.
use entryva.Base.{
  ℕ, ◌<◌, ◌≡◌, refl, Bool, true, arith, ◌==◌, inl, inr, Option, some, Option-cases, ◌∷◌, find,
  update_where, Text,
}
use entryva.Effects.{Exception, Result, ok, err, Result-cases}
use entryva.Store.{SignupStatus, PendingSignup, Db, Env}
use entryva.Accounts.{TokenPair, start_session}
use entryva.Signup.{is_pending}
use entryva.Signup.Activation.{
  find_live_pending, claimable, verify, activate, complete_signup, new_estate, new_admin,
  free_phone,
}

pending_of : (t : SignupStatus) → is_pending t ≡ true → t ≡ SignupStatus.pending
pending_of SignupStatus.pending h = refl
pending_of SignupStatus.verified h = cc
pending_of SignupStatus.expired h = cc
pending_of SignupStatus.superseded h = cc

module _ (hash : Text → ℕ) (now : ℕ) (token : Text) (db : Db) where
  pub find_live_pending-ok :
      (p : PendingSignup) (s : Db)
      → find_live_pending hash now token db ≡ (ok p, s)
      → (s ≡ db)
        × (find (λ q. q.token_hash == hash token) db.pending_signups ≡ some p)
        × (p.status ≡ SignupStatus.pending)
        × (now < p.expires_at)
  unfolding find_live_pending
  find_live_pending-ok p s h =
      elim (Option-cases (find (λ q. q.token_hash == hash token) db.pending_signups)) [
        | inl e ↦ absurd (ground arith)
        | inr (q, e) ↦
            (ground arith, ground arith, pending_of p.status (ground arith), ground arith)
      ]

  pub find_live_pending-err :
      (x : Exception) (s : Db) → find_live_pending hash now token db ≡ (err x, s) → s ≡ db
  unfolding find_live_pending
  find_live_pending-err x s h = ground arith

-- A row that was activated, with the estate and its admin.
pub record Activated (env : Env) (user_id : ℕ) (p : PendingSignup) (phone : Option Text) (db s : Db)
    : Type 0 where
  pub rows :
      s.pending_signups ≡ update_where (claimable p.id env.now) (verify env.now) db.pending_signups
  pub estates : s.estates ≡ new_estate env.new_id p ∷ db.estates
  pub users : s.users ≡ new_admin user_id env.new_id phone p ∷ db.users

pub activate-Activated :
    (env : Env) (user_id : ℕ) (p : PendingSignup) (phone : Option Text) (db s : Db) (r : ℕ × ℕ)
    → activate env user_id p phone db ≡ (ok r, s)
    → Activated env user_id p phone db s × (r ≡ (user_id, env.new_id))
unfolding activate
activate-Activated env user_id p phone db s r h =
    (record { rows = ground arith; estates = ground arith; users = ground arith }, ground arith)

module _ (hash : Text → ℕ) (compare_password : Text → Text → Bool)
    (issue_tokens : ℕ → ℕ → TokenPair) (env : Env) (user_id : ℕ) (token : Text) (db : Db) where
  abbrev pub completion : Result (TokenPair × ℕ × ℕ) × Db
  completion = complete_signup hash compare_password issue_tokens env user_id token db

  -- The session that a completed sign-up starts.
  abbrev pub signed_in : Db → Db
  signed_in s = (start_session hash compare_password issue_tokens env user_id s).1

  -- What a completed sign-up has done.
  pub record Completed (r : TokenPair × ℕ × ℕ) : Type 0 where
    pub pending : PendingSignup
    pub found : find (λ q. q.token_hash == hash token) db.pending_signups ≡ some pending
    pub waiting : pending.status ≡ SignupStatus.pending
    pub unexpired : env.now < pending.expires_at
    pub activated : Db
    pub activation : Activated env user_id pending (free_phone pending.admin_phone db) db activated
    pub rows : completion.1.pending_signups ≡ activated.pending_signups
    pub users : completion.1.users ≡ (signed_in activated).users
    pub estates : completion.1.estates ≡ activated.estates
    pub answer : r ≡ (issue_tokens user_id env.now, user_id, env.new_id)

  pub complete_signup-Completed : (r : TokenPair × ℕ × ℕ) → completion.0 ≡ ok r → Completed r
  unfolding complete_signup start_session
  complete_signup-Completed r h = elim (Result-cases (find_live_pending hash env.now token db)) [
    | inr (x, s, e) ↦ absurd (ground arith)
    | inl (p, s, e) ↦
        let (same, found, waiting, unexpired) = find_live_pending-ok hash env.now token db p s e in
        let phone = free_phone p.admin_phone db in
        elim (Result-cases (activate env user_id p phone db)) [
          | inr (x, s', f) ↦ absurd (ground arith)
          | inl (made, s', f) ↦
              let (a, ids) = activate-Activated env user_id p phone db s' made f in
              record {
                pending = p;
                found = found;
                waiting = waiting;
                unexpired = unexpired;
                activated = s';
                activation = a;
                rows = ground arith;
                users = ground arith;
                estates = ground arith;
                answer = ground arith;
              }
        ]
  ]

  -- A sign-up that is not completed, for whatever reason, changes nothing: the link is not used up, and
  -- no estate and no admin are left behind.
  pub complete_signup_atomic : (x : Exception) → completion.0 ≡ err x → completion.1 ≡ db
  unfolding complete_signup start_session
  complete_signup_atomic x h = elim (Result-cases (find_live_pending hash env.now token db)) [
    | inr (y, s, e) ↦ let same = find_live_pending-err hash env.now token db y s e in ground arith
    | inl (p, s, e) ↦
        let (same, _, _, _) = find_live_pending-ok hash env.now token db p s e in
        let phone = free_phone p.admin_phone db in
        elim (Result-cases (activate env user_id p phone db)) [
          | inr (y, s', f) ↦ ground arith
          | inl (made, s', f) ↦ absurd (ground arith)
        ]
  ]

-- ===== src/Signup/Once.antt =====
-- A sign-up link makes one estate, whatever is requested afterwards, and its admin can log in.
use entryva.Base.{
  ℕ, ◌+◌, ◌≡◌, ◌≢◌, refl, subst, Bool, true, false, arith, ◌==◌, ltb, not, Bool-cases, inl, inr,
  List, [], ◌∷◌, All, All-select, All-update_where, All-map_where, All-find, AtMostOne,
  unique_found, find_sound, any, Text,
}
use entryva.Effects.{Result, ok, Result-cases}
use entryva.Store.{SignupStatus, PendingSignup, EmailStatus, Db, Env}
use entryva.Accounts.{TokenPair, is_text}
use entryva.Signup.{StartSignup, pending_for, is_recent, cleanup, supersede, start_signup, week_ms}
use entryva.Signup.Activation.{claimable, verify, complete_signup}
use entryva.Signup.Completed.{complete_signup-Completed, complete_signup_atomic}

-- What sign-ups take from outside of the program.
pub record SignupPlatform : Type 0 where
  pub hash : Text → ℕ
  pub hash_password : Text → Text
  pub compare_password : Text → Text → Bool
  pub issue_tokens : ℕ → ℕ → TokenPair

pub data SignupRequest : Type 0 where
  start : Env → StartSignup → Text → EmailStatus → SignupRequest
  complete : Env → ℕ → Text → SignupRequest

module _ (o : SignupPlatform) where
  -- The database after a request.
  unfoldable pub serve_signup : SignupRequest → Db → Db
  serve_signup (start env dto token delivered) db =
      (start_signup o.hash o.hash_password env dto token delivered db).1
  serve_signup (complete env user_id token) db =
      (complete_signup o.hash o.compare_password o.issue_tokens env user_id token db).1

  -- The database after a sequence of requests.
  unfoldable pub serve_signups : List SignupRequest → Db → Db
  unfolding serve_signup
  serve_signups [] db = db
  serve_signups (r ∷ rs) db = serve_signups rs (serve_signup r db)

-- The rows of a link are used up.
abbrev IsUsed : ℕ → PendingSignup → Type 0
IsUsed h p = p.token_hash ≡ h → p.status ≡ SignupStatus.verified

abbrev AllUsed : ℕ → Db → Type 0
AllUsed h db = All (IsUsed h) db.pending_signups

-- A new sign-up gets another token.
abbrev pub IsFreshToken : (Text → ℕ) → ℕ → SignupRequest → Type 0
IsFreshToken hash h (SignupRequest.start env dto token delivered) = hash token ≢ h
IsFreshToken hash h (SignupRequest.complete env user_id token) = Unit

cleanup-AllUsed : (h now : ℕ) (db : Db) → AllUsed h db → AllUsed h (cleanup now db)
cleanup-AllUsed h now db u =
    All-select (IsUsed h) (IsUsed h) (λ p. not (ltb (p.expires_at + week_ms) now))
      db.pending_signups (λ p i _. i) u

supersede-AllUsed : (h : ℕ) (email : Text) (db : Db) → AllUsed h db → AllUsed h (supersede email db)
supersede-AllUsed h email db u =
    All-update_where (IsUsed h) (pending_for email)
      (λ p. record p { status = SignupStatus.superseded }) db.pending_signups
      (λ p i w t. absurd (ground (arith, i t))) u

start_signup-AllUsed :
    (h : ℕ) (hash : Text → ℕ) (hash_password : Text → Text) (env : Env) (dto : StartSignup)
    (token : Text) (delivered : EmailStatus) (db : Db)
    → hash token ≢ h
    → AllUsed h db
    → AllUsed h (start_signup hash hash_password env dto token delivered db).1
unfolding start_signup
start_signup-AllUsed h hash hash_password env dto token delivered db fresh u =
    let kept = cleanup env.now db in
    let clean = cleanup-AllUsed h env.now db u in
    elim (Bool-cases (any (λ v. is_text v.email dto.email) kept.users)) [
      | inl known ↦ rw known clean
      | inr new ↦ elim (Bool-cases (any (is_recent env.now dto.email) kept.pending_signups)) [
        | inl soon ↦ rw (new, soon) clean
        | inr late ↦
            rw (new, late) (λ e. absurd (fresh e), supersede-AllUsed h dto.email kept clean)
      ]
    ]

module _ (o : SignupPlatform) (env : Env) (user_id : ℕ) (token : Text) (db : Db) where
  abbrev after : Db
  after = (complete_signup o.hash o.compare_password o.issue_tokens env user_id token db).1

  abbrev outcome : Result (TokenPair × ℕ × ℕ)
  outcome = (complete_signup o.hash o.compare_password o.issue_tokens env user_id token db).0

  complete_signup-AllUsed : (h : ℕ) → AllUsed h db → AllUsed h after
  complete_signup-AllUsed h u =
      elim (Result-cases
        (complete_signup o.hash o.compare_password o.issue_tokens env user_id token db)) [
          | inr (x, s, e) ↦
              rw
                (complete_signup_atomic o.hash o.compare_password o.issue_tokens env user_id token
                  db x (rw e))
                u
          | inl (r, s, e) ↦
              let c =
                complete_signup-Completed o.hash o.compare_password o.issue_tokens env user_id token
                  db r (rw e) in
              rw (c.rows, c.activation.rows)
                (All-update_where (IsUsed h) (claimable c.pending.id env.now) (verify env.now)
                  db.pending_signups (λ p i w t. refl) u)
        ]

  -- A completed sign-up uses up the link, the only one with its token.
  used_up :
      (r : TokenPair × ℕ × ℕ)
      → AtMostOne (λ p. p.token_hash == o.hash token) db.pending_signups
      → outcome ≡ ok r
      → AllUsed (o.hash token) after
  used_up r unique h =
      let c =
        complete_signup-Completed o.hash o.compare_password o.issue_tokens env user_id token db r
          h in
      rw (c.rows, c.activation.rows)
        (All-map_where (λ p. (p.token_hash == o.hash token) ≡ true → p ≡ c.pending)
          (IsUsed (o.hash token)) (claimable c.pending.id env.now) (verify env.now)
          db.pending_signups
          (λ p only. elim (Bool-cases (claimable c.pending.id env.now p)) [
            | inl e ↦ rw e (λ t. refl)
            | inr n ↦ rw n (λ t.
                let same : p ≡ c.pending = only (ground arith) in
                let missed : claimable c.pending.id env.now c.pending ≡ false =
                  subst (λ x. claimable c.pending.id env.now x ≡ false) same n in
                absurd (ground (arith, c.waiting, c.unexpired)))
          ])
          (unique_found (λ p. p.token_hash == o.hash token) db.pending_signups c.pending unique
            c.found))

module _ (o : SignupPlatform) (h : ℕ) where
  serve_signup-AllUsed :
      (r : SignupRequest) (db : Db)
      → IsFreshToken o.hash h r
      → AllUsed h db
      → AllUsed h (serve_signup o r db)
  unfolding serve_signup
  serve_signup-AllUsed (SignupRequest.start env dto token delivered) db f u =
      start_signup-AllUsed h o.hash o.hash_password env dto token delivered db f u
  serve_signup-AllUsed (SignupRequest.complete env user_id token) db f u =
      complete_signup-AllUsed o env user_id token db h u

  serve_signups-AllUsed :
      (rs : List SignupRequest) (db : Db)
      → All (IsFreshToken o.hash h) rs
      → AllUsed h db
      → AllUsed h (serve_signups o rs db)
  unfolding serve_signups
  serve_signups-AllUsed [] db f u = u
  serve_signups-AllUsed (r ∷ rs) db f u =
      serve_signups-AllUsed rs (serve_signup o r db) f.1 (serve_signup-AllUsed r db f.0 u)

-- Once a sign-up link, the only one with its token, has made an estate, no sequence of requests makes
-- the link good again: forms sent for any address, under other tokens, and completions of any links,
-- each in the order it comes. A later completion with its token is refused and changes nothing.
pub signup_completes_once :
    (o : SignupPlatform) (env later : Env) (user_id other_id : ℕ) (token : Text) (db : Db)
    (r r' : TokenPair × ℕ × ℕ) (rs : List SignupRequest)
    → AtMostOne (λ p. p.token_hash == o.hash token) db.pending_signups
    → (complete_signup o.hash o.compare_password o.issue_tokens env user_id token db).0 ≡ ok r
    → All (IsFreshToken o.hash (o.hash token)) rs
    → let once =
        (complete_signup o.hash o.compare_password o.issue_tokens env user_id token db).1 in
      let last = serve_signups o rs once in
      let (answer, unchanged) =
        complete_signup o.hash o.compare_password o.issue_tokens later other_id token last in
      (answer ≢ ok r') × (unchanged ≡ last)
signup_completes_once o env later user_id other_id token db r r' rs unique h fresh =
    let once = (complete_signup o.hash o.compare_password o.issue_tokens env user_id token db).1 in
    let last = serve_signups o rs once in
    let used =
      serve_signups-AllUsed o (o.hash token) rs once fresh
        (used_up o env user_id token db r unique h) in
    let refused : (x : TokenPair × ℕ × ℕ)
        → (complete_signup o.hash o.compare_password o.issue_tokens later other_id token last).0
          ≢ ok x =
      λ x e.
        let c =
          complete_signup-Completed o.hash o.compare_password o.issue_tokens later other_id token
            last x e in
        let mine =
          find_sound (λ p. p.token_hash == o.hash token) last.pending_signups c.pending c.found in
        let spent =
          All-find (IsUsed (o.hash token)) (λ p. p.token_hash == o.hash token) last.pending_signups
            c.pending used c.found (ground arith) in
        absurd (cc (c.waiting, spent)) in
    elim (Result-cases
      (complete_signup o.hash o.compare_password o.issue_tokens later other_id token last)) [
        | inl (x, s, e) ↦ absurd (refused x (rw e))
        | inr (x, s, e) ↦ (
          refused r',
          complete_signup_atomic o.hash o.compare_password o.issue_tokens later other_id token last
              x (rw e),
        )
      ]

-- ===== src/Signup/Login.antt =====
-- The admin of a new estate can log in: `completeSignup` of
-- backend/src/modules/signup/signup.service.ts, then `login` of auth.service.ts.
use mathlib.Core.List.{Memᴰ}
use entryva.Base.{
  ℕ, ◌≡◌, refl, sym, ◌∙◌, ap, Bool, true, false, arith, ◌==◌, Option, none, some, Option-cases, inl,
  inr, List, ◌∷◌, find, map, Text, text_eq_iff, ==_refl, eq_of_some, All, All-mem, All-update_where,
}
use entryva.Effects.{ok}
use entryva.Store.{is_active_user, PendingSignup, User, Db, Env}
use entryva.Accounts.{TokenPair, login, login_as, start_session, update_user, goes_by, lower}
use entryva.Signup.Activation.{complete_signup, new_admin, free_phone}
use entryva.Signup.Completed.{complete_signup-Completed}
use entryva.Signup.Once.{SignupPlatform}

-- What `findFirst` without an order promises: a row that matches, and none only where none matches.
pub record IsFindFirst (find_first : (User → Bool) → List User → Option User) : Type 0 where
  pub matches :
      (q : User → Bool) (us : List User) (u : User)
      → find_first q us ≡ some u
      → Memᴰ u us × (q u ≡ true)
  pub exhaustive :
      (q : User → Bool) (us : List User) → find_first q us ≡ none → All (λ u. q u ≡ false) us

-- Where only the first row matches, that is the row.
only_first :
    (find_first : (User → Bool) → List User → Option User) (q : User → Bool) (u : User)
    (us : List User)
    → IsFindFirst find_first
    → q u ≡ true
    → All (λ v. q v ≡ false) us
    → find_first q (u ∷ us) ≡ some u
only_first find_first q u us db e others = elim (Option-cases (find_first q (u ∷ us))) [
  | inl f ↦ absurd (cc (e, (db.exhaustive q (u ∷ us) f).0))
  | inr (v, f) ↦
      let (m, h) = db.matches q (u ∷ us) v f in
      elim m [
        | Memᴰ.head same ↦ f ∙ ap some same
        | Memᴰ.tail n ↦ absurd (cc (h, All-mem (λ v. q v ≡ false) us v others n))
      ]
]

-- A login of an active account with its password.
login-found :
    (o : SignupPlatform) (find_first : (User → Bool) → List User → Option User) (later : Env)
    (identifier password k : Text) (db : Db) (u : User)
    → find_first (goes_by identifier) db.users ≡ some u
    → is_active_user u.status ≡ true
    → u.password_hash ≡ some k
    → o.compare_password password k ≡ true
    → (login o.hash o.compare_password o.issue_tokens find_first later
        (record { identifier = identifier; password = password })
        db).0
      ≡ ok (o.issue_tokens u.id later.now, u.id)
unfolding login login_as start_session
login-found o find_first later identifier password k db u f a e good = ground arith

goes_by_own : (email : Text) (u : User) → u.email ≡ some email → goes_by email u ≡ true
goes_by_own email u e = ground (arith, text_eq_iff (map lower email) (map lower email))

-- Who completed a sign-up can log in at once with the address and the password of the form, where
-- bcrypt accepts the password for the hash that was stored and no account that was there before has
-- the address, in letters of either case, or has it as its phone; whichever matching row the
-- database takes.
pub complete_signup-login :
    (o : SignupPlatform) (find_first : (User → Bool) → List User → Option User) (env later : Env)
    (user_id : ℕ) (token password : Text) (db : Db) (p : PendingSignup) (r : TokenPair × ℕ × ℕ)
    → IsFindFirst find_first
    → find (λ q. q.token_hash == o.hash token) db.pending_signups ≡ some p
    → All (λ u. goes_by p.email u ≡ false) db.users
    → o.compare_password password p.password_hash ≡ true
    → (complete_signup o.hash o.compare_password o.issue_tokens env user_id token db).0 ≡ ok r
    → let completed =
        (complete_signup o.hash o.compare_password o.issue_tokens env user_id token db).1 in
      (login o.hash o.compare_password o.issue_tokens find_first later
        (record { identifier = p.email; password = password })
        completed).0
      ≡ ok (o.issue_tokens user_id later.now, user_id)
unfolding start_session
complete_signup-login o find_first env later user_id token password db p r any_row f others good h =
    let c =
      complete_signup-Completed o.hash o.compare_password o.issue_tokens env user_id token db r h in
    let same : c.pending ≡ p = eq_of_some _ _ (sym c.found ∙ f) in
    let admin = new_admin user_id env.new_id (free_phone c.pending.admin_phone db) c.pending in
    let session = λ (x : User). record x {
      last_login_at = some env.now;
      refresh_token_hash = some (o.hash (o.issue_tokens user_id env.now).refresh_token);
    } in
    let rest = (update_user user_id session db).users in
    let completed =
      (complete_signup o.hash o.compare_password o.issue_tokens env user_id token db).1 in
    let still : All (λ (u : User). goes_by p.email u ≡ false) rest =
      All-update_where (λ u. goes_by p.email u ≡ false) (λ u. u.id == user_id) session db.users
        (λ u e _. e) others in
    let users : completed.users ≡ session admin ∷ rest =
      rw (c.users, c.activation.users, ==_refl user_id) refl in
    let own : goes_by p.email (session admin) ≡ true =
      goes_by_own p.email (session admin) (ap (λ (q : PendingSignup). some q.email) same) in
    let first : find_first (goes_by p.email) completed.users ≡ some (session admin) =
      ap (find_first (goes_by p.email)) users
      ∙ only_first find_first (goes_by p.email) (session admin) rest any_row own still in
    login-found o find_first later p.email password c.pending.password_hash completed
      (session admin) first refl refl (rw same good)

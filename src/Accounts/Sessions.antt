-- ===== src/Accounts/Sessions.antt =====
-- One live refresh token for each account: `refresh`, `logout` and `startSession` of
-- backend/src/modules/auth/auth.service.ts.
use entryva.Base.{
  ℕ, ◌≡◌, ◌≢◌, refl, sym, ◌∙◌, ap, Bool, arith, ◌==◌, Bool-cases, inl, inr, Option, none, some,
  Option-cases, find, find_sound, find-update_where, Text, eq_of_some,
}
use entryva.Effects.{ok, err}
use entryva.Store.{User, Db, Env}
use entryva.Accounts.{TokenPair, update_user, expired_session, refresh_hash, refresh}

-- The hash of the refresh token that a user's session goes by.
abbrev pub session : ℕ → Db → Option ℕ
session user_id db = refresh_hash (find (λ u. u.id == user_id) db.users)

-- An update of the user changes the session that there is.
session-update_user :
    (user_id h : ℕ) (f : User → User) (db : Db)
    → ((u : User) → (f u).id ≡ u.id)
    → session user_id db ≡ some h
    → (u : User) × (session user_id (update_user user_id f db) ≡ (f u).refresh_token_hash)
session-update_user user_id h f db same s =
    elim (Option-cases (find (λ u. u.id == user_id) db.users)) [
      | inl e ↦ absurd (ground arith)
      | inr (u, e) ↦
          let mine = find_sound (λ v. v.id == user_id) db.users u e in
          let step : find (λ v. v.id == user_id) (update_user user_id f db).users ≡ some (f u) =
            find-update_where (λ v. v.id == user_id) f (λ v. v.id == user_id) db.users u
              (λ v. ground (arith, same v)) e
            ∙ rw mine refl in
          (u, ap refresh_hash step)
    ]

ok_injective : {a b : TokenPair} → ok a ≡ ok b → a ≡ b
ok_injective e = cc

module _ (hash : Text → ℕ) (compare_password : Text → Text → Bool)
    (issue_tokens : ℕ → ℕ → TokenPair) (env : Env) (user_id : ℕ) (presented : Text) (db : Db) where
  -- A refresh with the live token of a user's session answers with new tokens, and only the new
  -- refresh token is live then; a refresh with any other token, or without a session, is refused and
  -- leaves the user without a session.
  pub refresh_rotates :
      let (answer, after) = refresh hash compare_password issue_tokens env user_id presented db in
      let tokens = issue_tokens user_id env.now in
      (session user_id db ≡ some (hash presented)
        → (answer ≡ ok tokens) × (session user_id after ≡ some (hash tokens.refresh_token)))
      × (session user_id db ≢ some (hash presented)
          → (answer ≡ err expired_session) × (session user_id after ≡ none))
  unfolding refresh
  refresh_rotates =
      let renewed = some (hash (issue_tokens user_id env.now).refresh_token) in
      elim (Option-cases (session user_id db)) [
        | inl out ↦ (λ s. absurd (cc), λ n. (ground arith, ground arith))
        | inr (h, e) ↦
            let (u, closed) =
              session-update_user user_id h (λ v. record v { refresh_token_hash = none }) db
                (λ v. refl) e in
            let (w, rotated) =
              session-update_user user_id h (λ v. record v { refresh_token_hash = renewed }) db
                (λ v. refl) e in
            elim (Bool-cases (hash presented == h)) [
              | inl live ↦
                  (λ s. (ground arith, ground (arith, rotated)), λ n. absurd (n (ground arith)))
              | inr other ↦
                  (λ s. absurd (ground arith), λ n. (ground arith, ground (arith, closed)))
            ]
      ]

  refresh-ok :
      (tokens : TokenPair)
      → (refresh hash compare_password issue_tokens env user_id presented db).0 ≡ ok tokens
      → session user_id db ≡ some (hash presented)
  unfolding refresh
  refresh-ok tokens h = elim (Option-cases (session user_id db)) [
    | inl out ↦ absurd (ground arith)
    | inr (k, e) ↦ elim (Bool-cases (hash presented == k)) [
      | inl live ↦ ground arith
      | inr other ↦ absurd (ground arith)
    ]
  ]

-- Who presents a refresh token a second time is refused, where the new token has another hash, and from
-- then on no token is taken for the session, the one that replaced it included.
refresh-reuse :
    (hash : Text → ℕ) (compare_password : Text → Text → Bool) (issue_tokens : ℕ → ℕ → TokenPair)
    (env again later : Env) (user_id : ℕ) (presented any_token : Text) (db : Db)
    (tokens : TokenPair)
    → (refresh hash compare_password issue_tokens env user_id presented db).0 ≡ ok tokens
    → hash tokens.refresh_token ≢ hash presented
    → let once = (refresh hash compare_password issue_tokens env user_id presented db).1 in
      let (answer, closed) =
        refresh hash compare_password issue_tokens again user_id presented once in
      (answer ≡ err expired_session)
      × ((refresh hash compare_password issue_tokens later user_id any_token closed).0
          ≡ err expired_session)
refresh-reuse hash compare_password issue_tokens env again later user_id presented any_token db
      tokens h new =
    let live = refresh-ok hash compare_password issue_tokens env user_id presented db tokens h in
    let (answer, rotated) =
      (refresh_rotates hash compare_password issue_tokens env user_id presented db).0 live in
    let issued : tokens ≡ issue_tokens user_id env.now = ok_injective (sym h ∙ answer) in
    let once = (refresh hash compare_password issue_tokens env user_id presented db).1 in
    let (refused, ended) =
      (refresh_rotates hash compare_password issue_tokens again user_id presented once).1 (λ s.
        new (
          ap (λ (t : TokenPair). hash t.refresh_token) issued
          ∙ eq_of_some _ _ (sym rotated ∙ s))) in
    let closed = (refresh hash compare_password issue_tokens again user_id presented once).1 in
    let last =
      (refresh_rotates hash compare_password issue_tokens later user_id any_token closed).1 in
    (refused, (last (λ s. absurd (cc (ended, s)))).0)

-- ===== src/Tests/Onboarding.antt =====
-- Examples for sessions, sign-ups and resident invites.
use entryva.Base.{
  find, mem_of_find, find_sound, none_of_find, ℕ, ◌≡◌, ◌≢◌, refl, arith, none, some, [], ◌∷◌, codes,
  Text, text_eq, Bool,
}
use entryva.Effects.{ok, err}
use entryva.Store.{SignupStatus, PendingSignup, sent, Db}
use entryva.Accounts.{TokenPair, start_session, login, refresh, expired_session}
use entryva.Accounts.Sessions.{session, refresh_rotates}
use entryva.Signup.{StartSignup, start_signup}
use entryva.Signup.Activation.{find_live_pending, activate, complete_signup}
use entryva.Signup.Pending.{OnePending, start_signup-OnePending}
use entryva.Signup.Once.{SignupPlatform, SignupRequest, serve_signups, signup_completes_once}
use entryva.Signup.Login.{IsFindFirst, complete_signup-login}
use entryva.Tests.{sample_hash, sample_db, sample_admin, morning, noon}

-- A bcrypt that keeps passwords as they are.
abbrev same_password : Text → Text → Bool
same_password password k = text_eq password k

abbrev sample_tokens : ℕ → ℕ → TokenPair
sample_tokens user_id now = record {
  access_token = codes "access";
  refresh_token = user_id ∷ now ∷ [];
}

abbrev signed_in : Db
signed_in = record sample_db {
  users = record sample_admin { refresh_token_hash = some (sample_hash (12 ∷ 5 ∷ [])) } ∷ [];
}

refresh_rotates_example :
    let (answer, after) =
      refresh sample_hash same_password sample_tokens morning 12 (12 ∷ 5 ∷ []) signed_in in
    let tokens = sample_tokens 12 25200000 in
    (session 12 signed_in ≡ some (sample_hash (12 ∷ 5 ∷ []))
      → (answer ≡ ok tokens) × (session 12 after ≡ some (sample_hash tokens.refresh_token)))
    × (session 12 signed_in ≢ some (sample_hash (12 ∷ 5 ∷ []))
        → (answer ≡ err expired_session) × (session 12 after ≡ none))
refresh_rotates_example =
    refresh_rotates sample_hash same_password sample_tokens morning 12 (12 ∷ 5 ∷ []) signed_in

abbrev form : StartSignup
form = record {
  estate_name = codes "Teak";
  address = codes "1 Main";
  city = codes "Ikeja";
  state = codes "Lagos";
  country = codes "NG";
  timezone = codes "Africa/Lagos";
  contact_phone = none;
  admin_name = codes "Uche";
  email = codes "uche@teak.ng";
  admin_phone = none;
  password = codes "long-secret";
}

abbrev uche : PendingSignup
uche = record {
  id = 70;
  email = codes "uche@teak.ng";
  token_hash = sample_hash (codes "link");
  password_hash = codes "long-secret";
  admin_name = codes "Uche";
  admin_phone = none;
  estate_name = codes "Teak";
  address = codes "1 Main";
  city = codes "Ikeja";
  state = codes "Lagos";
  country = codes "NG";
  timezone = codes "Africa/Lagos";
  contact_phone = none;
  status = SignupStatus.pending;
  expires_at = 86400000;
  verified_at = none;
  created_at = 1;
}

abbrev waiting : Db
waiting = record sample_db { pending_signups = uche ∷ [] }

start_signup-OnePending_example :
    OnePending (start_signup sample_hash (λ t. t) noon form (codes "link-2") sent waiting).1
start_signup-OnePending_example =
    start_signup-OnePending sample_hash (λ t. t) noon form (codes "link-2") sent waiting
      (λ email. (λ e. tt, tt))

abbrev signups : SignupPlatform
signups = record {
  hash = sample_hash;
  hash_password = λ t. t;
  compare_password = same_password;
  issue_tokens = sample_tokens;
}

completed :
    (complete_signup sample_hash same_password sample_tokens morning 71 (codes "link") waiting).0
    ≡ ok (sample_tokens 71 25200000, 71, 100)
unfolding complete_signup find_live_pending activate start_session text_eq
completed = refl

signup_completes_once_example :
    let once =
      (complete_signup sample_hash same_password sample_tokens morning 71
        (codes "link")
        waiting).1 in
    let last =
      serve_signups signups (SignupRequest.start noon form (codes "link-2") sent ∷ []) once in
    let (answer, unchanged) =
      complete_signup sample_hash same_password sample_tokens noon 72 (codes "link") last in
    (answer ≢ ok (sample_tokens 72 39600000, 72, 101)) × (unchanged ≡ last)
signup_completes_once_example =
    signup_completes_once signups morning noon 71 72 (codes "link") waiting
      (sample_tokens 71 25200000, 71, 100) (sample_tokens 72 39600000, 72, 101)
      (SignupRequest.start noon form (codes "link-2") sent ∷ []) (λ e. tt, tt) completed
      (omega arith, tt)

-- A database that takes the newest row.
newest : IsFindFirst find
newest = record {
  matches = λ q us u f. (mem_of_find q us u f, find_sound q us u f);
  exhaustive = λ q us f. none_of_find q us f;
}

complete_signup-login_example :
    let after =
      (complete_signup sample_hash same_password sample_tokens morning 71
        (codes "link")
        waiting).1 in
    (login sample_hash same_password sample_tokens find noon
      (record { identifier = codes "uche@teak.ng"; password = codes "long-secret" })
      after).0
    ≡ ok (sample_tokens 71 39600000, 71)
unfolding text_eq
complete_signup-login_example =
    complete_signup-login signups find morning noon 71 (codes "link") (codes "long-secret") waiting
      uche (sample_tokens 71 25200000, 71, 100) newest refl (refl, tt) refl completed

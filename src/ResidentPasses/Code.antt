-- ===== src/ResidentPasses/Code.antt =====
-- The code that the page of a pass shows: `publicView` of
-- backend/src/modules/recurring-passes/recurring-passes.service.ts with `dailyCodeFor`.
use entryva.Base.{
  ℕ, zero, suc, ◌≤◌, ◌≡◌, ◌≢◌, refl, ◌∙◌, ap, ap₂, Bool, true, false, arith, ◌==◌, ◌&&◌, ◌||◌, not,
  leb, Bool-cases, inl, inr, Option, some, Option-cases, [], ◌∷◌, ◌++◌, All, find, any, length,
  take, Text, upper, to_upper, trim, trim_id, is_space, NoSpace,
}
use entryva.Calendar.{DateKey, LocalMoment, Parts, local_moment}
use entryva.Effects.{ok}
use entryva.PassQr.{is_alphanumeric, is_token, is_code, separator, parse_recurring_qr}
use entryva.PassQr.RoundTrip.{parse_recurring_qr-join}
use entryva.PassStanding.{zone_of}
use entryva.RecurringPass.{daily_code_for, code_is_current}
use entryva.RecurringPass.Code.{code_is_current_iff}
use entryva.Store.{RecurringPass, Db, Env}
use entryva.ResidentPasses.Link.{PublicPass, public_view, bad_device}

-- A digit of a hexadecimal digest, as Node prints it.
abbrev pub is_hex : ℕ → Bool
is_hex c = (leb 48 c && leb c 57) || (leb 97 c && leb c 102)

hex_upper :
    (c : ℕ)
    → is_hex c ≡ true
    → (not (is_alphanumeric (upper c)) ≡ false)
      × (is_space (upper c) ≡ false)
      × (upper (upper c) ≡ upper c)
hex_upper c h = (ground arith, ground arith, ground arith)

-- The first characters of a digest in capitals.
code_plain :
    (n : ℕ) (t : Text)
    → All (λ c. is_hex c ≡ true) t
    → (any (λ c. not (is_alphanumeric c)) (to_upper (take n t)) ≡ false)
      × NoSpace (to_upper (take n t))
      × (to_upper (to_upper (take n t)) ≡ to_upper (take n t))
unfolding to_upper
code_plain zero t h = (refl, tt, refl)
code_plain (suc n) [] h = (refl, tt, refl)
code_plain (suc n) (c ∷ t) h =
    let (plain, space, twice) = hex_upper c h.0 in
    let (plains, spaces, twices) = code_plain n t h.1 in
    (rw plain plains, (space, spaces), ap₂ ◌∷◌ twice twices)

code_length : (n : ℕ) (t : Text) → n ≤ length t → length (to_upper (take n t)) ≡ n
unfolding to_upper
code_length zero t h = refl
code_length (suc n) [] h = absurd (omega arith)
code_length (suc n) (c ∷ t) h = ap suc (code_length n t (omega arith))

not_nil : (t : Text) → length t ≡ 10 → t ≢ []
not_nil t h e = absurd (ground (arith, ap (length {A = ℕ}) e))

module _ (hmac_hex : ℕ → DateKey → Text)
    (hex : (k : ℕ) (d : DateKey) → All (λ c. is_hex c ≡ true) (hmac_hex k d))
    (long : (k : ℕ) (d : DateKey) → 10 ≤ length (hmac_hex k d)) where
  daily_code-is_code : (k : ℕ) (d : DateKey) → is_code (daily_code_for hmac_hex k d) ≡ true
  unfolding daily_code_for is_code
  daily_code-is_code k d =
      let (plain, _, _) = code_plain 10 (hmac_hex k d) (hex k d) in
      rw (plain, code_length 10 (hmac_hex k d) (long k d)) refl

  daily_code-trimmed :
      (k : ℕ) (d : DateKey)
      → let c = daily_code_for hmac_hex k d in (c ≢ []) × (to_upper (trim c) ≡ c)
  unfolding daily_code_for
  daily_code-trimmed k d =
      let (_, spaces, twice) = code_plain 10 (hmac_hex k d) (hex k d) in
      let c = to_upper (take 10 (hmac_hex k d)) in
      (not_nil c (code_length 10 (hmac_hex k d) (long k d)), ap to_upper (trim_id c spaces) ∙ twice)

module _ (hash : Text → ℕ) (hmac_hex : ℕ → DateKey → Text) (format_to_parts : Text → ℕ → Parts)
    (env : Env) (token : Text) (device : Option Text) (db : Db) (p : RecurringPass) (v : PublicPass)
    (c : Text) (found : find (λ y. y.rules.token_hash == hash token) db.recurring_passes ≡ some p)
    (opened : (public_view hash hmac_hex format_to_parts env token device db).0 ≡ ok v)
    (shown : v.code ≡ some c) where
  abbrev local_now : LocalMoment
  local_now =
      local_moment format_to_parts (zone_of (find (λ e. e.id == p.estate_id) db.estates)) env.now

  shown-code :
      (is_token token ≡ true) × (c ≡ daily_code_for hmac_hex p.rules.token_hash local_now.date)
  unfolding public_view
  shown-code = elim (Bool-cases (is_token token)) [
    | inr bad ↦ absurd (ground arith)
    | inl good ↦ elim (Bool-cases (bad_device device)) [
      | inl bad ↦ absurd (ground arith)
      | inr known ↦ elim (Option-cases p.linked_device) [
        | inl new ↦ (good, ground arith)
        | inr (d, old) ↦ (good, ground arith)
      ]
    ]
  ]

  -- The code that the page of a pass shows is current at that moment in the estate's zone, and the QR
  -- code made of the link's token and it is read back as the two, where HMAC digests are at least ten
  -- lower-case hexadecimal digits.
  pub shown_code_scans :
      ((k : ℕ) (d : DateKey) → All (λ x. is_hex x ≡ true) (hmac_hex k d))
      → ((k : ℕ) (d : DateKey) → 10 ≤ length (hmac_hex k d))
      → (code_is_current hmac_hex p.rules.token_hash (some c) local_now ≡ true)
        × (parse_recurring_qr (token ++ separator ∷ c) ≡ some (record { token = token; code = c }))
  shown_code_scans hex long =
      let (good, today) = shown-code in
      let (some_text, same) =
        daily_code-trimmed hmac_hex hex long p.rules.token_hash local_now.date in
      let whole = daily_code-is_code hmac_hex hex long p.rules.token_hash local_now.date in
      (
        (code_is_current_iff hmac_hex p.rules.token_hash c local_now).1
            (rw today some_text, inl (rw today same)),
        (parse_recurring_qr-join token c [] good (rw today whole)).0,
      )

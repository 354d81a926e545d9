-- ===== src/OfflineDevice/Agreement.antt =====
-- A gate device with a fresh manifest decides as the server does: `verifyOffline` of
-- frontend/src/offline/verify-offline.ts against `verifyByCode` and `verifyByQr` of
-- backend/src/modules/verification/verification.service.ts.
use entryva.Base.{
  ℕ, ◌≤◌, ◌≡◌, refl, sym, ap, ◌∙◌, Bool, true, false, ◌&&◌, arith, some, List, [], ◌∷◌, map, length,
  find, find_sound, select, any, Text, trim, to_upper, ◌==◌, All, All-select, AtMostOne,
  AtMostOne-select, take_all, select-All, unique_found, any-select, All-trivial,
}
use entryva.Effects.{ok}
use entryva.Store.{Invitation, Method, qr, manual_code, Db, Env, SecurityContext}
use entryva.Verification.{outcome_of, view, verify_by_code, verify_by_qr}
use entryva.Verification.Outcome.{own_answer}
use entryva.OfflineSync.{ManifestEntry, SignedEntry, manifest_entry, listed, get_manifest}
use entryva.OfflineDevice.{
  put_all, DeviceStore, ManifestResponse, entry_key, has_queued_allow, is_signed, offline_outcome,
  refresh_manifest, find_match, verify_offline,
}
use entryva.OfflineDevice.Cache.{IsOnly, find-put_all}

-- The outcomes of the two ladders, where no entry of the invitation waits on the device.
offline_outcome-outcome_of :
    (now issued_at : ℕ) (i : Invitation)
    → offline_outcome now false (manifest_entry issued_at i) ≡ outcome_of now i
unfolding offline_outcome outcome_of
offline_outcome-outcome_of now issued_at i = ground arith

module _ {A B : Type 0} where
  All-map {κ ι} :
      (P : A → Type κ) (Q : B → Type ι) (f : A → B) (xs : List A)
      → ((x : A) → P x → Q (f x))
      → All P xs
      → All Q (map f xs)
  All-map P Q f [] k h = tt
  All-map P Q f (x ∷ xs) k h = (k x h.0, All-map P Q f xs k h.1)

  any-map : (q : B → Bool) (f : A → B) (xs : List A) → any q (map f xs) ≡ any (λ x. q (f x)) xs
  any-map q f [] = refl
  any-map q f (x ∷ xs) = ground (arith, any-map q f xs)

  AtMostOne-map :
      (q : B → Bool) (f : A → B) (xs : List A)
      → AtMostOne (λ x. q (f x)) xs
      → AtMostOne q (map f xs)
  AtMostOne-map q f [] h = tt
  AtMostOne-map q f (x ∷ xs) h = (
    λ e. All-map (λ x. q (f x) ≡ false) (λ y. q y ≡ false) f xs (λ x k. k) (h.0 e),
    AtMostOne-map q f xs h.1,
  )

-- The device after it has refreshed its manifest from the server.
abbrev pub refreshed :
    (Text → ℕ)
    → (ManifestEntry → ℕ)
    → (ℕ → ManifestEntry → ℕ → Bool)
    → ℕ
    → Env
    → SecurityContext
    → Db
    → DeviceStore
    → DeviceStore
refreshed hash sign verify key issue ctx db store =
    let response : ManifestResponse = record {
      issued_at = issue.now;
      public_key = key;
      entries = get_manifest sign issue ctx db;
    } in
    (refresh_manifest hash verify response store).1

module _ (hash : Text → ℕ) (verify : ℕ → ManifestEntry → ℕ → Bool) (sign : ManifestEntry → ℕ)
    (key : ℕ) (signed : (e : ManifestEntry) → verify key e (sign e) ≡ true) (issue : Env)
    (ctx : SecurityContext) (db : Db) (store : DeviceStore) (i : Invitation)
    (few : length (select (listed issue ctx) db.invitations) ≤ 2000)
    (home : i.estate_id ≡ ctx.estate_id) (lasts : issue.now ≤ i.valid_until)
    (unique_id : AtMostOne (λ x. x.id == i.id) db.invitations)
    (nothing_waits : has_queued_allow i.id store ≡ false) where
  abbrev device : DeviceStore
  device = refreshed hash sign verify key issue ctx db store

  abbrev signed_entry : Invitation → SignedEntry
  signed_entry x = record {
    unsigned = manifest_entry issue.now x;
    signature = sign (manifest_entry issue.now x);
  }

  abbrev rows : List Invitation
  rows = select (listed issue ctx) db.invitations

  device-manifest : device.manifest ≡ put_all entry_key (map signed_entry rows) []
  unfolding refresh_manifest get_manifest
  device-manifest =
      ap (λ xs. put_all entry_key (select (is_signed hash verify key) (map signed_entry xs)) [])
        (take_all 2000 rows few)
      ∙ ap (λ es. put_all entry_key es [])
          (select-All (is_signed hash verify key) (map signed_entry rows) (
            All-map (λ x. Unit {0}) (λ e. is_signed hash verify key e ≡ true) signed_entry rows
              (λ x _. signed (manifest_entry issue.now x)) (All-trivial rows)))

  -- The query `p` on the table and the query `q` on the manifest find the same invitation.
  find-device :
      (p : Invitation → Bool) (q : SignedEntry → Bool)
      → AtMostOne p db.invitations
      → find p db.invitations ≡ some i
      → ((x : Invitation) → listed issue ctx x ≡ true → q (signed_entry x) ≡ p x)
      → find q device.manifest ≡ some (signed_entry i)
  find-device p q unique f same =
      let here : listed issue ctx i ≡ true = ground arith in
      let one =
        All-select (λ x. p x ≡ true → x ≡ i) (λ x. q (signed_entry x) ≡ true → x ≡ i)
          (listed issue ctx) db.invitations (λ x k l e. k (sym (same x l) ∙ e))
          (unique_found p db.invitations i unique f) in
      ap (find q) device-manifest
      ∙ find-put_all entry_key q (signed_entry i) (map signed_entry rows)
          (All-map (λ x. q (signed_entry x) ≡ true → x ≡ i) (IsOnly q (signed_entry i)) signed_entry
            rows (λ x k e. ap signed_entry (k e)) one)
          (AtMostOne-map (λ e. entry_key e == i.id) signed_entry rows
            (AtMostOne-select (λ x. x.id == i.id) (listed issue ctx) db.invitations unique_id))
          (any-map q signed_entry rows
            ∙ any-select p (listed issue ctx) (λ x. q (signed_entry x)) db.invitations i f here
                (same i here ∙ find_sound p db.invitations i f))

  offline_answer :
      (raw : Text) (method : Method) (now : ℕ)
      → find_match hash verify raw method device.manifest ≡ some (signed_entry i)
      → verify_offline hash verify raw method now device
        ≡ record { outcome = outcome_of now i; invitation = some (view i) }
  unfolding verify_offline refresh_manifest
  offline_answer raw method now f = ground (
    arith,
    signed (manifest_entry issue.now i),
    nothing_waits,
    offline_outcome-outcome_of now issue.now i,
  )

  -- A device refreshed its manifest when the estate had at most 2000 invitations that were not
  -- over, this one among them; entries that the server signs pass the device's check, ids are
  -- unique, and no entry with this invitation waits on the device. Then, as long as the server's
  -- tables are as they were, the device answers a typed code that is this invitation's alone as the
  -- server does, at any time.
  pub verify_offline-verify_by_code :
      (now : Env) (typed : Text)
      → AtMostOne
          (λ x. x.estate_id == ctx.estate_id && x.display_code_hash == hash (to_upper (trim typed)))
          db.invitations
      → find
          (λ x. x.estate_id == ctx.estate_id && x.display_code_hash == hash (to_upper (trim typed)))
          db.invitations
        ≡ some i
      → (verify_by_code hash now ctx typed db).0
        ≡ ok (verify_offline hash verify typed manual_code now.now device)
  unfolding verify_by_code
  verify_offline-verify_by_code now typed unique f =
      own_answer now ctx _ i manual_code false db f home
      ∙ ap (λ r. ok r)
          (sym (
            offline_answer typed manual_code now.now
              (find-device _ _ unique f (λ x l. ground arith))))

  -- A device refreshed its manifest when the estate had at most 2000 invitations that were not
  -- over, this one among them; entries that the server signs pass the device's check, ids are
  -- unique, and no entry with this invitation waits on the device. Then, as long as the server's
  -- tables are as they were, the device answers a scan of a token that is this invitation's alone
  -- as the server does, at any time.
  verify_offline-verify_by_qr :
      (now : Env) (token : Text) (offline : Bool)
      → AtMostOne (λ x. x.secure_token_hash == hash token) db.invitations
      → find (λ x. x.secure_token_hash == hash token) db.invitations ≡ some i
      → (verify_by_qr hash now ctx token offline db).0
        ≡ ok (verify_offline hash verify token qr now.now device)
  unfolding verify_by_qr
  verify_offline-verify_by_qr now token offline unique f =
      own_answer now ctx _ i qr offline db f home
      ∙ ap (λ r. ok r)
          (sym (offline_answer token qr now.now (find-device _ _ unique f (λ x l. refl))))

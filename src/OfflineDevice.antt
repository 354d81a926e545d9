-- ===== src/OfflineDevice.antt =====
-- A gate device without a connection: frontend/src/offline/verify-offline.ts, db.ts, manifest.ts and
-- sync-queue.ts of that folder. SHA-256 and the check of a signature are parameters, and a public
-- key is a number. Identifiers are compared as numbers, in the order of IndexedDB's keys.
pub mod Cache
pub mod Agreement
pub mod Queue
use entryva.Base.{
  ℕ, suc, ◌+◌, ◌-◌, Bool, true, false, ◌&&◌, ◌||◌, not, ltb, ◌==◌, if◌then◌else◌, Option, none,
  some, List, [], ◌∷◌, ◌++◌, find, select, any, length, Text, trim, to_upper, is_none,
}
use entryva.Extension.{InvitationStatus, is_revoked, is_used, is_one_time}
use entryva.Store.{
  VerificationOutcome, valid, expired, not_yet_valid, revoked, already_used, not_found, Method, qr,
  manual_code, OfflineDecision, OfflineEvent,
}
use entryva.Verification.{InvitationView, VerificationResult}
use entryva.OfflineSync.{ManifestEntry, SignedEntry, SyncResult, synced, already_synced, failed}

-- The object stores of db.ts.
pub record DeviceStore : Type 0 where
  pub manifest : List SignedEntry
  pub sync_queue : List OfflineEvent
  pub public_key : Option ℕ
  pub issued_at : Option ℕ

-- `put` of an object store: one value for each key, in the order of the keys.
abbrev pub put {ℓ} : {A : Type ℓ} → (A → ℕ) → A → List A → List A
put key x [] = x ∷ []
put key x (y ∷ ys) =
    if key x == key y then x ∷ ys else if ltb (key x) (key y) then x ∷ y ∷ ys else y ∷ put key x ys

-- `for (const entry of entries) await put(entry)`
abbrev pub put_all {ℓ} : {A : Type ℓ} → (A → ℕ) → List A → List A → List A
put_all key [] s = s
put_all key (x ∷ xs) s = put_all key xs (put key x s)

abbrev pub entry_key : SignedEntry → ℕ
entry_key e = e.unsigned.invitation_id

abbrev pub event_key : OfflineEvent → ℕ
event_key e = e.client_event_id

-- `replaceManifest`
abbrev pub replace_manifest : List SignedEntry → ℕ → ℕ → DeviceStore → DeviceStore
replace_manifest entries key issued_at s = record s {
  manifest = put_all entry_key entries [];
  public_key = some key;
  issued_at = some issued_at;
}

-- `enqueueEvent`
abbrev pub enqueue_event : OfflineEvent → DeviceStore → DeviceStore
enqueue_event event s = record s { sync_queue = put event_key event s.sync_queue }

-- `removeQueuedEvent`
abbrev pub remove_queued_event : ℕ → DeviceStore → DeviceStore
remove_queued_event id s = record s {
  sync_queue = select (λ e. not (event_key e == id)) s.sync_queue;
}

abbrev pub is_allowed : OfflineDecision → Bool
is_allowed OfflineDecision.allowed = true
is_allowed OfflineDecision.denied = false

-- `hasQueuedAllow`
abbrev pub has_queued_allow : ℕ → DeviceStore → Bool
has_queued_allow id s = any (λ e. e.invitation_id == id && is_allowed e.decision) s.sync_queue

-- `ManifestResponse`
pub record ManifestResponse : Type 0 where
  pub issued_at : ℕ
  pub public_key : ℕ
  pub entries : List SignedEntry

pub record ManifestRefreshResult : Type 0 where
  pub cached : ℕ
  pub rejected : ℕ
  pub issued_at : ℕ

-- The ladder of outcomes in `verifyOffline`, by whether an ALLOWED event of the invitation waits.
unfoldable pub offline_outcome : ℕ → Bool → ManifestEntry → VerificationOutcome
offline_outcome now queued e =
    if is_revoked e.status
    then revoked
    else if is_one_time e.entry_policy && (is_used e.status || queued)
    then already_used
    else if ltb e.valid_until now
    then expired
    else if ltb now e.valid_from
    then not_yet_valid
    else valid

abbrev pub view_of_entry : ManifestEntry → InvitationView
view_of_entry e = record {
  invitation_id = e.invitation_id;
  visitor_name = e.visitor_name;
  resident_name = e.resident_name;
  resident_phone = e.resident_phone;
  apartment_label = e.apartment_label;
  valid_until = e.valid_until;
  status = e.status;
  entry_policy = e.entry_policy;
}

abbrev pub nothing_found : VerificationResult
nothing_found = record { outcome = not_found; invitation = none }

module _ (hash : Text → ℕ) (verify : ℕ → ManifestEntry → ℕ → Bool) where
  abbrev pub is_signed : ℕ → SignedEntry → Bool
  is_signed key e = verify key e.unsigned e.signature

  -- `refreshManifest`, on the answer of the server.
  unfoldable pub refresh_manifest :
      ManifestResponse → DeviceStore → ManifestRefreshResult × DeviceStore
  refresh_manifest response s =
      let verified = select (is_signed response.public_key) response.entries in
      (
        record {
          cached = length verified;
          rejected = length (select (λ e. not (is_signed response.public_key e)) response.entries);
          issued_at = response.issued_at;
        },
        replace_manifest verified response.public_key response.issued_at s,
      )

  -- `findMatch`
  abbrev pub find_match : Text → Method → List SignedEntry → Option SignedEntry
  find_match raw manual_code entries =
      find (λ e. e.unsigned.display_code_hash == hash (to_upper (trim raw))) entries
  find_match raw qr entries = find (λ e. e.unsigned.secure_token_hash == hash raw) entries

  -- What `verifyOffline` answers for a match.
  abbrev pub answer_for : ℕ → ℕ → DeviceStore → SignedEntry → VerificationResult
  answer_for now key s e =
      if is_signed key e
      then record {
        outcome = offline_outcome now (has_queued_allow e.unsigned.invitation_id s) e.unsigned;
        invitation = some (view_of_entry e.unsigned);
      }
      else nothing_found

  abbrev pub answer_to : ℕ → ℕ → DeviceStore → Option SignedEntry → VerificationResult
  answer_to now key s none = nothing_found
  answer_to now key s (some e) = answer_for now key s e

  abbrev pub answer_with : Text → Method → ℕ → DeviceStore → Option ℕ → VerificationResult
  answer_with raw method now s none = nothing_found
  answer_with raw method now s (some key) = answer_to now key s (find_match raw method s.manifest)

  -- `verifyOffline`
  unfoldable pub verify_offline : Text → Method → ℕ → DeviceStore → VerificationResult
  verify_offline raw method now s = answer_with raw method now s s.public_key

-- `result.clientEventId`
abbrev pub result_id : SyncResult → ℕ
result_id (synced id) = id
result_id (already_synced id _) = id
result_id (failed id _) = id

abbrev pub is_failed : SyncResult → Bool
is_failed (failed _ _) = true
is_failed _ = false

-- The loop of `flushOfflineQueue` over the results of the server.
unfoldable pub settle :
    List SyncResult → (ℕ × List SyncResult) → DeviceStore → (ℕ × List SyncResult) × DeviceStore
settle [] counts s = (counts, s)
settle (r ∷ rs) (n, failures) s =
    settle rs (if is_failed r then (n, failures ++ r ∷ []) else (n + 1, failures))
      (remove_queued_event (result_id r) s)

-- `flushOfflineQueue`; `send` is the request, with `none` when it throws.
unfoldable pub flush_offline_queue :
    (List OfflineEvent → Option (List SyncResult))
    → DeviceStore
    → Option (ℕ × List SyncResult) × DeviceStore
unfolding settle
flush_offline_queue send s =
    if length s.sync_queue == 0 then (some (0, []), s) else elim (send s.sync_queue) [
      | none ↦ (none, s)
      | some results ↦ let (counts, s') = settle results (0, []) s in (some counts, s')
    ]

-- ===== src/Tests/Offline.antt =====
-- Examples for gate devices without a connection.
use entryva.Base.{
  find, ◌&&◌, to_upper, trim, ==_refl, ℕ, ◌+◌, ◌≡◌, refl, Bool, true, arith, All, some, none, List,
  [], ◌∷◌, codes, length, ◌==◌,
}
use entryva.Effects.{ok}
use entryva.Store.{Env, OfflineEvent, qr, manual_code}
use entryva.Verification.{view, verify_by_code}
use entryva.OfflineSync.{ManifestEntry, SyncResult, sync_batch, get_manifest}
use entryva.OfflineSync.Idempotent.{IsRepeat, sync_batch_retry}
use entryva.OfflineDevice.{
  DeviceStore, enqueue_event, refresh_manifest, verify_offline, flush_offline_queue,
}
use entryva.OfflineDevice.Agreement.{refreshed, verify_offline-verify_by_code}
use entryva.OfflineDevice.Queue.{server, flush_offline_queue-empties}
use entryva.Tests.{
  sample_hash, sample_invitation, sample_db, morning, noon, sample_officer, sample_event,
}

-- A signature is the hash of the visitor's name, moved by the key.
abbrev sample_sign : ManifestEntry → ℕ
sample_sign e = sample_hash e.visitor_name + 5

abbrev sample_verify : ℕ → ManifestEntry → ℕ → Bool
sample_verify key e signature = sample_hash e.visitor_name + key == signature

sample_signed : (e : ManifestEntry) → sample_verify 5 e (sample_sign e) ≡ true
sample_signed e = ==_refl (sample_hash e.visitor_name + 5)

abbrev empty_store : DeviceStore
empty_store = record { manifest = []; sync_queue = []; public_key = none; issued_at = none }

abbrev ready : DeviceStore
ready =
    refreshed sample_hash sample_sign sample_verify 5 morning sample_officer sample_db empty_store

abbrev sample_batch : List (Env × OfflineEvent)
sample_batch = (noon, sample_event) ∷ []

sync_batch_retry_example :
    let after = (sync_batch sample_officer (codes "gate") sample_batch sample_db).1 in
    ((sync_batch sample_officer (codes "gate") sample_batch after).1 ≡ after)
    × All IsRepeat (sync_batch sample_officer (codes "gate") sample_batch after).0
sync_batch_retry_example =
    sync_batch_retry sample_officer sample_officer (codes "gate") (codes "gate") sample_batch
      sample_batch sample_db refl

found_by_code :
    find
      (λ x.
        x.estate_id == 1 && x.display_code_hash == sample_hash (to_upper (trim (codes "abcdef"))))
      sample_db.invitations
    ≡ some sample_invitation
unfolding to_upper trim
found_by_code = refl

verify_offline-verify_by_code_example :
    (verify_by_code sample_hash noon sample_officer (codes "abcdef") sample_db).0
    ≡ ok (verify_offline sample_hash sample_verify (codes "abcdef") manual_code noon.now ready)
verify_offline-verify_by_code_example =
    verify_offline-verify_by_code sample_hash sample_verify sample_sign 5 sample_signed morning
      sample_officer sample_db empty_store sample_invitation (omega arith) refl (omega arith)
      (λ e. tt, tt) refl noon (codes "abcdef") (λ e. tt, tt) found_by_code

abbrev queued : DeviceStore
queued = enqueue_event sample_event ready

flush_offline_queue-empties_example :
    let (r, after) =
      flush_offline_queue (server sample_officer (codes "gate") sample_db sample_batch) queued in
    (after.sync_queue ≡ [])
    × ((n : ℕ) × (failures : List SyncResult) × (r ≡ some (n, failures))
        × (n + length failures ≡ 1))
unfolding refresh_manifest
flush_offline_queue-empties_example =
    flush_offline_queue-empties sample_officer (codes "gate") sample_db sample_batch queued refl

shown :
    (verify_offline sample_hash sample_verify (codes "token") qr morning.now ready).invitation
    ≡ some (view sample_invitation)
unfolding verify_offline refresh_manifest get_manifest
shown = refl

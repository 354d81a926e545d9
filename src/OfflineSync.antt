-- ===== src/OfflineSync.antt =====
-- What gate devices cache and report back: backend/src/modules/offline-sync/offline-sync.service.ts.
-- The signature on a manifest entry is a parameter.
pub mod Idempotent
use entryva.Base.{
  ℕ, ◌<◌, Bool, true, false, ◌&&◌, leb, ◌==◌, if◌then◌else◌, Option, none, some, List, [], ◌∷◌, map,
  find, select, take, Text,
}
use entryva.Effects.{Action, Exception, Result, ok, err}
use entryva.Extension.{InvitationStatus, EntryPolicy}
use entryva.Store.{
  Method, Invitation, OfflineDecision, OfflineEvent, SyncStatus, OfflineSyncEvent, OfflineEventType,
  entry_event, deny_event, Db, Env, log, offline_event_synced, SecurityContext,
}
use entryva.EntryExit.{record_entry, deny_entry}

pub record ManifestEntry : Type 0 where
  pub invitation_id : ℕ
  pub secure_token_hash : ℕ
  pub display_code_hash : ℕ
  pub visitor_name : Text
  pub resident_name : Text
  pub resident_phone : Option Text
  pub apartment_label : Text
  pub valid_from : ℕ
  pub valid_until : ℕ
  pub entry_policy : EntryPolicy
  pub status : InvitationStatus
  pub issued_at : ℕ

-- `SignedOfflineManifestEntry`
pub record SignedEntry : Type 0 where
  pub unsigned : ManifestEntry
  pub signature : ℕ

abbrev pub manifest_entry : ℕ → Invitation → ManifestEntry
manifest_entry issued_at i = record {
  invitation_id = i.id;
  secure_token_hash = i.secure_token_hash;
  display_code_hash = i.display_code_hash;
  visitor_name = i.visitor.full_name;
  resident_name = i.resident.display_name;
  resident_phone = i.resident.phone;
  apartment_label = i.apartment.flat_number;
  valid_from = i.valid_from;
  valid_until = i.valid_until;
  entry_policy = i.entry_policy;
  status = i.status;
  issued_at = issued_at;
}

-- An invitation that a manifest lists: of the estate, and not over.
abbrev pub listed : Env → SecurityContext → Invitation → Bool
listed env ctx i = i.estate_id == ctx.estate_id && leb env.now i.valid_until

-- `getManifest`; `sign` signs the canonical text of an entry.
unfoldable pub get_manifest : (ManifestEntry → ℕ) → Env → SecurityContext → Db → List SignedEntry
get_manifest sign env ctx db =
    map
      (λ i. record {
        unsigned = manifest_entry env.now i;
        signature = sign (manifest_entry env.now i);
      })
      (take 2000 (select (listed env ctx) db.invitations))

pub data SyncResult : Type 0 where
  synced : ℕ → SyncResult
  already_synced : ℕ → SyncStatus → SyncResult
  failed : ℕ → Exception → SyncResult

abbrev pub event_type_of : OfflineDecision → OfflineEventType
event_type_of OfflineDecision.allowed = entry_event
event_type_of OfflineDecision.denied = deny_event

-- The row that remembers an event, with the exception that it failed by.
abbrev pub sync_row :
    SecurityContext → Text → OfflineEvent → SyncStatus → Option Exception → OfflineSyncEvent
sync_row ctx device event status error = record {
  estate_id = ctx.estate_id;
  officer_id = ctx.officer_id;
  device_id = device;
  event_type = event_type_of event.decision;
  payload = event;
  status = status;
  error = error;
  client_event_id = event.client_event_id;
}

abbrev pub remember : OfflineSyncEvent → Db → Db
remember row db = record db { offline_sync_events = row ∷ db.offline_sync_events }

-- The replay of the decision through the online path.
abbrev pub replay : Env → SecurityContext → OfflineDecision → OfflineEvent → Action Db (Unit {0})
replay env ctx OfflineDecision.allowed event db =
    let (r, db') = record_entry env ctx event.invitation_id db in
    elim r [ ok _ ↦ (ok tt, db') | err e ↦ (err e, db') ]
replay env ctx OfflineDecision.denied event db = deny_entry ctx event.invitation_id event.reason db

-- The rest of the `try` block and its `catch`, by how the replay ended.
abbrev pub conclude :
    SecurityContext → Text → OfflineEvent → Result (Unit {0}) → Db → SyncResult × Db
conclude ctx device event (ok _) db = (
  synced event.client_event_id,
  log
      (record {
        action = offline_event_synced device event;
        user_id = none;
        estate_id = some ctx.estate_id;
        entity_id = some event.invitation_id;
      })
      (remember (sync_row ctx device event SyncStatus.synced none) db),
)
conclude ctx device event (err e) db = (
  failed event.client_event_id e,
  remember (sync_row ctx device event SyncStatus.failed (some e)) db,
)

abbrev pub find_synced : ℕ → Db → Option OfflineSyncEvent
find_synced id db = find (λ e. e.client_event_id == id) db.offline_sync_events

-- `syncOne`
unfoldable pub sync_one : SecurityContext → Text → Env → OfflineEvent → Db → SyncResult × Db
sync_one ctx device env event db = elim (find_synced event.client_event_id db) [
  | some existing ↦ (already_synced event.client_event_id existing.status, db)
  | none ↦ let (r, db') = replay env ctx event.decision event db in conclude ctx device event r db'
]

-- `syncBatch`, each event with the clock and the new identifier of its turn.
unfoldable pub sync_batch :
    SecurityContext → Text → List (Env × OfflineEvent) → Db → List SyncResult × Db
sync_batch ctx device [] db = ([], db)
sync_batch ctx device ((env, event) ∷ events) db =
    let (r, db') = sync_one ctx device env event db in
    let (rs, db'') = sync_batch ctx device events db' in (r ∷ rs, db'')

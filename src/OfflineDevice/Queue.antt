-- ===== src/OfflineDevice/Queue.antt =====
-- What the queue of a gate device promises: `flushOfflineQueue` of frontend/src/offline/sync-queue.ts
-- against `syncBatch` of backend/src/modules/offline-sync/offline-sync.service.ts, and the local
-- check for a one-time invitation in frontend/src/offline/verify-offline.ts.
use entryva.Base.{
  ◌&&◌, ℕ, ◌+◌, ◌≡◌, ◌≢◌, refl, sym, ap, ◌∙◌, subst, Bool, true, not, arith, Option, some, List, [],
  ◌∷◌, ◌++◌, map, length, Text, ◌==◌, ==_refl, Bool-cases, Option-cases, inl, inr, if◌then◌else◌,
  All, All-mono, All-select, length-snoc, any, ==_iff, length-map, map-map, nil_of_length,
}
use entryva.Extension.{one_time}
use entryva.Store.{valid, Method, OfflineDecision, OfflineEvent, Db, Env, SecurityContext}
use entryva.Verification.{InvitationView}
use entryva.OfflineSync.{ManifestEntry, SyncResult, sync_one, sync_batch}
use entryva.OfflineDevice.{
  DeviceStore, event_key, enqueue_event, remove_queued_event, has_queued_allow, is_allowed,
  offline_outcome, verify_offline, find_match, result_id, is_failed, settle, flush_offline_queue,
}
use entryva.OfflineDevice.Cache.{any-put}

module _ (ctx : SecurityContext) (device : Text) where
  sync_one-id :
      (env : Env) (event : OfflineEvent) (db : Db)
      → result_id (sync_one ctx device env event db).0 ≡ event_key event
  unfolding sync_one
  sync_one-id env event db = ground arith

  sync_batch-ids :
      (events : List (Env × OfflineEvent)) (db : Db)
      → map result_id (sync_batch ctx device events db).0 ≡ map (λ p. event_key p.1) events
  unfolding sync_batch
  sync_batch-ids [] db = refl
  sync_batch-ids ((env, event) ∷ events) db =
      ground (
        arith,
        sync_one-id env event db,
        sync_batch-ids events (sync_one ctx device env event db).1,
      )

-- The number of results in a tally.
abbrev total : ℕ × List SyncResult → ℕ
total (n, failures) = n + length failures

tally-total :
    (r : SyncResult) (n : ℕ) (failures : List SyncResult)
    → total (if is_failed r then (n, failures ++ r ∷ []) else (n + 1, failures))
      ≡ total (n, failures) + 1
tally-total r n failures = ground (arith, length-snoc failures r)

settle-total :
    (rs : List SyncResult) (c : ℕ × List SyncResult) (s : DeviceStore)
    → total (settle rs c s).0 ≡ total c + length rs
unfolding settle
settle-total [] c s = omega arith
settle-total (r ∷ rs) (n, failures) s =
    settle-total rs _ (remove_queued_event (result_id r) s)
    ∙ omega (arith, tally-total r n failures)

-- An event of the queue that one of the ids is for.
abbrev HasId : List ℕ → OfflineEvent → Type 0
HasId ids e = any (λ n. n == event_key e) ids ≡ true

own_ids : (events : List OfflineEvent) → All (HasId (map event_key events)) events
own_ids [] = tt
own_ids (e ∷ es) = (
  ground (arith, ==_refl (event_key e)),
  All-mono (HasId (map event_key es)) (HasId (map event_key (e ∷ es))) es (λ x h. ground (arith, h))
      (own_ids es),
)

no_ids : (events : List OfflineEvent) → All (HasId []) events → events ≡ []
no_ids [] h = refl
no_ids (e ∷ es) h = absurd (cc)

settle-queue :
    (rs : List SyncResult) (c : ℕ × List SyncResult) (s : DeviceStore)
    → All (HasId (map result_id rs)) s.sync_queue
    → (settle rs c s).1.sync_queue ≡ []
unfolding settle
settle-queue [] c s h = no_ids s.sync_queue h
settle-queue (r ∷ rs) (n, failures) s h = settle-queue rs _ (remove_queued_event (result_id r) s) (
    All-select (HasId (map result_id (r ∷ rs))) (HasId (map result_id rs))
      (λ e. not (event_key e == result_id r)) s.sync_queue
      (λ e k miss.
        ground
          (arith, k, miss, ==_iff (event_key e) (result_id r), ==_iff (result_id r) (event_key e)))
      h)

-- The server's answer to a batch.
abbrev pub server :
    SecurityContext
    → Text
    → Db
    → List (Env × OfflineEvent)
    → List OfflineEvent
    → Option (List SyncResult)
server ctx device db events _ = some (sync_batch ctx device events db).0

module _ (ctx : SecurityContext) (device : Text) (db : Db) (events : List (Env × OfflineEvent))
    (store : DeviceStore) where
  -- Once the server has answered for the queue, the queue is empty, and each event of it is counted
  -- as synced or reported as failed.
  pub flush_offline_queue-empties :
      store.sync_queue ≡ map (λ p. p.1) events
      → let (r, after) = flush_offline_queue (server ctx device db events) store in
        (after.sync_queue ≡ [])
        × ((n : ℕ) × (failures : List SyncResult) × (r ≡ some (n, failures))
            × (n + length failures ≡ length store.sync_queue))
  unfolding flush_offline_queue
  flush_offline_queue-empties h =
      let results = (sync_batch ctx device events db).0 in
      let ids : map result_id results ≡ map event_key store.sync_queue =
        sync_batch-ids ctx device events db
        ∙ map-map event_key (λ (p : Env × OfflineEvent). p.1) events
        ∙ ap (map event_key) (sym h) in
      let covered =
        subst (λ ids. All (HasId ids) store.sync_queue) (sym ids) (own_ids store.sync_queue) in
      let empty = settle-queue results (0, []) store covered in
      let counts = settle-total results (0, []) store in
      let sizes : length results ≡ length store.sync_queue =
        sym (length-map result_id results)
        ∙ ap (λ (x : List ℕ). length x) ids
        ∙ length-map event_key store.sync_queue in
      elim (Bool-cases (length store.sync_queue == 0)) [
        | inl z ↦
            let none_left = (==_iff (length store.sync_queue) 0).0 z in
            rw z (nil_of_length store.sync_queue none_left, (0, [], refl, sym none_left))
        | inr z ↦ rw z (empty, (_, _, refl, omega (arith, counts, sizes)))
      ]

module _ (hash : Text → ℕ) (verify : ℕ → ManifestEntry → ℕ → Bool) (raw : Text) (method : Method)
    (now later : ℕ) (store : DeviceStore) (view : InvitationView) (event : OfflineEvent) where
  -- After a device has queued that it let in the visitor of a one-time invitation that a code led
  -- to, the next scan of that code on it is not valid, at any time and whatever else is in the
  -- queue.
  enqueue_event-not_valid :
      (verify_offline hash verify raw method now store).invitation ≡ some view
      → view.entry_policy ≡ one_time
      → event.invitation_id ≡ view.invitation_id
      → event.decision ≡ OfflineDecision.allowed
      → (verify_offline hash verify raw method later (enqueue_event event store)).outcome ≢ valid
  unfolding verify_offline offline_outcome
  enqueue_event-not_valid h policy same allowed =
      let waits : has_queued_allow event.invitation_id (enqueue_event event store) ≡ true =
        any-put event_key (λ e. e.invitation_id == event.invitation_id && is_allowed e.decision)
          event store.sync_queue (ground (arith, ==_refl event.invitation_id)) in
      elim (Option-cases store.public_key) [
        | inl k ↦ ground arith
        | inr (key, k) ↦ elim (Option-cases (find_match hash verify raw method store.manifest)) [
          | inl f ↦ ground arith
          | inr (e, f) ↦ elim (Bool-cases (verify key e.unsigned e.signature)) [
            | inl v ↦ ground arith
            | inr v ↦ ground arith
          ]
        ]
      ]

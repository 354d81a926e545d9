-- ===== src/OfflineSync/Idempotent.antt =====
-- A batch that is sent again changes nothing.
use entryva.Base.{
  ℕ, ◌≡◌, refl, sym, ap, ◌∙◌, subst, inl, inr, true, arith, All, is_some, List, [], ◌∷◌, map, Text,
}
use entryva.Effects.{Result-cases}
use entryva.Store.{OfflineEvent, OfflineDecision, Db, Env, SecurityContext}
use entryva.EntryExit.{enter, record_entry, deny_entry}
use entryva.EntryExit.Atomic.{enter-ok}
use entryva.OfflineSync.{SyncResult, already_synced, replay, find_synced, sync_one, sync_batch}

-- An event with the client's id has been recorded.
abbrev pub IsSynced : Db → ℕ → Type 0
IsSynced db id = is_some (find_synced id db) ≡ true

abbrev pub IsRepeat : SyncResult → Type 0
IsRepeat (already_synced _ _) = Unit
IsRepeat _ = ⊥

record_entry_events :
    (env : Env) (ctx : SecurityContext) (id : ℕ) (db : Db)
    → (record_entry env ctx id db).1.offline_sync_events ≡ db.offline_sync_events
unfolding record_entry
record_entry_events env ctx id db = elim (Result-cases (enter env ctx id db)) [
  | inl (i, db', e) ↦ let (_, d) = enter-ok env ctx id db db' i e in ground arith
  | inr (x, db', e) ↦ ground arith
]

replay_events :
    (env : Env) (ctx : SecurityContext) (d : OfflineDecision) (event : OfflineEvent) (db : Db)
    → (replay env ctx d event db).1.offline_sync_events ≡ db.offline_sync_events
unfolding deny_entry
replay_events env ctx OfflineDecision.allowed event db =
    ground (arith, record_entry_events env ctx event.invitation_id db)
replay_events env ctx OfflineDecision.denied event db = ground arith

module _ (ctx : SecurityContext) (device : Text) where
  sync_one-IsSynced :
      (env : Env) (event : OfflineEvent) (db : Db)
      → IsSynced (sync_one ctx device env event db).1 event.client_event_id
  unfolding sync_one
  sync_one-IsSynced env event db = ground arith

  sync_one_mono :
      (env : Env) (event : OfflineEvent) (db : Db) (id : ℕ)
      → IsSynced db id
      → IsSynced (sync_one ctx device env event db).1 id
  unfolding sync_one
  sync_one_mono env event db id h = ground (arith, replay_events env ctx event.decision event db)

  sync_batch_mono :
      (events : List (Env × OfflineEvent)) (db : Db) (id : ℕ)
      → IsSynced db id
      → IsSynced (sync_batch ctx device events db).1 id
  unfolding sync_batch
  sync_batch_mono [] db id h = h
  sync_batch_mono ((env, event) ∷ events) db id h =
      sync_batch_mono events (sync_one ctx device env event db).1 id
        (sync_one_mono env event db id h)

  sync_batch-IsSynced :
      (events : List (Env × OfflineEvent)) (db : Db)
      → All
          (λ e. IsSynced (sync_batch ctx device events db).1 e.client_event_id)
          (map (λ e. e.1) events)
  unfolding sync_batch
  sync_batch-IsSynced [] db = tt
  sync_batch-IsSynced ((env, event) ∷ events) db =
      let db' = (sync_one ctx device env event db).1 in
      (
        sync_batch_mono events db' event.client_event_id (sync_one-IsSynced env event db),
        sync_batch-IsSynced events db',
      )

  sync_one_again :
      (env : Env) (event : OfflineEvent) (db : Db)
      → IsSynced db event.client_event_id
      → ((sync_one ctx device env event db).1 ≡ db) × IsRepeat (sync_one ctx device env event db).0
  unfolding sync_one
  sync_one_again env event db h = ground arith

-- The events of a list have all been recorded.
abbrev pub AllSynced : Db → List OfflineEvent → Type 0
AllSynced db events = All (λ e. IsSynced db e.client_event_id) events

sync_batch_again :
    (ctx : SecurityContext) (device : Text) (events : List (Env × OfflineEvent)) (db : Db)
    → AllSynced db (map (λ e. e.1) events)
    → ((sync_batch ctx device events db).1 ≡ db) × All IsRepeat (sync_batch ctx device events db).0
unfolding sync_batch
sync_batch_again ctx device [] db h = (refl, tt)
sync_batch_again ctx device ((env, event) ∷ events) db h =
    let (same, repeated) = sync_one_again ctx device env event db h.0 in
    let (rest, repeats) = sync_batch_again ctx device events db h.1 in
    let next = (sync_one ctx device env event db).1 in
    (
      ap (λ d. (sync_batch ctx device events d).1) same ∙ rest,
      (repeated, subst (λ d. All IsRepeat (sync_batch ctx device events d).0) (sym same) repeats),
    )

-- A batch that was synchronised and is sent again, at any time, by any device and for any officer,
-- leaves the database as it is, and every result says that the event was already synchronised.
pub sync_batch_retry :
    (ctx ctx' : SecurityContext) (device device' : Text) (events again : List (Env × OfflineEvent))
    (db : Db)
    → map (λ e. e.1) again ≡ map (λ e. e.1) events
    → let after = (sync_batch ctx device events db).1 in
      ((sync_batch ctx' device' again after).1 ≡ after)
      × All IsRepeat (sync_batch ctx' device' again after).0
sync_batch_retry ctx ctx' device device' events again db same =
    let after = (sync_batch ctx device events db).1 in
    sync_batch_again ctx' device' again after
      (subst (AllSynced after) (sym same) (sync_batch-IsSynced ctx device events db))

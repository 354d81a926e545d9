-- ===== src/LiveTracking.antt =====
-- The visitor's way to the gate: backend/src/modules/live-location/live-location.ts. SHA-256 is a
-- parameter. Coordinates, headings and accuracies are stored and shown as they come, so they are
-- numbers that nothing is computed with.
pub mod Shown
use entryva.Base.{
  ℕ, ◌+◌, ◌-◌, ◌/◌, Bool, true, false, ◌&&◌, ◌||◌, not, ltb, ◌==◌, if◌then◌else◌, Option, none,
  some, is_some, is_none, get_or, List, [], ◌∷◌, find, update_where, Text, codes,
}
use entryva.Effects.{
  Action, ok, pure, gets, modify, when, throw_if, or_throw, ◌>>=◌, ◌>>◌, not_found, gone,
}
use entryva.Extension.{InvitationStatus, is_active}
use entryva.Store.{Estate, LiveLocation, no_live, Invitation, Db, Env}

abbrev pub is_pending : InvitationStatus → Bool
is_pending InvitationStatus.pending = true
is_pending _ = false

-- `isLive`
abbrev pub is_live : ℕ → Invitation → Bool
is_live now i = (is_active i.status || is_pending i.status) && ltb now i.valid_until

-- `LivePositionInput`
pub record LivePosition : Type 0 where
  pub lat : ℕ
  pub lng : ℕ
  pub heading : Option ℕ
  pub accuracy_m : Option ℕ

-- The position of a `LiveLocationResponse`.
pub record ShownPosition : Type 0 where
  pub lat : ℕ
  pub lng : ℕ
  pub heading : Option ℕ
  pub accuracy_m : Option ℕ
  pub updated_at : ℕ
  pub age_seconds : ℕ

pub record LiveLocationResponse : Type 0 where
  pub invitation_active : Bool
  pub sharing : Bool
  pub arrived : Bool
  pub arrived_at : Option ℕ
  pub position : Option ShownPosition
  -- The coordinates of the gate, and its name.
  pub gate : Option (ℕ × ℕ × Text)

-- `CLEARED_POSITION`, which leaves the arrival.
abbrev pub cleared : LiveLocation → LiveLocation
cleared l = record no_live { arrived_at = l.arrived_at }

abbrev pub saved : ℕ → LivePosition → LiveLocation
saved now input = record {
  lat = some input.lat;
  lng = some input.lng;
  heading = input.heading;
  accuracy_m = input.accuracy_m;
  updated_at = some now;
  arrived_at = none;
}

abbrev pub arrived_now : ℕ → LiveLocation
arrived_now now = record no_live { arrived_at = some now }

abbrev pub with_live : (LiveLocation → LiveLocation) → Invitation → Invitation
with_live f i = record i { live = f i.live }

abbrev pub write_live : ℕ → (LiveLocation → LiveLocation) → Db → Db
write_live id f db = record db {
  invitations = update_where (λ i. i.id == id) (with_live f) db.invitations;
}

-- `hasStoredPosition`, and the position that is stored.
unfoldable pub stored_position : ℕ → LiveLocation → Option ShownPosition
stored_position now l = elim l.lat [
  | none ↦ none
  | some lat ↦ elim l.lng [
    | none ↦ none
    | some lng ↦ elim l.updated_at [
      | none ↦ none
      | some updated_at ↦ some (record {
        lat = lat;
        lng = lng;
        heading = l.heading;
        accuracy_m = l.accuracy_m;
        updated_at = updated_at;
        -- `Math.round` of the milliseconds, and 0 for a time to come.
        age_seconds = (now - updated_at + 500) / 1000;
      })
    ]
  ]
]

abbrev pub gate_of : Option Estate → Option (ℕ × ℕ × Text)
gate_of none = none
gate_of (some e) = elim e.main_gate_latitude [
  | none ↦ none
  | some lat ↦ elim e.main_gate_longitude [
    | none ↦ none
    | some lng ↦ some (lat, lng, get_or e.main_gate_name (codes "Main gate"))
  ]
]

module _ (hash : Text → ℕ) where
  -- `findByToken`
  abbrev pub find_by_token : Text → Action Db Invitation
  find_by_token token = do
    row ← gets (λ db. find (λ i. i.secure_token_hash == hash token) db.invitations)
    or_throw row (not_found "Invitation not found.")

  -- `saveLivePosition`
  unfoldable pub save_live_position : Env → Text → LivePosition → Action Db (Unit {0})
  save_live_position env token input = do
    i ← find_by_token token
    when (not (is_live env.now i)) (write_live i.id cleared)
    throw_if (not (is_live env.now i)) (gone "This invitation is no longer active.")
    modify (write_live i.id (λ l. saved env.now input))

  -- `stopLiveSharing`
  unfoldable pub stop_live_sharing : Text → Action Db (Unit {0})
  stop_live_sharing token = do i ← find_by_token token; modify (write_live i.id cleared)

  -- `markLiveArrived`
  unfoldable pub mark_live_arrived : Env → Text → Action Db (Unit {0})
  mark_live_arrived env token = do
    i ← find_by_token token
    modify (write_live i.id (λ l. if is_live env.now i then arrived_now env.now else cleared l))

abbrev pub of_resident : ℕ → ℕ → Invitation → Bool
of_resident id resident_id i = i.id == id && i.resident.id == resident_id

-- What is shown of a row.
abbrev pub response : ℕ → Invitation → Db → LiveLocationResponse
response now i db =
    let shown =
      is_live now i && (is_some (stored_position now i.live) && is_none i.live.arrived_at) in
    record {
      invitation_active = is_live now i;
      sharing = shown;
      arrived = is_some i.live.arrived_at;
      arrived_at = i.live.arrived_at;
      position = if shown then stored_position now i.live else none;
      gate = gate_of (find (λ e. e.id == i.estate_id) db.estates);
    }

-- `getLiveForResident`
unfoldable pub get_live_for_resident : Env → ℕ → ℕ → Action Db LiveLocationResponse
unfolding stored_position
get_live_for_resident env id resident_id = do
  row ← gets (λ db. find (of_resident id resident_id) db.invitations)
  i ← or_throw row (not_found "Invitation not found.")
  when (not (is_live env.now i) && is_some (stored_position env.now i.live)) (write_live id cleared)
  gets (response env.now i)

-- ===== src/EntryExit.antt =====
-- Entries and exits: backend/src/modules/entry-exit/entry-exit.service.ts.
pub mod Atomic
pub mod OneTime
pub mod Inside
use entryva.Base.{
  ℕ, ◌+◌, ◌<◌, max, min, Bool, true, false, ◌&&◌, not, ltb, ◌==◌, if◌then◌else◌, Option, none, some,
  List, [], ◌∷◌, map, find, select, update_where, count_where, take, Text, is_some, is_none, any,
}
use entryva.Effects.{
  Action, ok, pure, gets, modify, throw_if, or_throw, transaction, ◌>>=◌, ◌>>◌, not_found,
  forbidden, conflict,
}
use entryva.Extension.{InvitationStatus, is_revoked, is_active, is_one_time}
use entryva.Store.{
  Invitation, Visit, EntryExitEvent, EntryExitType, entry, exit, InvitationEvent, entered, exited,
  Db, Env, SecurityContext, log, dispatch, entry_allowed, exit_recorded, entry_denied,
  visitor_entered, visitor_exited,
}

-- The invitation with an id, if it belongs to the officer's estate.
abbrev pub find_invitation : ℕ → SecurityContext → Db → Option Invitation
find_invitation id ctx db = find (λ i. i.id == id && i.estate_id == ctx.estate_id) db.invitations

-- `enteredAt: { not: null }, exitedAt: null`
abbrev pub is_open : Visit → Bool
is_open v = is_some v.entered_at && is_none v.exited_at

-- `where: { id, status: 'ACTIVE' }`
abbrev pub claimable : ℕ → Invitation → Bool
claimable id i = i.id == id && is_active i.status

abbrev pub use_up : ℕ → Invitation → Invitation
use_up now i = record i { status = InvitationStatus.used; used_at = some now }

-- The compare-and-swap that a one-time invitation is consumed by.
unfoldable pub claim : Env → Invitation → Action Db (Unit {0})
claim env i =
    if is_one_time i.entry_policy
    then (do
      count ← gets (λ db. count_where (claimable i.id) db.invitations)
      modify (λ db. record db {
        invitations = update_where (claimable i.id) (use_up env.now) db.invitations;
      })
      throw_if (count == 0) (conflict "This one-time invitation has already been used."))
    else pure tt

abbrev pub new_visit : Env → ℕ → Visit
new_visit env id = record {
  id = env.new_id;
  invitation_id = id;
  entered_at = some env.now;
  exited_at = none;
}

-- The rows that an entry creates.
abbrev pub create_visit : Env → SecurityContext → ℕ → Db → Db
create_visit env ctx id db = record db {
  visits = new_visit env id ∷ db.visits;
  entry_exit_events =
      record {
        visit_id = env.new_id;
        officer_id = ctx.officer_id;
        type = entry;
        created_at = env.now;
      }
      ∷ db.entry_exit_events;
  invitation_events = record { invitation_id = id; type = entered } ∷ db.invitation_events;
}

-- The body of the transaction in `recordEntry`.
unfoldable pub enter : Env → SecurityContext → ℕ → Action Db Invitation
enter env ctx id = do
  found ← gets (find_invitation id ctx)
  i ← or_throw found (not_found "Invitation not found.")
  throw_if (is_revoked i.status) (forbidden "This invitation has been revoked.")
  throw_if (ltb i.valid_until env.now) (forbidden "This invitation has expired.")
  claim env i
  inside ← gets (λ db. any (λ v. v.invitation_id == i.id && is_open v) db.visits)
  throw_if inside (conflict "This visitor is already recorded as inside.")
  modify (create_visit env ctx i.id)
  pure i

-- `recordEntry`; the result is the new visit's id and time of entry.
unfoldable pub record_entry : Env → SecurityContext → ℕ → Action Db (ℕ × ℕ)
record_entry env ctx id = do
  i ← transaction (enter env ctx id)
  modify (
      log (record {
        action = entry_allowed id;
        user_id = none;
        estate_id = some ctx.estate_id;
        entity_id = some env.new_id;
      }))
  modify (dispatch i.resident.user_id (visitor_entered env.new_id i.visitor.full_name))
  pure (env.new_id, env.now)

-- The invitation of a visit (`include: { invitation }`), if it is of the officer's estate.
abbrev pub visit_invitation : SecurityContext → Db → Visit → Option Invitation
visit_invitation ctx db v = find_invitation v.invitation_id ctx db

-- The visit with an id whose invitation belongs to the officer's estate.
abbrev pub find_visit : ℕ → SecurityContext → Db → Option Visit
find_visit id ctx db = find (λ v. v.id == id && is_some (visit_invitation ctx db v)) db.visits

abbrev pub close_visit : Env → SecurityContext → Visit → Db → Db
close_visit env ctx v db = record db {
  visits = update_where (λ w. w.id == v.id) (λ w. record w { exited_at = some env.now }) db.visits;
  entry_exit_events =
      record { visit_id = v.id; officer_id = ctx.officer_id; type = exit; created_at = env.now }
      ∷ db.entry_exit_events;
  invitation_events =
      record { invitation_id = v.invitation_id; type = exited } ∷ db.invitation_events;
}

-- The body of the transaction in `recordExit`.
unfoldable pub leave : Env → SecurityContext → ℕ → Action Db (Visit × Invitation)
leave env ctx id = do
  found ← gets (find_visit id ctx)
  v ← or_throw found (not_found "Visit not found.")
  owner ← gets (λ db. visit_invitation ctx db v)
  i ← or_throw owner (not_found "Visit not found.")
  throw_if (is_none v.entered_at) (forbidden "This visitor was never recorded as entering.")
  throw_if (is_some v.exited_at) (conflict "This visitor has already exited.")
  modify (close_visit env ctx v)
  pure (v, i)

-- `recordExit`; the result is the visit's id and time of exit.
unfoldable pub record_exit : Env → SecurityContext → ℕ → Action Db (ℕ × ℕ)
record_exit env ctx id = do
  r ← transaction (leave env ctx id)
  modify (
      log (record {
        action = exit_recorded;
        user_id = none;
        estate_id = some ctx.estate_id;
        entity_id = some r.0.id;
      }))
  modify (dispatch r.1.resident.user_id (visitor_exited r.0.id r.1.visitor.full_name))
  pure (r.0.id, env.now)

-- `denyEntry` changes no invitation.
unfoldable pub deny_entry : SecurityContext → ℕ → Option Text → Action Db (Unit {0})
deny_entry ctx id reason = do
  found ← gets (find_invitation id ctx)
  i ← or_throw found (not_found "Invitation not found.")
  modify (
      log (record {
        action = entry_denied reason;
        user_id = none;
        estate_id = some ctx.estate_id;
        entity_id = some i.id;
      }))

-- `listCurrentlyInside`, as the visits that the answer is shaped from.
unfoldable pub list_currently_inside : SecurityContext → Db → List Visit
list_currently_inside ctx db =
    select (λ v. is_open v && is_some (visit_invitation ctx db v)) db.visits

-- The visit of an event is of the officer's estate.
abbrev pub event_in_estate : SecurityContext → Db → EntryExitEvent → Bool
event_in_estate ctx db e =
    any (λ v. v.id == e.visit_id && is_some (visit_invitation ctx db v)) db.visits

-- `listHistory`, as the events that the answer is shaped from.
unfoldable pub list_history : SecurityContext → ℕ → Db → List EntryExitEvent
list_history ctx limit db =
    take (min (max limit 1) 200) (select (event_in_estate ctx db) db.entry_exit_events)

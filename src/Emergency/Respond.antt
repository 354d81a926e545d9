-- ===== src/Emergency/Respond.antt =====
-- Answering an alert: `list`, `acknowledge` and `resolve` of
-- backend/src/modules/alerts/emergency.service.ts.
pub mod Once
pub mod Order
use entryva.Base.{
  ℕ, ◌-◌, Bool, true, false, ◌&&◌, ◌||◌, not, ltb, leb, ◌==◌, if◌then◌else◌, Option, none, some,
  List, [], ◌∷◌, map, find, select, take, update_where, count_where, Text,
}
use entryva.Effects.{
  Action, ok, err, pure, gets, modify, when, throw_if, or_throw, ◌>>=◌, ◌>>◌, forbidden, not_found,
}
use entryva.Store.{
  EmergencyStatus, opened, acknowledged, resolved, EmergencyAlert, AuditAction, NotificationEvent,
  Db, Env, log, dispatch,
}
use entryva.Emergency.{
  AuthenticatedUser, EmergencyView, recent_window_ms, staff_list_limit, resident_list_limit,
  is_resident, is_unresolved, is_opened, to_view, estate_of, is_staff,
}

-- `findInEstate`
abbrev pub find_in_estate : ℕ → ℕ → Action Db EmergencyAlert
find_in_estate id estate_id = do
  row ← gets (λ db. find (λ a. a.id == id && a.estate_id == estate_id) db.emergency_alerts)
  or_throw row (not_found "Alert not found.")

-- `phoneFor`
abbrev pub phone_of : Db → ℕ → ℕ → Option Text
phone_of db user_id estate_id =
    elim (find (λ r. r.user_id == user_id && r.estate_id == estate_id) db.residents) [
      | none ↦ none
      | some r ↦ r.phone
    ]

-- The alerts that an acknowledgement is for.
abbrev pub answerable : ℕ → ℕ → EmergencyAlert → Bool
answerable id estate_id a = a.id == id && (a.estate_id == estate_id && is_opened a.status)

abbrev pub answer : Env → AuthenticatedUser → EmergencyAlert → EmergencyAlert
answer env user a = record a {
  status = acknowledged;
  acknowledged_by = some (user.user_id, user.display_name, env.now);
}

-- The message and the audit entry of an acknowledgement.
abbrev pub tell_acknowledged : AuthenticatedUser → ℕ → EmergencyAlert → Db → Db
tell_acknowledged user estate_id a db =
    log
      (record {
        action = AuditAction.emergency_acknowledged;
        user_id = some user.user_id;
        estate_id = some estate_id;
        entity_id = some a.id;
      })
      (dispatch a.raised_by_id (NotificationEvent.emergency_acknowledged a.id user.display_name) db)

-- `acknowledge`, in an estate.
unfoldable pub acknowledge_in : Env → AuthenticatedUser → ℕ → ℕ → Action Db EmergencyView
acknowledge_in env user id estate_id = do
  count ← gets (λ db. count_where (answerable id estate_id) db.emergency_alerts)
  modify (λ db. record db {
    emergency_alerts = update_where (answerable id estate_id) (answer env user) db.emergency_alerts;
  })
  alert ← find_in_estate id estate_id
  when (count == 1) (tell_acknowledged user estate_id alert)
  phone ← gets (λ db. phone_of db alert.raised_by_id alert.estate_id)
  pure (to_view alert true phone)

-- `acknowledge`
unfoldable pub acknowledge : Env → AuthenticatedUser → ℕ → Action Db EmergencyView
acknowledge env user id = do
  estate_id ← estate_of user
  throw_if (not (is_staff user.role))
      (forbidden "Only security or the estate admin can respond to an alert.")
  acknowledge_in env user id estate_id

-- The alerts that a user may close.
abbrev pub closable : AuthenticatedUser → ℕ → ℕ → EmergencyAlert → Bool
closable user id estate_id a =
    a.id == id
    && (a.estate_id == estate_id
        && (is_unresolved a.status && (is_staff user.role || a.raised_by_id == user.user_id)))

abbrev pub close : Env → AuthenticatedUser → EmergencyAlert → EmergencyAlert
close env user a = record a {
  status = resolved;
  resolved_by = some (user.user_id, user.display_name, env.now);
}

-- The message, unless one closes one's own alert.
abbrev pub is_others : AuthenticatedUser → EmergencyAlert → Bool
is_others user a = is_staff user.role && not (a.raised_by_id == user.user_id)

abbrev pub log_resolved : AuthenticatedUser → ℕ → EmergencyAlert → Db → Db
log_resolved user estate_id a db =
    log
      (record {
        action = AuditAction.emergency_resolved (is_staff user.role);
        user_id = some user.user_id;
        estate_id = some estate_id;
        entity_id = some a.id;
      })
      db

-- `resolve`, in an estate.
unfoldable pub resolve_in : Env → AuthenticatedUser → ℕ → ℕ → Action Db EmergencyView
resolve_in env user id estate_id = do
  count ← gets (λ db. count_where (closable user id estate_id) db.emergency_alerts)
  modify (λ db. record db {
    emergency_alerts =
        update_where (closable user id estate_id) (close env user) db.emergency_alerts;
  })
  alert ← find_in_estate id estate_id
  throw_if (not (is_staff user.role) && not (alert.raised_by_id == user.user_id))
      (not_found "Alert not found.")
  when (count == 1 && is_others user alert)
      (dispatch alert.raised_by_id (NotificationEvent.emergency_resolved alert.id))
  when (count == 1) (log_resolved user estate_id alert)
  phone ← gets (λ db. phone_of db alert.raised_by_id alert.estate_id)
  pure (to_view alert (is_staff user.role) phone)

-- `resolve`
unfoldable pub resolve : Env → AuthenticatedUser → ℕ → Action Db EmergencyView
resolve env user id = do
  estate_id ← estate_of user
  throw_if (not (is_staff user.role) && not (is_resident user.role))
      (forbidden "You do not have access to this resource.")
  resolve_in env user id estate_id

-- `STATUS_ORDER`
abbrev pub status_order : EmergencyStatus → ℕ
status_order opened = 0
status_order acknowledged = 1
status_order resolved = 2

-- The comparison of `list`: `a` does not come after `b`.
unfoldable pub before : EmergencyView → EmergencyView → Bool
before a b =
    ltb (status_order a.status) (status_order b.status)
    || (status_order a.status == status_order b.status && leb b.created_at a.created_at)

-- `Array.prototype.sort`, which is stable.
unfoldable pub insert_view : EmergencyView → List EmergencyView → List EmergencyView
insert_view v [] = v ∷ []
insert_view v (w ∷ ws) = let rest = insert_view v ws in if before v w then v ∷ w ∷ ws else w ∷ rest

unfoldable pub sort_views : List EmergencyView → List EmergencyView
unfolding insert_view
sort_views [] = []
sort_views (v ∷ vs) = insert_view v (sort_views vs)

-- What staff see: unresolved alerts, and those of the last week.
abbrev pub is_recent : Env → EmergencyAlert → Bool
is_recent env a = is_unresolved a.status || leb (env.now - recent_window_ms) a.created_at

-- The rows of `list`; the phones are read by the user, whose profile is one.
abbrev pub shown_alerts : Env → AuthenticatedUser → ℕ → Db → List EmergencyView
shown_alerts env user estate_id db =
    if is_resident user.role
    then map (λ a. to_view a false none)
        (take resident_list_limit (
          select (λ a. a.estate_id == estate_id && a.raised_by_id == user.user_id)
            db.emergency_alerts))
    else sort_views (
        map (λ a. to_view a true (phone_of db a.raised_by_id estate_id))
          (take staff_list_limit
            (select (λ a. a.estate_id == estate_id && is_recent env a) db.emergency_alerts)))

-- `list`
unfoldable pub list_alerts : Env → AuthenticatedUser → Action Db (List EmergencyView)
list_alerts env user = do
  estate_id ← estate_of user
  throw_if (not (is_staff user.role) && not (is_resident user.role))
      (forbidden "You do not have access to this resource.")
  gets (shown_alerts env user estate_id)

-- ===== src/Emergency.antt =====
-- The emergency button of residents: backend/src/modules/alerts/emergency.service.ts and
-- alert-recipients.ts beside it. Alerts are kept with the newest first.
pub mod Alarm
pub mod Repeated
pub mod Respond
pub mod Recipients
use entryva.Base.{
  ℕ, ◌+◌, ◌-◌, ◌*◌, Bool, true, false, ◌&&◌, ◌||◌, not, ltb, leb, ◌==◌, if◌then◌else◌, Option, none,
  some, is_some, get_or, List, [], ◌∷◌, ◌++◌, map, find, select, any, take, length, update_where,
  count_where, Text, codes, trim,
}
use entryva.Effects.{
  Action, ok, pure, gets, modify, when, throw_if, or_throw, ◌>>=◌, ◌>>◌, forbidden, not_found,
}
use entryva.Store.{
  is_active_user, UserRole, super_admin, estate_admin, resident, security_officer, Apartment,
  ResidentProfile, OfficerProfile, User, EmergencyKind, fire, medical, security, other,
  EmergencyStatus, opened, acknowledged, resolved, EmergencyAlert, AuditAction, NotificationEvent,
  Db, Env, log, dispatch,
}

-- `AuthenticatedUser`, as far as it is read here.
pub record AuthenticatedUser : Type 0 where
  pub user_id : ℕ
  pub role : UserRole
  pub display_name : Text
  pub estate_id : Option ℕ
  pub apartment_id : Option ℕ

pub record RaiseEmergency : Type 0 where
  pub kind : EmergencyKind
  pub note : Option Text

pub record EmergencyView : Type 0 where
  pub id : ℕ
  pub kind : EmergencyKind
  pub note : Option Text
  pub status : EmergencyStatus
  pub apartment_label : Text
  pub raised_by_name : Text
  pub created_at : ℕ
  pub acknowledged_by_name : Option Text
  pub acknowledged_at : Option ℕ
  pub resolved_by_name : Option Text
  pub resolved_at : Option ℕ
  pub call_phone : Option Text

pub record RaiseResult : Type 0 where
  pub alert : EmergencyView
  pub notified_count : ℕ
  pub duplicate : Bool

-- `DUPLICATE_WINDOW_MS`, `RECENT_WINDOW_MS`, `STAFF_LIST_LIMIT` and `RESIDENT_LIST_LIMIT`
abbrev pub duplicate_window_ms : ℕ
duplicate_window_ms = 600000

abbrev pub recent_window_ms : ℕ
recent_window_ms = 604800000

abbrev pub staff_list_limit : ℕ
staff_list_limit = 100

abbrev pub resident_list_limit : ℕ
resident_list_limit = 20

pub data RecipientGroup : Type 0 where
  residents officers admins : RecipientGroup

-- `ids.add(id)` of a Set.
abbrev pub add_id : ℕ → List ℕ → List ℕ
add_id id ids = if any (λ x. x == id) ids then ids else ids ++ id ∷ []

unfoldable pub add_all : List ℕ → List ℕ → List ℕ
add_all [] ids = ids
add_all (x ∷ xs) ids = add_all xs (add_id x ids)

abbrev pub is_estate_admin : UserRole → Bool
is_estate_admin estate_admin = true
is_estate_admin _ = false

abbrev pub is_resident : UserRole → Bool
is_resident resident = true
is_resident _ = false

-- `x === y` of an optional identifier and one.
abbrev pub is_id : Option ℕ → ℕ → Bool
is_id none y = false
is_id (some x) y = x == y

-- The active users of one group in an estate.
unfoldable pub group_ids : ℕ → Db → RecipientGroup → List ℕ
group_ids estate_id db residents =
    map (λ r. r.user_id)
      (select (λ r. r.estate_id == estate_id && (r.active && is_active_user r.user_status))
        db.residents)
group_ids estate_id db officers =
    map (λ o. o.user_id)
      (select (λ o. o.estate_id == estate_id && (o.active && is_active_user o.user_status))
        db.officers)
group_ids estate_id db admins =
    map (λ u. u.id)
      (select
        (λ u.
          is_estate_admin u.role && (is_id u.admin_estate_id estate_id && is_active_user u.status))
        db.users)

abbrev pub same_group : RecipientGroup → RecipientGroup → Bool
same_group residents residents = true
same_group officers officers = true
same_group admins admins = true
same_group _ _ = false

-- `if (groups.includes(g)) rows.forEach((r) => ids.add(...))`
abbrev pub add_group : ℕ → Db → List RecipientGroup → RecipientGroup → List ℕ → List ℕ
add_group estate_id db groups g ids =
    if any (same_group g) groups then add_all (group_ids estate_id db g) ids else ids

-- `findRecipientUserIds`
unfoldable pub find_recipient_user_ids : ℕ → List RecipientGroup → Db → List ℕ
find_recipient_user_ids estate_id groups db =
    add_group estate_id db groups admins
      (add_group estate_id db groups officers (add_group estate_id db groups residents []))

-- `dispatchMany`: one saved row for each different user.
unfoldable pub dispatch_many : List ℕ → NotificationEvent → Db → Db
dispatch_many user_ids event db = record db {
  notifications =
      map (λ u. record { user_id = u; event = event }) (add_all user_ids []) ++ db.notifications;
}

-- `status: { in: ['OPEN', 'ACKNOWLEDGED'] }`, and `status: 'OPEN'`.
abbrev pub is_unresolved : EmergencyStatus → Bool
is_unresolved resolved = false
is_unresolved _ = true

abbrev pub is_opened : EmergencyStatus → Bool
is_opened opened = true
is_opened _ = false

abbrev pub same_kind : EmergencyKind → EmergencyKind → Bool
same_kind fire fire = true
same_kind medical medical = true
same_kind security security = true
same_kind other other = true
same_kind _ _ = false

abbrev pub name_of : Option (ℕ × Text × ℕ) → Option Text
name_of none = none
name_of (some (id, name, at)) = some name

abbrev pub time_of : Option (ℕ × Text × ℕ) → Option ℕ
time_of none = none
time_of (some (id, name, at)) = some at

-- `toView`
abbrev pub to_view : EmergencyAlert → Bool → Option Text → EmergencyView
to_view row staff phone = record {
  id = row.id;
  kind = row.kind;
  note = row.note;
  status = row.status;
  apartment_label = row.apartment_label;
  raised_by_name = row.raised_by_name;
  created_at = row.created_at;
  acknowledged_by_name = name_of row.acknowledged_by;
  acknowledged_at = time_of row.acknowledged_by;
  resolved_by_name = name_of row.resolved_by;
  resolved_at = time_of row.resolved_by;
  call_phone = if staff then phone else none;
}

-- `estateOf`
abbrev pub estate_of : AuthenticatedUser → Action Db ℕ
estate_of user = or_throw user.estate_id (forbidden "No estate scope available for this account.")

-- `isStaff`
abbrev pub is_staff : UserRole → Bool
is_staff security_officer = true
is_staff estate_admin = true
is_staff _ = false

-- The same emergency, pressed again. The start of the window stops at 0 here and may be negative
-- there: no alert is older than either.
abbrev pub is_duplicate : Env → AuthenticatedUser → EmergencyKind → EmergencyAlert → Bool
is_duplicate env user kind a =
    a.raised_by_id == user.user_id
    && (same_kind a.kind kind
        && (is_unresolved a.status && leb (env.now - duplicate_window_ms) a.created_at))

-- `${apartment.building.name} \u00b7 ${apartment.flatNumber}`
abbrev pub apartment_label : Option Apartment → Text
apartment_label none = codes "An apartment"
apartment_label (some a) = a.building_name ++ 32 ∷ 183 ∷ 32 ∷ a.flat_number

-- `dto.note?.trim() ? dto.note.trim() : null`
abbrev pub unless_empty : Text → Option Text
unless_empty [] = none
unless_empty (c ∷ cs) = some (c ∷ cs)

abbrev pub note_of : Option Text → Option Text
note_of none = none
note_of (some t) = unless_empty (trim t)

abbrev pub new_alert :
    Env → AuthenticatedUser → RaiseEmergency → ℕ → Option Apartment → EmergencyAlert
new_alert env user dto estate_id apartment = record {
  id = env.new_id;
  estate_id = estate_id;
  raised_by_id = user.user_id;
  raised_by_name = user.display_name;
  apartment_label = apartment_label apartment;
  kind = dto.kind;
  note = note_of dto.note;
  status = opened;
  acknowledged_by = none;
  resolved_by = none;
  created_at = env.now;
}

-- The alarm itself: the row, the messages to the responders and the audit entry.
unfoldable pub sound_alarm :
    Env → AuthenticatedUser → RaiseEmergency → ℕ → Option Apartment → Action Db RaiseResult
sound_alarm env user dto estate_id apartment = do
  modify (λ db. record db {
    emergency_alerts = new_alert env user dto estate_id apartment ∷ db.emergency_alerts;
  })
  responders ← gets (find_recipient_user_ids estate_id (officers ∷ admins ∷ []))
  modify (
      dispatch_many responders (
        NotificationEvent.emergency_raised env.new_id dto.kind (apartment_label apartment)
          user.display_name))
  modify (
      log (record {
        action = AuditAction.emergency_raised dto.kind (length responders);
        user_id = some user.user_id;
        estate_id = some estate_id;
        entity_id = some env.new_id;
      }))
  pure (record {
    alert = to_view (new_alert env user dto estate_id apartment) false none;
    notified_count = length responders;
    duplicate = false;
  })

-- `raise`, for a resident with an estate and an apartment.
unfoldable pub raise_scoped :
    Env → AuthenticatedUser → RaiseEmergency → ℕ → ℕ → Action Db RaiseResult
raise_scoped env user dto estate_id apartment_id db =
    elim (find (is_duplicate env user dto.kind) db.emergency_alerts) [
      | some a ↦
          (ok (record { alert = to_view a false none; notified_count = 0; duplicate = true }), db)
      | none ↦
          sound_alarm env user dto estate_id (find (λ f. f.id == apartment_id) db.apartments) db
    ]

-- `raise`
unfoldable pub raise : Env → AuthenticatedUser → RaiseEmergency → Action Db RaiseResult
raise env user dto = do
  throw_if (not (is_resident user.role)) (forbidden "Only a resident can raise an emergency alert.")
  estate_id ← or_throw user.estate_id (forbidden "Only a resident can raise an emergency alert.")
  flat ← or_throw user.apartment_id (forbidden "Only a resident can raise an emergency alert.")
  raise_scoped env user dto estate_id flat

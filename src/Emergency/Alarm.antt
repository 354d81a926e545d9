-- ===== src/Emergency/Alarm.antt =====
-- What pressing the button does: `raise` of backend/src/modules/alerts/emergency.service.ts.
use entryva.Base.{
  ℕ, ◌+◌, ◌≡◌, refl, ap, ◌∙◌, true, false, ◌&&◌, not, arith, ◌==◌, Option-cases, inl, inr, Option,
  none, some, List, [], ◌∷◌, ◌++◌, map, count_where, find, if◌then◌else◌,
}
use entryva.Effects.{ok}
use entryva.Store.{
  Apartment, EmergencyAlert, EmergencyKind, fire, medical, security, other, Notification,
  NotificationEvent, Db, Env,
}
use entryva.Emergency.{
  AuthenticatedUser, RaiseEmergency, RaiseResult, add_all, dispatch_many, is_duplicate, same_kind,
  sound_alarm, raise_scoped, raise, is_resident, to_view, new_alert,
}
use entryva.Emergency.Recipients.{
  has_id, times, times-set, responds, has_id-find_recipient_user_ids,
}

-- The messages of a user.
abbrev pub messages_of : ℕ → Db → ℕ
messages_of u db = count_where (λ n. n.user_id == u) db.notifications

messages_added :
    (u : ℕ) (event : NotificationEvent) (ids : List ℕ) (old : List Notification)
    → count_where
        (λ n. n.user_id == u)
        (map (λ id. record { user_id = id; event = event }) ids ++ old)
      ≡ times u ids + count_where (λ n. n.user_id == u) old
messages_added u event [] old = ground arith
messages_added u event (id ∷ ids) old = ground (arith, messages_added u event ids old)

pub dispatch_many-messages :
    (u : ℕ) (event : NotificationEvent) (ids : List ℕ) (db : Db)
    → messages_of u (dispatch_many ids event db)
      ≡ (if has_id u ids then 1 else 0) + messages_of u db
unfolding dispatch_many
dispatch_many-messages u event ids db =
    messages_added u event (add_all ids []) db.notifications
    ∙ ap (λ n. n + messages_of u db) (times-set u ids)

-- A resident with an estate and an apartment, who may raise alarms.
pub raise-scope :
    (user : AuthenticatedUser) (env : Env) (dto : RaiseEmergency) (db : Db) (r : RaiseResult)
    → (raise env user dto db).0 ≡ ok r
    → (e : ℕ) × (f : ℕ) × (is_resident user.role ≡ true)
      × (user.estate_id ≡ some e)
      × (user.apartment_id ≡ some f)
unfolding raise
raise-scope user env dto db r h = elim (Option-cases user.estate_id) [
  | inl e ↦ absurd (ground arith)
  | inr (e, p) ↦ elim (Option-cases user.apartment_id) [
    | inl f ↦ absurd (ground arith)
    | inr (f, q) ↦ (e, f, ground arith, p, q)
  ]
]

pub raise-scoped :
    (user : AuthenticatedUser) (e f : ℕ) (env : Env) (dto : RaiseEmergency) (db : Db)
    → is_resident user.role ≡ true
    → user.estate_id ≡ some e
    → user.apartment_id ≡ some f
    → raise env user dto db ≡ raise_scoped env user dto e f db
unfolding raise
raise-scoped user e f env dto db role p q = rw (role, p, q)

pub same_kind_refl : (k : EmergencyKind) → same_kind k k ≡ true
same_kind_refl fire = refl
same_kind_refl medical = refl
same_kind_refl security = refl
same_kind_refl other = refl

module _ (env : Env) (user : AuthenticatedUser) (dto : RaiseEmergency) where
  sound_alarm-messages :
      (estate_id : ℕ) (flat : Option Apartment) (db : Db) (u : ℕ)
      → messages_of u (sound_alarm env user dto estate_id flat db).1
        ≡ (if responds estate_id db u then 1 else 0) + messages_of u db
  unfolding sound_alarm responds
  sound_alarm-messages estate_id flat db u =
      dispatch_many-messages u _ _ _
      ∙ ap (λ b. (if b then 1 else 0) + messages_of u db)
          (has_id-find_recipient_user_ids estate_id u _)

  abbrev pub flat_of : ℕ → Db → Option Apartment
  flat_of f db = find (λ x. x.id == f) db.apartments

  pub scoped-new :
      (e f : ℕ) (db : Db)
      → find (is_duplicate env user dto.kind) db.emergency_alerts ≡ none
      → raise_scoped env user dto e f db ≡ sound_alarm env user dto e (flat_of f db) db
  unfolding raise_scoped
  scoped-new e f db h = ground (arith, h)

  pub scoped-same :
      (e f : ℕ) (db : Db) (a : EmergencyAlert)
      → find (is_duplicate env user dto.kind) db.emergency_alerts ≡ some a
      → raise_scoped env user dto e f db
        ≡ (ok (record { alert = to_view a false none; notified_count = 0; duplicate = true }), db)
  unfolding raise_scoped
  scoped-same e f db a h = ground (arith, h)

  pub sound_alarm-ok :
      (e : ℕ) (flat : Option Apartment) (db : Db) (r : RaiseResult)
      → (sound_alarm env user dto e flat db).0 ≡ ok r
      → (r.duplicate ≡ false)
        × (r.alert ≡ to_view (new_alert env user dto e flat) false none)
        × ((sound_alarm env user dto e flat db).1.emergency_alerts
            ≡ new_alert env user dto e flat ∷ db.emergency_alerts)
  unfolding sound_alarm dispatch_many
  sound_alarm-ok e flat db r h = ground arith

  scoped-messages :
      (e f : ℕ) (db : Db) (r : RaiseResult) (u : ℕ)
      → (raise_scoped env user dto e f db).0 ≡ ok r
      → messages_of u (raise_scoped env user dto e f db).1
        ≡ (if not r.duplicate && responds e db u then 1 else 0) + messages_of u db
  scoped-messages e f db r u h =
      elim (Option-cases (find (is_duplicate env user dto.kind) db.emergency_alerts)) [
        | inl none_yet ↦
            let new = scoped-new e f db none_yet in
            let (fresh, _, _) = sound_alarm-ok e (flat_of f db) db r (rw new at h) in
            rw (new, fresh) (sound_alarm-messages e (flat_of f db) db u)
        | inr (a, known) ↦
            let same = scoped-same e f db a known in
            let again : r.duplicate ≡ true = ground (arith, same) in rw (same, again) (ground arith)
      ]

  -- An alarm that is raised, and is not the same one again, sends one message to each active officer
  -- of the estate and each of its active admins, and none to anyone else; the same one again
  -- sends none.
  pub raise-messages :
      (estate_id : ℕ) (db : Db) (r : RaiseResult) (u : ℕ)
      → (raise env user dto db).0 ≡ ok r
      → user.estate_id ≡ some estate_id
      → messages_of u (raise env user dto db).1
        ≡ (if not r.duplicate && responds estate_id db u then 1 else 0) + messages_of u db
  raise-messages estate_id db r u h e =
      let (home, flat, role, p, q) = raise-scope user env dto db r h in
      let scoped = raise-scoped user estate_id flat env dto db role e q in
      rw scoped (scoped-messages estate_id flat db r u (rw scoped at h))

-- ===== src/Emergency/Respond/Once.antt =====
-- The first responder wins, and a resident closes only an alert of one's own: `acknowledge` and
-- `resolve` of backend/src/modules/alerts/emergency.service.ts.
use entryva.Base.{
  ℕ, ◌≡◌, ap, ◌∙◌, true, ◌&&◌, not, arith, ◌==◌, Bool-cases, Option-cases, inl, inr, ◌⊎◌, some,
  select, select-update_where, update_where, update_where_none, count_where, count_where-updated,
}
use entryva.Effects.{ok}
use entryva.Store.{EmergencyAlert, Db, Env}
use entryva.Emergency.{AuthenticatedUser, EmergencyView, is_resident, is_staff}
use entryva.Emergency.Respond.{
  answerable, answer, acknowledge_in, acknowledge, closable, close, resolve_in, resolve,
}

acknowledge_in-alerts :
    (env : Env) (user : AuthenticatedUser) (id e : ℕ) (db : Db)
    → (acknowledge_in env user id e db).1.emergency_alerts
      ≡ update_where (answerable id e) (answer env user) db.emergency_alerts
unfolding acknowledge_in
acknowledge_in-alerts env user id e db = ground arith

acknowledge_in-unchanged :
    (env : Env) (user : AuthenticatedUser) (id e : ℕ) (db : Db)
    → count_where (answerable id e) db.emergency_alerts ≡ 0
    → (acknowledge_in env user id e db).1 ≡ db
unfolding acknowledge_in
acknowledge_in-unchanged env user id e db h =
    ground (arith, h, update_where_none (answerable id e) (answer env user) db.emergency_alerts h)

resolve_in-alerts :
    (env : Env) (user : AuthenticatedUser) (id e : ℕ) (db : Db)
    → (resolve_in env user id e db).1.emergency_alerts
      ≡ update_where (closable user id e) (close env user) db.emergency_alerts
unfolding resolve_in
resolve_in-alerts env user id e db = ground arith

acknowledge-scope :
    (env : Env) (user : AuthenticatedUser) (id : ℕ) (db : Db) (v : EmergencyView)
    → (acknowledge env user id db).0 ≡ ok v
    → (e : ℕ) × (user.estate_id ≡ some e)
      × ((acknowledge env user id db).1 ≡ (acknowledge_in env user id e db).1)
unfolding acknowledge
acknowledge-scope env user id db v h = elim (Option-cases user.estate_id) [
  | inl none_set ↦ absurd (ground arith)
  | inr (e, p) ↦ (e, p, ground arith)
]

acknowledge-cases :
    (env : Env) (user : AuthenticatedUser) (id e : ℕ) (db : Db)
    → user.estate_id ≡ some e
    → ((acknowledge env user id db).1 ≡ db)
      ⊎ ((acknowledge env user id db).1 ≡ (acknowledge_in env user id e db).1)
unfolding acknowledge
acknowledge-cases env user id e db p = elim (Bool-cases (is_staff user.role)) [
  | inl s ↦ inr (ground arith)
  | inr s ↦ inl (ground arith)
]

-- After an acknowledgement, another one of the same alert, by anyone of the same estate and at any
-- time, changes nothing: the first responder stays, and nobody is told again.
acknowledge-once :
    (env later : Env) (user second : AuthenticatedUser) (id : ℕ) (db : Db) (v : EmergencyView)
    → (acknowledge env user id db).0 ≡ ok v
    → second.estate_id ≡ user.estate_id
    → let after = (acknowledge env user id db).1 in (acknowledge later second id after).1 ≡ after
acknowledge-once env later user second id db v h same =
    let (e, home, first) = acknowledge-scope env user id db v h in
    let after = (acknowledge env user id db).1 in
    let none_left : count_where (answerable id e) after.emergency_alerts ≡ 0 =
      ap (λ (d : Db). count_where (answerable id e) d.emergency_alerts) first
      ∙ ap (count_where (answerable id e)) (acknowledge_in-alerts env user id e db)
      ∙ count_where-updated (answerable id e) (answer env user) db.emergency_alerts
          (λ a k. ground arith) in
    elim (acknowledge-cases later second id e after (same ∙ home)) [
      | inl refused ↦ refused
      | inr taken ↦ taken ∙ acknowledge_in-unchanged later second id e after none_left
    ]

resolve-cases :
    (env : Env) (user : AuthenticatedUser) (id : ℕ) (db : Db)
    → ((resolve env user id db).1 ≡ db)
      ⊎ ((e : ℕ) × ((resolve env user id db).1 ≡ (resolve_in env user id e db).1))
unfolding resolve
resolve-cases env user id db = elim (Option-cases user.estate_id) [
  | inl none_set ↦ inl (ground arith)
  | inr (e, p) ↦ elim (Bool-cases (not (is_staff user.role) && not (is_resident user.role))) [
    | inl s ↦ inl (ground arith)
    | inr s ↦ inr (e, ground arith)
  ]
]

-- Whatever alert a resident asks to close, the alerts that others have raised stay as they were.
resolve_own :
    (env : Env) (user : AuthenticatedUser) (id : ℕ) (db : Db)
    → is_resident user.role ≡ true
    → select (λ a. not (a.raised_by_id == user.user_id)) (resolve env user id db).1.emergency_alerts
      ≡ select (λ a. not (a.raised_by_id == user.user_id)) db.emergency_alerts
resolve_own env user id db role =
    let others = λ (a : EmergencyAlert). not (a.raised_by_id == user.user_id) in
    elim (resolve-cases env user id db) [
      | inl refused ↦ ap (λ (d : Db). select others d.emergency_alerts) refused
      | inr (e, taken) ↦
          ap (λ (d : Db). select others d.emergency_alerts) taken
          ∙ ap (select others) (resolve_in-alerts env user id e db)
          ∙ select-update_where (closable user id e) (close env user) others db.emergency_alerts
              (λ a k. ground arith)
    ]

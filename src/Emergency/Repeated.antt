-- ===== src/Emergency/Repeated.antt =====
-- Pressing the button again: `raise` of backend/src/modules/alerts/emergency.service.ts.
use mathlib.Core.List.{Memᴰ}
use entryva.Base.{
  ℕ, ◌+◌, ◌≤◌, ◌≡◌, ◌≢◌, refl, sym, ap, ◌∙◌, true, false, arith, ==_refl, Option-cases, inl, inr,
  none, some, ◌∷◌, find, find_head, find_sound, mem_of_find, not_of_find, All, All-mem,
}
use entryva.Effects.{ok}
use entryva.Store.{EmergencyAlert, EmergencyKind, opened, resolved, Db, Env}
use entryva.Emergency.{
  AuthenticatedUser, RaiseEmergency, RaiseResult, is_duplicate, same_kind, raise_scoped, raise,
  to_view, new_alert,
}
use entryva.Emergency.Alarm.{
  raise-scope, raise-scoped, same_kind_refl, flat_of, scoped-new, scoped-same, sound_alarm-ok,
}

same_kind_sound : (a b : EmergencyKind) → same_kind a b ≡ true → a ≡ b
same_kind_sound a b h = ground arith

-- A press in a database, of a resident whose estate and apartment are known.
module _ (now : Env) (user : AuthenticatedUser) (dto : RaiseEmergency) (e f : ℕ) (s : Db) where
  repeat_known :
      (b : EmergencyAlert)
      → Memᴰ b s.emergency_alerts
      → b.raised_by_id ≡ user.user_id
      → b.kind ≡ dto.kind
      → b.status ≢ resolved
      → now.now ≤ b.created_at + 600000
      → (q : RaiseResult) × (raise_scoped now user dto e f s ≡ (ok q, s))
        × (q.duplicate ≡ true)
        × (q.notified_count ≡ 0)
  repeat_known b m who kind live soon =
      elim (Option-cases (find (is_duplicate now user dto.kind) s.emergency_alerts)) [
        | inl e ↦
            let miss = not_of_find (is_duplicate now user dto.kind) s.emergency_alerts b e m in
            absurd (ground (arith, miss, who, kind, live, soon, same_kind_refl dto.kind))
        | inr (a, k) ↦ (
          record { alert = to_view a false none; notified_count = 0; duplicate = true },
          scoped-same now user dto e f s a k,
          refl,
          refl,
        )
      ]

  sounded_anew :
      All
        (λ b. b.raised_by_id ≡ user.user_id → b.kind ≡ dto.kind → b.status ≡ resolved)
        s.emergency_alerts
      → (q : RaiseResult) → (raise_scoped now user dto e f s).0 ≡ ok q
      → (q.duplicate ≡ false)
        × ((raise_scoped now user dto e f s).1.emergency_alerts
            ≡ new_alert now user dto e (flat_of now user dto f s) ∷ s.emergency_alerts)
  sounded_anew done q h =
      elim (Option-cases (find (is_duplicate now user dto.kind) s.emergency_alerts)) [
        | inl k ↦
            let new = scoped-new now user dto e f s k in
            let (fresh, _, rows) =
              sound_alarm-ok now user dto e (flat_of now user dto f s) s q (rw new at h) in
            (fresh, rw new rows)
        | inr (a, k) ↦
            let hit = find_sound (is_duplicate now user dto.kind) s.emergency_alerts a k in
            let over =
              All-mem
                (λ (b : EmergencyAlert).
                  b.raised_by_id ≡ user.user_id → b.kind ≡ dto.kind → b.status ≡ resolved)
                s.emergency_alerts a done
                (mem_of_find (is_duplicate now user dto.kind) s.emergency_alerts a k) (ground arith)
                (same_kind_sound a.kind dto.kind (ground arith)) in
            absurd (ground arith)
      ]

module _ (env : Env) (user : AuthenticatedUser) (dto : RaiseEmergency) where
  -- The alarm of a press that was no repeat.
  scoped-first :
      (e f : ℕ) (db : Db) (r : RaiseResult)
      → (raise_scoped env user dto e f db).0 ≡ ok r
      → r.duplicate ≡ false
      → let row = new_alert env user dto e (flat_of env user dto f db) in
        ((raise_scoped env user dto e f db).1.emergency_alerts ≡ row ∷ db.emergency_alerts)
        × (r.alert ≡ to_view row false none)
  scoped-first e f db r h fresh =
      elim (Option-cases (find (is_duplicate env user dto.kind) db.emergency_alerts)) [
        | inl k ↦
            let new = scoped-new env user dto e f db k in
            let (_, shown, rows) =
              sound_alarm-ok env user dto e (flat_of env user dto f db) db r (rw new at h) in
            (rw new rows, shown)
        | inr (a, k) ↦
            let same = scoped-same env user dto e f db a k in absurd (ground (arith, same))
      ]

  -- A press that sounded an alarm, and was no repeat itself, has put an open alarm in front of the
  -- others. When the button is pressed again by the same resident for the same kind of emergency
  -- within ten minutes, then on any database with those alarms it shows the same alarm, records
  -- nothing and tells nobody; on any database with an alarm of the resident's, of that kind and
  -- of that moment, that is not RESOLVED it is a repeat, records nothing and tells nobody; and on
  -- a database where all alarms of the resident's of that kind are RESOLVED a new one is sounded.
  pub raise-twice :
      (later : Env) (again : RaiseEmergency) (db s : Db) (r : RaiseResult)
      → (raise env user dto db).0 ≡ ok r
      → r.duplicate ≡ false
      → again.kind ≡ dto.kind
      → later.now ≤ env.now + 600000
      → let after = (raise env user dto db).1 in
        (row : EmergencyAlert) × (after.emergency_alerts ≡ row ∷ db.emergency_alerts)
        × (row.status ≡ opened)
        × (s.emergency_alerts ≡ after.emergency_alerts
            → raise later user again s
              ≡ (ok (record { alert = r.alert; notified_count = 0; duplicate = true }), s))
        × ((b : EmergencyAlert)
            → Memᴰ b s.emergency_alerts
            → b.raised_by_id ≡ user.user_id
            → b.kind ≡ dto.kind
            → b.created_at ≡ env.now
            → b.status ≢ resolved
            → (q : RaiseResult) × (raise later user again s ≡ (ok q, s))
              × (q.duplicate ≡ true)
              × (q.notified_count ≡ 0))
        × (All
              (λ b. b.raised_by_id ≡ user.user_id → b.kind ≡ dto.kind → b.status ≡ resolved)
              s.emergency_alerts
            → (q : RaiseResult) → (raise later user again s).0 ≡ ok q
            → (q.duplicate ≡ false)
              × (new : EmergencyAlert) × (new.status ≡ opened)
              × ((raise later user again s).1.emergency_alerts ≡ new ∷ s.emergency_alerts))
  raise-twice later again db s r h fresh kind soon =
      let (home, flat, role, p, q) = raise-scope user env dto db r h in
      let scoped = raise-scoped user home flat env dto db role p q in
      let anew = raise-scoped user home flat later again s role p q in
      let row = new_alert env user dto home (flat_of env user dto flat db) in
      let (rows, shown) = scoped-first home flat db r (rw scoped at h) fresh in
      let front : (raise env user dto db).1.emergency_alerts ≡ row ∷ db.emergency_alerts =
        rw scoped rows in
      let hit : is_duplicate later user again.kind row ≡ true =
        ground (arith, ==_refl user.user_id, same_kind_refl dto.kind) in
      (
        row,
        front,
        refl,
        λ same.
            let found : find (is_duplicate later user again.kind) s.emergency_alerts ≡ some row =
              ap (find (is_duplicate later user again.kind)) (same ∙ front)
              ∙ find_head (is_duplicate later user again.kind) row db.emergency_alerts hit in
            anew
            ∙ scoped-same later user again home flat s row found
            ∙ ap (λ v. (ok (record { alert = v; notified_count = 0; duplicate = true }), s))
                (sym shown),
        λ b m who sort at live. rw anew (
            repeat_known later user again home flat s b m who (sort ∙ sym kind) live
              (ground (arith, at))),
        λ done k g.
            let (new, alarms) =
              sounded_anew later user again home flat s (rw kind done) k (rw anew at g) in
            (
              new,
              new_alert later user again home (flat_of later user again flat s),
              refl,
              rw anew alarms,
            ),
      )

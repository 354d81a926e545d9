-- ===== src/Tests/Alerts.antt =====
-- Examples for emergency alerts.
use mathlib.Core.List.{Memᴰ}
use entryva.Base.{
  ◌≢◌, All, trim, ◌+◌, ◌≡◌, refl, true, false, not, ◌&&◌, arith, none, some, [], ◌∷◌, codes,
  if◌then◌else◌,
}
use entryva.Effects.{ok}
use entryva.Store.{
  resident, security_officer, fire, opened, acknowledged, resolved, EmergencyAlert, Db, Env,
}
use entryva.Emergency.{
  AuthenticatedUser, RaiseEmergency, RaiseResult, EmergencyView, raise, raise_scoped, sound_alarm,
  find_recipient_user_ids, group_ids, dispatch_many, add_all,
}
use entryva.Emergency.Recipients.{responds}
use entryva.Emergency.Alarm.{messages_of, raise-messages}
use entryva.Emergency.Repeated.{raise-twice}
use entryva.Emergency.Respond.{acknowledge, acknowledge_in}
use entryva.Tests.{sample_db, morning}

abbrev caller : AuthenticatedUser
caller = record {
  user_id = 11;
  role = resident;
  display_name = codes "Ada";
  estate_id = some 1;
  apartment_id = some 5;
}

abbrev guard : AuthenticatedUser
guard = record {
  user_id = 21;
  role = security_officer;
  display_name = codes "Uche";
  estate_id = some 1;
  apartment_id = none;
}

abbrev smoke : RaiseEmergency
smoke = record { kind = fire; note = some (codes " smoke ") }

abbrev seen : EmergencyView
seen = record {
  id = 100;
  kind = fire;
  note = some (codes "smoke");
  status = opened;
  apartment_label = 66 ∷ 32 ∷ 183 ∷ 32 ∷ 50 ∷ [];
  raised_by_name = codes "Ada";
  created_at = 25200000;
  acknowledged_by_name = none;
  acknowledged_at = none;
  resolved_by_name = none;
  resolved_at = none;
  call_phone = none;
}

abbrev alarm : RaiseResult
alarm = record { alert = seen; notified_count = 1; duplicate = false }

raised : (raise morning caller smoke sample_db).0 ≡ ok alarm
unfolding raise raise_scoped sound_alarm find_recipient_user_ids group_ids dispatch_many add_all
    trim
raised = refl

abbrev alarmed : Db
alarmed = (raise morning caller smoke sample_db).1

-- Five minutes after the morning.
abbrev soon_after : Env
soon_after = record { now = 25500000; new_id = 102 }

raise-messages_example :
    messages_of 12 (raise morning caller smoke sample_db).1
    ≡ (if not false && responds 1 sample_db 12 then 1 else 0) + messages_of 12 sample_db
raise-messages_example = raise-messages morning caller smoke 1 sample_db alarm 12 raised refl

abbrev open_alert : EmergencyAlert
open_alert = record {
  id = 100;
  estate_id = 1;
  raised_by_id = 11;
  raised_by_name = codes "Ada";
  apartment_label = codes "B 2";
  kind = fire;
  note = none;
  status = opened;
  acknowledged_by = none;
  resolved_by = none;
  created_at = 25200000;
}

abbrev in_hand : EmergencyAlert
in_hand = record open_alert {
  status = acknowledged;
  acknowledged_by = some (21, codes "Uche", 25260000);
}

-- The alarm of the first press was taken in hand by an officer in the meantime.
raise-twice_example :
    let s = record alarmed { emergency_alerts = in_hand ∷ [] } in
    (row : EmergencyAlert) × (alarmed.emergency_alerts ≡ row ∷ [])
    × (row.status ≡ opened)
    × (s.emergency_alerts ≡ alarmed.emergency_alerts
        → raise soon_after caller smoke s
          ≡ (ok (record { alert = seen; notified_count = 0; duplicate = true }), s))
    × ((b : EmergencyAlert)
        → Memᴰ b (in_hand ∷ [])
        → b.raised_by_id ≡ 11
        → b.kind ≡ fire
        → b.created_at ≡ 25200000
        → b.status ≢ resolved
        → (q : RaiseResult) × (raise soon_after caller smoke s ≡ (ok q, s))
          × (q.duplicate ≡ true)
          × (q.notified_count ≡ 0))
    × (All (λ b. b.raised_by_id ≡ 11 → b.kind ≡ fire → b.status ≡ resolved) (in_hand ∷ [])
        → (q : RaiseResult) → (raise soon_after caller smoke s).0 ≡ ok q
        → (q.duplicate ≡ false)
          × (new : EmergencyAlert) × (new.status ≡ opened)
          × ((raise soon_after caller smoke s).1.emergency_alerts ≡ new ∷ in_hand ∷ []))
raise-twice_example =
    raise-twice morning caller smoke soon_after smoke sample_db
      (record alarmed { emergency_alerts = in_hand ∷ [] }) alarm raised refl refl (omega arith)

abbrev ringing : Db
ringing = record sample_db { emergency_alerts = open_alert ∷ [] }

abbrev taken : EmergencyView
taken = record {
  id = 100;
  kind = fire;
  note = none;
  status = acknowledged;
  apartment_label = codes "B 2";
  raised_by_name = codes "Ada";
  created_at = 25200000;
  acknowledged_by_name = some (codes "Uche");
  acknowledged_at = some 25500000;
  resolved_by_name = none;
  resolved_at = none;
  call_phone = none;
}

answered : (acknowledge soon_after guard 100 ringing).0 ≡ ok taken
unfolding acknowledge acknowledge_in
answered = refl

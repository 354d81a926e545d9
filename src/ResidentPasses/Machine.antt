-- ===== src/ResidentPasses/Machine.antt =====
-- What may become of a recurring pass, as an abstract machine: the specification that
-- backend/src/modules/recurring-passes/recurring-passes.service.ts is held to.
use entryva.Base.{
  ℕ, ◌+◌, ◌≤◌, ◌<◌, ◌≡◌, ◌≢◌, refl, Bool, true, false, arith, Option, none, some, if◌then◌else◌,
}
use entryva.Calendar.{DateKey}
use entryva.Calendar.Days.{IsDate, day_number, add_days, day_number-add_days}
use entryva.RecurringPass.{PassStatus}
use entryva.Store.{RecurringPass}
use entryva.ResidentPasses.Change.{is_expired}

pub record PassState : Type 0 where
  pub status : PassStatus
  pub valid_from : DateKey
  pub valid_until : DateKey
  pub linked : Option ℕ

-- What the machine sees of a row.
abbrev pub state_of : RecurringPass → PassState
state_of p = record {
  status = p.rules.status;
  valid_from = p.rules.valid_from;
  valid_until = p.rules.valid_until;
  linked = p.linked_device;
}

-- One step; whether the phone may be reset is a parameter.
pub data Step (resets : Bool) : PassState → PassState → Type 0 where
  pause :
      (s : PassState)
      → s.status ≡ PassStatus.active
      → Step resets s (record s { status = PassStatus.paused })
  resume :
      (s : PassState)
      → s.status ≡ PassStatus.paused
      → Step resets s (record s { status = PassStatus.active })
  revoke :
      (s : PassState)
      → s.status ≢ PassStatus.revoked
      → Step resets s (record s { status = PassStatus.revoked })
  -- A renewed pass starts on a date and lasts from one day to ninety.
  renew :
      (s : PassState) (from : DateKey) (n : ℕ)
      → s.status ≢ PassStatus.revoked
      → IsDate from
      → n < 90
      → Step resets s (record s {
        valid_from = from;
        valid_until = add_days from n;
        status = if is_expired s.status then PassStatus.active else s.status;
      })
  -- Only a pass that has no phone is linked to one.
  link :
      (s : PassState) (device : ℕ)
      → s.linked ≡ none
      → Step resets s (record s { linked = some device })
  reset : (s : PassState) → resets ≡ true → Step resets s (record s { linked = none })

pub data Reach (resets : Bool) (s : PassState) : PassState → Type 0 where
  here : Reach resets s s
  next : {t u : PassState} → Reach resets s t → Step resets t u → Reach resets s u

Step-revoked :
    {resets : Bool} {t u : PassState}
    → Step resets t u
    → t.status ≡ PassStatus.revoked
    → u.status ≡ PassStatus.revoked
Step-revoked (pause s e) h = absurd (cc)
Step-revoked (resume s e) h = absurd (cc)
Step-revoked (revoke s e) h = refl
Step-revoked (renew s from n e v l) h = absurd (e h)
Step-revoked (link s d e) h = h
Step-revoked (reset s e) h = h

-- A revoked pass stays revoked.
pub Reach-revoked :
    {resets : Bool} {s t : PassState}
    → s.status ≡ PassStatus.revoked
    → Reach resets s t
    → t.status ≡ PassStatus.revoked
Reach-revoked h here = h
Reach-revoked h (next r st) = Step-revoked st (Reach-revoked h r)

Step-linked :
    {t u : PassState} {device : ℕ}
    → Step false t u
    → t.linked ≡ some device
    → u.linked ≡ some device
Step-linked (pause s e) h = h
Step-linked (resume s e) h = h
Step-linked (revoke s e) h = h
Step-linked (renew s from n e v l) h = h
Step-linked (link s d e) h = absurd (cc)
Step-linked (reset s e) h = absurd (cc)

-- Without a reset, a linked pass stays linked to the same phone.
pub Reach-linked :
    {s t : PassState} {device : ℕ}
    → s.linked ≡ some device
    → Reach false s t
    → t.linked ≡ some device
Reach-linked h here = h
Reach-linked h (next r st) = Step-linked st (Reach-linked h r)

-- The pass lasts at least a day and at most ninety.
pub record WithinNinety (s : PassState) : Type 0 where
  pub ordered : day_number s.valid_from ≤ day_number s.valid_until
  pub span : day_number s.valid_until + 1 ≤ day_number s.valid_from + 90

Step-WithinNinety :
    {resets : Bool} {t u : PassState} → Step resets t u → WithinNinety t → WithinNinety u
Step-WithinNinety (pause s e) h = record { ordered = h.ordered; span = h.span }
Step-WithinNinety (resume s e) h = record { ordered = h.ordered; span = h.span }
Step-WithinNinety (revoke s e) h = record { ordered = h.ordered; span = h.span }
Step-WithinNinety (renew s from n e v l) h = record {
  ordered = omega (arith, day_number-add_days from n v);
  span = omega (arith, day_number-add_days from n v);
}
Step-WithinNinety (link s d e) h = record { ordered = h.ordered; span = h.span }
Step-WithinNinety (reset s e) h = record { ordered = h.ordered; span = h.span }

pub Reach-WithinNinety :
    {resets : Bool} {s t : PassState} → WithinNinety s → Reach resets s t → WithinNinety t
Reach-WithinNinety h here = h
Reach-WithinNinety h (next r st) = Step-WithinNinety st (Reach-WithinNinety h r)

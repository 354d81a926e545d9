-- ===== src/Extension/Quiet.antt =====
-- Quiet hours as an arc of the clock's face.
use entryva.Base.{ℕ, ◌+◌, ◌-◌, ◌%◌, ◌<◌, ◌≡◌, ◌↔◌, true, arith, some}
use entryva.Extension.{in_quiet_hours}

-- The minutes from one time of day to another, going forward and past midnight if need be.
abbrev pub ahead : ℕ → ℕ → ℕ
ahead a b = (b + 1440 - a) % 1440

-- For minutes of a day, a minute is quiet exactly when it lies less far after the start than the
-- end does, so a window that wraps past midnight is read as one stretch of time.
in_quiet_hours_iff :
    (minute from to : ℕ)
    → minute < 1440
    → from < 1440
    → to < 1440
    → (in_quiet_hours minute (some from) (some to) ≡ true) ↔ (ahead from minute < ahead from to)
unfolding in_quiet_hours
in_quiet_hours_iff minute from to hm hf ht = ground arith

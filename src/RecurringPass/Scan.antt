-- ===== src/RecurringPass/Scan.antt =====
-- What the nine checks of `evaluateRecurringScan` amount to, and what each reason tells the guard.
use mathlib.Core.List.{Memᴰ}
use entryva.Base.{
  ℕ, ◌+◌, ◌≤◌, ◌≡◌, refl, ◌≢◌, ◌⊎◌, inl, inr, Bool, true, false, arith, ◌==◌, Option, none, some,
  is_some, get_or, Text, Bool-cases, Option-cases, mem_of_any, not_of_any, mem_of_find, find_sound,
  not_of_find, ◌&&◌, ◌||◌, not,
}
use entryva.Calendar.{DateKey, date_lt, date_eq, LocalMoment, Parts, local_moment}
use entryva.RecurringPass.{
  PassStatus, scan_in, scan_out, ScanDenyReason, PassRules, ExceptionType, skip, extra,
  PassException, ScanInput, ScanDecision, is_skip, is_extra, extra_today, skipped_today, start_of,
  end_of, outside_dates, on_weekday, outside_window, code_is_current, evaluate_pass,
  evaluate_recurring_scan, default_time_zone, deny_message, evaluate_at,
}

-- An exception of a kind is listed for the day of a moment.
pub data HasException (input : ScanInput) (local : LocalMoment) (t : ExceptionType) : Type 0 where
  listed :
      (e : PassException)
      → Memᴰ e input.exceptions
      → e.date ≡ local.date
      → e.type ≡ t
      → HasException input local t

pub data IsWeekday (pass : PassRules) (local : LocalMoment) : Type 0 where
  allowed : Memᴰ local.weekday pass.days → IsWeekday pass local

date_eq→eq : (a b : DateKey) → date_eq a b ≡ true → a ≡ b
date_eq→eq a b h = ground arith

date_eq_self : (a b : DateKey) → a ≡ b → date_eq a b ≡ true
date_eq_self a b h = ground arith

module _ (input : ScanInput) (local : LocalMoment) where
  pub skipped_sound : skipped_today input.exceptions local ≡ true → HasException input local skip
  unfolding skipped_today
  skipped_sound h =
      let (e, m, t) =
        mem_of_any (λ x. date_eq x.date local.date && is_skip x.type) input.exceptions h in
      HasException.listed e m (date_eq→eq e.date local.date (ground arith)) (ground arith)

  pub not_skipped : skipped_today input.exceptions local ≡ false → ¬ HasException input local skip
  unfolding skipped_today
  not_skipped h (HasException.listed e m d t) = ground (
    arith,
    not_of_any (λ x. date_eq x.date local.date && is_skip x.type) input.exceptions e h m,
    date_eq_self e.date local.date d,
  )

  pub extra_sound :
      is_some (extra_today input.exceptions local) ≡ true → HasException input local extra
  unfolding extra_today
  extra_sound h = elim (Option-cases (extra_today input.exceptions local)) [
    | inl missing ↦ absurd (ground arith)
    | inr (e, f) ↦
        let p = λ (x : PassException). date_eq x.date local.date && is_extra x.type in
        let t = find_sound p input.exceptions e f in
        HasException.listed e (mem_of_find p input.exceptions e f)
          (date_eq→eq e.date local.date (ground arith)) (ground arith)
  ]

  pub not_extra :
      is_some (extra_today input.exceptions local) ≡ false → ¬ HasException input local extra
  unfolding extra_today
  not_extra h (HasException.listed e m d t) = ground (
    arith,
    not_of_find (λ x. date_eq x.date local.date && is_extra x.type) input.exceptions e,
    m,
    date_eq_self e.date local.date d,
  )

module _ (pass : PassRules) (local : LocalMoment) where
  pub IsWeekday-sound : on_weekday pass local ≡ true → IsWeekday pass local
  unfolding on_weekday
  IsWeekday-sound h =
      let (d, m, t) = mem_of_any (λ x. x == local.weekday) pass.days h in
      let e : d ≡ local.weekday = ground arith in IsWeekday.allowed (rw e at m)

  pub not-IsWeekday : on_weekday pass local ≡ false → ¬ IsWeekday pass local
  unfolding on_weekday
  not-IsWeekday h (IsWeekday.allowed m) =
      ground (arith, not_of_any (λ x. x == local.weekday) pass.days local.weekday h m)

module _ (hmac_hex : ℕ → DateKey → Text) (pass : PassRules) (input : ScanInput)
    (local : LocalMoment) where
  abbrev pub IsActive : Type 0
  IsActive = pass.status ≡ PassStatus.active

  pub InDates : Type 0
  InDates =
      (date_lt local.date pass.valid_from ≡ false) × (date_lt pass.valid_until local.date ≡ false)

  pub IsSkipped : Type 0
  IsSkipped = HasException input local skip

  pub IsScheduled : Type 0
  IsScheduled = HasException input local extra ⊎ IsWeekday pass local

  -- The window of the day, an extra day's own hours first, widened by the grace period.
  pub InHours : Type 0
  InHours =
      (get_or (start_of (extra_today input.exceptions local)) pass.start_minute
        ≤ local.minute + pass.grace_minutes)
      × (local.minute
          ≤ get_or (end_of (extra_today input.exceptions local)) pass.end_minute
            + pass.grace_minutes)

  pub HasCode : Type 0
  HasCode =
      (input.code_required ≡ false)
      ⊎ (code_is_current hmac_hex pass.token_hash input.presented_code local ≡ true)

  -- What a decision says of the pass: without a reason that every condition holds, and with a
  -- reason that its condition fails and those that are checked earlier hold.
  abbrev pub Explains : Option ScanDenyReason → Type 0
  Explains none =
      IsActive
      × InDates
      × ¬ IsSkipped
      × IsScheduled
      × InHours
      × (input.blacklisted ≡ false)
      × HasCode
  Explains (some ScanDenyReason.invalid_pass) = ⊥
  Explains (some ScanDenyReason.paused) = pass.status ≡ PassStatus.paused
  Explains (some ScanDenyReason.revoked) = pass.status ≡ PassStatus.revoked
  Explains (some ScanDenyReason.expired) =
      (pass.status ≡ PassStatus.expired) ⊎ (IsActive × ¬ InDates)
  Explains (some ScanDenyReason.skipped) = IsActive × InDates × IsSkipped
  Explains (some ScanDenyReason.not_scheduled) = IsActive × InDates × ¬ IsSkipped × ¬ IsScheduled
  Explains (some ScanDenyReason.outside_hours) =
      IsActive × InDates × ¬ IsSkipped × IsScheduled × ¬ InHours
  Explains (some ScanDenyReason.blacklisted) =
      IsActive × InDates × ¬ IsSkipped × IsScheduled × InHours × (input.blacklisted ≡ true)
  Explains (some ScanDenyReason.code_outdated) =
      IsActive
      × InDates
      × ¬ IsSkipped
      × IsScheduled
      × InHours
      × (input.blacklisted ≡ false)
      × ¬ HasCode

  dates_sound : outside_dates pass local ≡ true → ¬ InDates
  unfolding outside_dates InDates
  dates_sound h = ground arith

  not_outside_dates : outside_dates pass local ≡ false → InDates
  unfolding outside_dates InDates
  not_outside_dates h = ground arith

  hours_sound : outside_window pass (extra_today input.exceptions local) local ≡ true → ¬ InHours
  unfolding outside_window InHours
  hours_sound h = ground arith

  not_outside_hours :
      outside_window pass (extra_today input.exceptions local) local ≡ false → InHours
  unfolding outside_window InHours
  not_outside_hours h = ground arith

  skips_sound : skipped_today input.exceptions local ≡ true → IsSkipped
  unfolding IsSkipped
  skips_sound h = skipped_sound input local h

  no_skip : skipped_today input.exceptions local ≡ false → ¬ IsSkipped
  unfolding IsSkipped
  no_skip h s = not_skipped input local h s

  is_scheduled : Bool
  is_scheduled = is_some (extra_today input.exceptions local) || on_weekday pass local

  scheduled_sound : is_scheduled ≡ true → IsScheduled
  unfolding IsScheduled is_scheduled
  scheduled_sound h = elim (Bool-cases (is_some (extra_today input.exceptions local))) [
    | inl e ↦ inl (extra_sound input local e)
    | inr e ↦ inr (IsWeekday-sound pass local (ground arith))
  ]

  not_scheduled : is_scheduled ≡ false → ¬ IsScheduled
  unfolding IsScheduled is_scheduled
  not_scheduled h (inl e) = not_extra input local (ground arith) e
  not_scheduled h (inr e) = not-IsWeekday pass local (ground arith) e

  has_code : Bool
  has_code =
      not input.code_required || code_is_current hmac_hex pass.token_hash input.presented_code local

  code_sound : has_code ≡ true → HasCode
  unfolding HasCode has_code
  code_sound h = elim (Bool-cases input.code_required) [
    | inl e ↦ inr (ground arith)
    | inr e ↦ inl e
  ]

  no_code : has_code ≡ false → ¬ HasCode
  unfolding HasCode has_code
  no_code h (inl e) = ground arith
  no_code h (inr e) = ground arith

  pub evaluate_pass-Explains : Explains (evaluate_pass hmac_hex pass input local).reason
  unfolding evaluate_pass is_scheduled has_code
  evaluate_pass-Explains = ground (
    arith, dates_sound, not_outside_dates, skips_sound, no_skip, scheduled_sound, not_scheduled,
    hours_sound, not_outside_hours, code_sound, no_code,
  )

module _ (hmac_hex : ℕ → DateKey → Text) (format_to_parts : Text → ℕ → Parts)
    (input : ScanInput) where
  -- The moment that a scan is judged at.
  abbrev pub moment : LocalMoment
  moment = local_moment format_to_parts (get_or input.time_zone default_time_zone) input.now

  abbrev pub ExplainsScan : Option PassRules → Option ScanDenyReason → Type 0
  ExplainsScan none reason = reason ≡ some ScanDenyReason.invalid_pass
  ExplainsScan (some pass) reason = Explains hmac_hex pass input moment reason

  evaluate_at-Explains :
      (p : Option PassRules) → ExplainsScan p (evaluate_at hmac_hex p input moment).reason
  unfolding evaluate_at
  evaluate_at-Explains none = refl
  evaluate_at-Explains (some pass) = evaluate_pass-Explains hmac_hex pass input moment

  -- The reason of a decision says exactly what is wrong: with no pass it is INVALID_PASS; with a
  -- pass, no reason means that the pass is active, in its dates, not skipped, scheduled, inside its
  -- hours, not blocked and shown with a current code, and a reason means that its own condition
  -- fails while those that are checked before it hold.
  pub evaluate_recurring_scan-Explains :
      ExplainsScan input.pass (evaluate_recurring_scan hmac_hex format_to_parts input).reason
  unfolding evaluate_recurring_scan
  evaluate_recurring_scan-Explains = evaluate_at-Explains input.pass

  -- An allowed scan turns IN into OUT and anything else into IN; a refused one has no direction
  -- and carries the message of its reason.
  abbrev pub IsCoherent : ScanDecision → Type 0
  IsCoherent d =
      (d.allowed ≡ true
        → (d.reason ≡ none)
          × (input.last_direction ≡ some scan_in → d.direction ≡ some scan_out)
          × (input.last_direction ≢ some scan_in → d.direction ≡ some scan_in))
      × (d.allowed ≡ false
          → (d.reason ≢ none)
            × (d.direction ≡ none)
            × ((r : ScanDenyReason) → d.reason ≡ some r → d.message ≡ deny_message r))

  evaluate_pass-IsCoherent :
      (pass : PassRules) (local : LocalMoment)
      → IsCoherent (evaluate_pass hmac_hex pass input local)
  unfolding evaluate_pass
  evaluate_pass-IsCoherent pass local = ground arith

  evaluate_at-IsCoherent : (p : Option PassRules) → IsCoherent (evaluate_at hmac_hex p input moment)
  unfolding evaluate_at
  evaluate_at-IsCoherent none = ground arith
  evaluate_at-IsCoherent (some pass) = evaluate_pass-IsCoherent pass moment

  -- A scan is allowed exactly when it has no reason: in after out or nothing, out after in; a
  -- refused scan has its reason's message and no direction.
  pub evaluate_recurring_scan-IsCoherent :
      IsCoherent (evaluate_recurring_scan hmac_hex format_to_parts input)
  unfolding evaluate_recurring_scan
  evaluate_recurring_scan-IsCoherent = evaluate_at-IsCoherent input.pass

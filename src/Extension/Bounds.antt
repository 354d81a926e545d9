-- ===== src/Extension/Bounds.antt =====
-- When an extension is granted, and what it grants.
use entryva.Base.{
  ◌<◌, ◌⊎◌, Option, some, none, ℕ, ◌+◌, ◌*◌, ◌≤◌, ◌≡◌, ◌≢◌, ◌↔◌, max, true, arith, JsNumber, whole,
  below_zero, not_integer,
}
use entryva.Calendar.{LocalMoment}
use entryva.Extension.{
  InvitationStatus, one_time, ExtensionRules, ExtensionTarget, extended, in_quiet_hours,
  evaluate_amount, evaluate_number, evaluate_extension,
}

-- A minute of the day is from the start of the quiet hours on and before their end, also where they
-- pass midnight; an estate without both times, or with equal ones, has none.
abbrev pub InQuietHours : ℕ → Option ℕ → Option ℕ → Type 0
InQuietHours minute (some from) (some to) =
    ((from < to) × (from ≤ minute) × (minute < to))
    ⊎ ((to < from) × ((from ≤ minute) ⊎ (minute < to)))
InQuietHours minute none to = ⊥
InQuietHours minute (some from) none = ⊥

in_quiet_hours-InQuietHours :
    (minute : ℕ) (from to : Option ℕ)
    → (in_quiet_hours minute from to ≡ true) ↔ InQuietHours minute from to
unfolding in_quiet_hours
in_quiet_hours-InQuietHours minute (some from) (some to) = ground arith
in_quiet_hours-InQuietHours minute (some from) none = ground arith
in_quiet_hours-InQuietHours minute none (some to) = ground arith
in_quiet_hours-InQuietHours minute none none = ground arith

module _ (at : ℕ → LocalMoment) (target : ExtensionTarget) (rules : ExtensionRules) (now : ℕ) where
  abbrev IsQuiet : ℕ → Type 0
  IsQuiet t = InQuietHours (at t).minute rules.quiet_from_minute rules.quiet_to_minute

  same_hours :
      (t : ℕ)
      → (in_quiet_hours (at t).minute rules.quiet_from_minute rules.quiet_to_minute ≡ true)
        ↔ IsQuiet t
  same_hours t =
      in_quiet_hours-InQuietHours (at t).minute rules.quiet_from_minute rules.quiet_to_minute

  -- The estate's conditions on adding `n` minutes so that the pass ends at `t`.
  pub record IsAllowed (n t : ℕ) : Type 0 where
    pub enabled : rules.enabled ≡ true
    pub not_revoked : target.status ≢ InvitationStatus.revoked
    pub not_cancelled : target.status ≢ InvitationStatus.cancelled
    pub unused : target.entry_policy ≡ one_time → target.status ≢ InvitationStatus.used
    pub recent : now ≤ target.valid_until + 7200000
    pub some_minutes : 1 ≤ n
    pub not_too_many : n ≤ rules.max_extend_minutes
    pub total : t ≤ target.valid_from + rules.max_total_minutes * 60000
    pub quiet_now : ¬ IsQuiet now
    pub quiet_then : ¬ IsQuiet t
    pub end : t ≡ max target.valid_until now + n * 60000

  evaluate_amount_sound :
      (n m t : ℕ)
      → evaluate_amount at target rules n now ≡ extended t m
      → (m ≡ n)
        × (1 ≤ n)
        × (n ≤ rules.max_extend_minutes)
        × (t ≤ target.valid_from + rules.max_total_minutes * 60000)
        × ¬ IsQuiet now
        × ¬ IsQuiet t
        × (t ≡ max target.valid_until now + n * 60000)
  unfolding evaluate_amount
  evaluate_amount_sound n m t h = ground (arith, same_hours now, same_hours t)

  evaluate_amount_complete :
      (n t : ℕ) → IsAllowed n t → evaluate_amount at target rules n now ≡ extended t n
  unfolding evaluate_amount
  evaluate_amount_complete n t a = ground (arith, same_hours now, same_hours t)

  evaluate_number_sound :
      (requested : JsNumber) (m t : ℕ)
      → evaluate_number at target rules requested now ≡ extended t m
      → requested ≡ whole m
  unfolding evaluate_number
  evaluate_number_sound (whole n) m t h = ground (arith, evaluate_amount_sound n m t h)
  evaluate_number_sound (below_zero _) m t h = cc
  evaluate_number_sound not_integer m t h = cc

  evaluate_extension_sound :
      (requested : JsNumber) (m t : ℕ)
      → evaluate_extension at target rules requested now ≡ extended t m
      → (requested ≡ whole m) × IsAllowed m t
  unfolding evaluate_extension evaluate_number
  evaluate_extension_sound (whole n) m t h = ground (arith, evaluate_amount_sound n m t)
  evaluate_extension_sound (below_zero _) m t h = ground arith
  evaluate_extension_sound not_integer m t h = ground arith

  evaluate_extension_complete :
      (m t : ℕ) → IsAllowed m t → evaluate_extension at target rules (whole m) now ≡ extended t m
  unfolding evaluate_extension evaluate_number
  evaluate_extension_complete m t a = ground (arith, evaluate_amount_complete m t a)

  -- An extension by `m` minutes up to `t` is granted exactly when `m` was asked for and the estate
  -- allows extensions, the pass is not revoked, cancelled or a used one-time pass, it ended at most
  -- two hours ago, `m` is from 1 to the longest single extension, `t` is `m` minutes after the later
  -- of the old end and now and within the longest total, and neither now nor `t` is in quiet hours.
  pub evaluate_extension_iff :
      (requested : JsNumber) (m t : ℕ)
      → (evaluate_extension at target rules requested now ≡ extended t m)
        ↔ ((requested ≡ whole m) × IsAllowed m t)
  evaluate_extension_iff requested m t =
      (evaluate_extension_sound requested m t, λ (e, a). rw e (evaluate_extension_complete m t a))

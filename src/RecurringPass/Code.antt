-- ===== src/RecurringPass/Code.antt =====
-- When a presented daily code counts, and when a person is overdue.
use entryva.Base.{
  ℕ, ◌+◌, ◌<◌, ◌≡◌, ◌≢◌, ◌↔◌, ◌⊎◌, true, arith, Option, none, some, [], ◌∷◌, Text, text_eq_iff,
  trim, to_upper,
}
use entryva.Calendar.{DateKey, date_lt, LocalMoment, Parts, local_moment, previous_date_key}
use entryva.RecurringPass.{
  ScanDirection, scan_in, scan_out, daily_code_for, code_is_current, is_overdue_inside,
}

module _ (hmac_hex : ℕ → DateKey → Text) where
  -- A code counts exactly when it is not empty and, trimmed and in capitals, is today's code, or
  -- yesterday's within the first hour after local midnight.
  pub code_is_current_iff :
      (token_hash : ℕ) (presented : Text) (local : LocalMoment)
      → (code_is_current hmac_hex token_hash (some presented) local ≡ true) ↔ (
          (presented ≢ [])
          × ((to_upper (trim presented) ≡ daily_code_for hmac_hex token_hash local.date)
              ⊎ ((local.minute < 60)
                  × (to_upper (trim presented)
                      ≡ daily_code_for hmac_hex token_hash (previous_date_key local.date)))))
  unfolding code_is_current
  code_is_current_iff token_hash [] local = ground arith
  code_is_current_iff token_hash (c ∷ cs) local = ground (
    arith,
    text_eq_iff (to_upper (trim (c ∷ cs))) (daily_code_for hmac_hex token_hash local.date),
    text_eq_iff (to_upper (trim (c ∷ cs)))
        (daily_code_for hmac_hex token_hash (previous_date_key local.date)),
  )

-- A person is overdue exactly when the last scan was IN, on an earlier day or on this one with the
-- end of the window and the grace period past.
is_overdue_inside_iff :
    (format_to_parts : Text → ℕ → Parts) (last : Option ScanDirection) (date : DateKey)
    (end_minute grace_minutes now : ℕ) (tz : Text)
    → let local = local_moment format_to_parts tz now in
      (is_overdue_inside format_to_parts last (some date) end_minute grace_minutes now (some tz)
        ≡ true)
      ↔ ((last ≡ some scan_in)
          × ((date_lt date local.date ≡ true)
              ⊎ ((local.date ≡ date) × (end_minute + grace_minutes < local.minute))))
unfolding is_overdue_inside
is_overdue_inside_iff format_to_parts none date e g now tz = ground arith
is_overdue_inside_iff format_to_parts (some scan_out) date e g now tz = ground arith
is_overdue_inside_iff format_to_parts (some scan_in) date e g now tz = ground arith

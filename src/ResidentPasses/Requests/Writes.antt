-- ===== src/ResidentPasses/Requests/Writes.antt =====
-- What the operations on recurring passes write to the table of passes.
use entryva.Base.{
  ℕ, ◌-◌, ◌≤◌, ◌≡◌, refl, Bool, ltb, ◌⊎◌, arith, ◌==◌, ◌&&◌, not, Bool-cases, inl, inr, String,
  Option, none, some, is_none, Option-cases, ◌∷◌, find, update_where, Text,
}
use entryva.Calendar.{DateKey, Parts}
use entryva.Calendar.Days.{add_days, date_from_key}
use entryva.Effects.{Result-cases}
use entryva.PassQr.{is_token}
use entryva.RecurringPass.{PassStatus, PassException, skip, extra}
use entryva.Store.{RecurringPass, AuditAction, Db, Env}
use entryva.ResidentPasses.{
  ResidentPassContext, CreateRecurringPass, owns, create, today_in, stored_date, new_pass,
}
use entryva.ResidentPasses.Change.{
  is_revoked, with_status, set_status, with_exception, without_exception, skip_day, add_extra_day,
  ExtraDay, remove_exception, renew, renewed, reset_phone,
}
use entryva.ResidentPasses.Link.{public_view, bad_device, device_hash}

abbrev pub is_row : ℕ → RecurringPass → Bool
is_row x p = p.id == x

-- What an operation does to the passes: nothing, or one write.
module _ (ctx : ResidentPassContext) (id : ℕ) (db : Db) (pass : RecurringPass)
    (found : find (owns ctx id) db.recurring_passes ≡ some pass) where
  pub set_status-passes :
      (from : PassStatus → Bool) (to : PassStatus) (action : PassStatus → PassStatus → AuditAction)
      (fail : String)
      → (set_status ctx id from to action fail db).1.recurring_passes
        ≡ update_where
            (λ p. p.id == pass.id && from p.rules.status)
            (with_status to)
            db.recurring_passes
  unfolding set_status
  set_status-passes from to action fail = ground arith

  pub skip_day-passes :
      (format_to_parts : Text → ℕ → Parts) (env : Env) (date : DateKey)
      → let after = (skip_day format_to_parts env ctx id date db).1.recurring_passes in
        (after ≡ db.recurring_passes)
        ⊎ ((e : PassException) × (after
              ≡ update_where (is_row pass.id) (with_exception e) db.recurring_passes))
  unfolding skip_day
  skip_day-passes format_to_parts env date = elim (Option-cases (date_from_key date)) [
    | inl bad ↦ inl (ground arith)
    | inr (stored, e) ↦ elim (Result-cases (skip_day format_to_parts env ctx id date db)) [
      | inl (r, s, h) ↦ inr (
        record { date = stored; type = skip; start_minute = none; end_minute = none },
        ground arith,
      )
      | inr (x, s, h) ↦ inl (ground arith)
    ]
  ]

  pub add_extra_day-passes :
      (format_to_parts : Text → ℕ → Parts) (env : Env) (dto : ExtraDay)
      → let after = (add_extra_day format_to_parts env ctx id dto db).1.recurring_passes in
        (after ≡ db.recurring_passes)
        ⊎ ((e : PassException) × (after
              ≡ update_where (is_row pass.id) (with_exception e) db.recurring_passes))
  unfolding add_extra_day
  add_extra_day-passes format_to_parts env dto = elim (Option-cases (date_from_key dto.date)) [
    | inl bad ↦ inl (ground arith)
    | inr (stored, e) ↦ elim (Result-cases (add_extra_day format_to_parts env ctx id dto db)) [
      | inl (r, s, h) ↦ inr (
        record {
          date = stored;
          type = extra;
          start_minute = dto.start_minute;
          end_minute = dto.end_minute;
        },
        ground arith,
      )
      | inr (x, s, h) ↦ inl (ground arith)
    ]
  ]

  pub renew-passes :
      (format_to_parts : Text → ℕ → Parts) (env : Env) (days : ℕ)
      → let after = (renew format_to_parts env ctx id days db).1.recurring_passes in
        let today = today_in format_to_parts env ctx.estate_id db in
        (after ≡ db.recurring_passes)
        ⊎ ((days ≤ 90)
            × (after
                ≡ update_where
                    (λ p. p.id == pass.id && not (is_revoked p.rules.status))
                    (renewed today (add_days today (days - 1)) pass)
                    db.recurring_passes))
  unfolding renew
  renew-passes format_to_parts env days = elim (Bool-cases (is_revoked pass.rules.status)) [
    | inl gone ↦ inl (ground arith)
    | inr live ↦ elim (Bool-cases (ltb 90 days)) [
      | inl long ↦ inl (ground arith)
      | inr short ↦ inr (ground arith, ground arith)
    ]
  ]

pub reset_phone-passes :
    (ctx : ResidentPassContext) (id : ℕ) (db : Db) (pass : RecurringPass)
    → find (owns ctx id) db.recurring_passes ≡ some pass
    → (reset_phone ctx id db).1.recurring_passes
      ≡ update_where
          (is_row pass.id)
          (λ p. record p { linked_device = none; linked_at = none })
          db.recurring_passes
unfolding reset_phone
reset_phone-passes ctx id db pass found = ground arith

pub remove_exception-passes :
    (ctx : ResidentPassContext) (id : ℕ) (db : Db) (pass : RecurringPass) (date : DateKey)
    → find (owns ctx id) db.recurring_passes ≡ some pass
    → let after = (remove_exception ctx id date db).1.recurring_passes in
      (after ≡ db.recurring_passes)
      ⊎ ((d : DateKey) × (after
            ≡ update_where (is_row pass.id) (without_exception d) db.recurring_passes))
unfolding remove_exception
remove_exception-passes ctx id db pass date found = elim (Option-cases (date_from_key date)) [
  | inl bad ↦ inl (ground arith)
  | inr (stored, e) ↦ inr (stored, ground arith)
]

pub create-passes :
    (hash : Text → ℕ) (format_to_parts : Text → ℕ → Parts) (env : Env) (ctx : ResidentPassContext)
    (dto : CreateRecurringPass) (token : Text) (db : Db)
    → let after = (create hash format_to_parts env ctx dto token db).1.recurring_passes in
      (after ≡ db.recurring_passes)
      ⊎ ((p : RecurringPass) × (p.id ≡ env.new_id) × (after ≡ p ∷ db.recurring_passes))
unfolding create
create-passes hash format_to_parts env ctx dto token db = elim (Option-cases ctx.apartment_id) [
  | inl homeless ↦ inl (ground arith)
  | inr (a, e) ↦ elim (Option-cases (stored_date dto.valid_from)) [
    | inl bad ↦ inl (ground arith)
    | inr (from, f) ↦ elim (Option-cases (stored_date dto.valid_until)) [
      | inl bad ↦ inl (ground arith)
      | inr (until, u) ↦ elim (Result-cases (create hash format_to_parts env ctx dto token db)) [
        | inl (r, s, h) ↦
            inr (new_pass hash format_to_parts env ctx dto a from until token, refl, ground arith)
        | inr (x, s, h) ↦ inl (ground arith)
      ]
    ]
  ]
]

abbrev pub linked_to : ℕ → ℕ → RecurringPass → RecurringPass
linked_to now device p = record p { linked_device = some device; linked_at = some now }

pub public_view-passes :
    (hash : Text → ℕ) (hmac_hex : ℕ → DateKey → Text) (format_to_parts : Text → ℕ → Parts)
    (env : Env) (token : Text) (device : Option Text) (db : Db)
    → let after =
        (public_view hash hmac_hex format_to_parts env token device db).1.recurring_passes in
      (after ≡ db.recurring_passes)
      ⊎ ((id d : ℕ) × (after
            ≡ update_where
                (λ p. p.id == id && is_none p.linked_device)
                (linked_to env.now d)
                db.recurring_passes))
unfolding public_view
public_view-passes hash hmac_hex format_to_parts env token device db =
    elim (Bool-cases (is_token token)) [
      | inr bad ↦ inl (ground arith)
      | inl good ↦ elim (Bool-cases (bad_device device)) [
        | inl bad ↦ inl (ground arith)
        | inr known ↦
            elim (Option-cases (find (λ p. p.rules.token_hash == hash token) db.recurring_passes)) [
              | inl none_found ↦ inl (ground arith)
              | inr (pass, found) ↦ elim (Option-cases pass.linked_device) [
                | inl new ↦
                    inr (pass.id, device_hash hash hmac_hex format_to_parts device, ground arith)
                | inr (d, old) ↦ inl (ground arith)
              ]
            ]
      ]
    ]

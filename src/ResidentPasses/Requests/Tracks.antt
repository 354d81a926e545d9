-- ===== src/ResidentPasses/Requests/Tracks.antt =====
-- Each operation on recurring passes keeps to the abstract machine, row by row.
use entryva.Base.{
  ℕ, ◌-◌, ◌≤◌, ◌≡◌, ◌≢◌, refl, Bool, true, false, arith, ◌==◌, ◌&&◌, not, Bool-cases, inl, inr,
  Option, none, some, is_none, Option-cases, ◌∷◌, AtMostOne, AtMostOne-update_where, All-find,
  unique_found, find, find-update_where, find_sound, update_where, if◌then◌else◌, Text, String,
}
use entryva.Calendar.{DateKey, Parts, local_moment}
use entryva.Calendar.Days.{IsDate, add_days}
use entryva.RecurringPass.{PassStatus}
use entryva.Store.{RecurringPass, AuditAction, Db, Env}
use entryva.ResidentPasses.{ResidentPassContext, owns, today_in}
use entryva.ResidentPasses.Change.{
  is_revoked, with_status, set_status, with_exception, without_exception, skip_day, add_extra_day,
  ExtraDay, remove_exception, renew, renewed, reset_phone,
}
use entryva.ResidentPasses.Link.{public_view}
use entryva.ResidentPasses.Machine.{PassState, state_of, Step, Reach, next}
use entryva.ResidentPasses.Requests.Writes.{
  is_row, linked_to, set_status-passes, skip_day-passes, add_extra_day-passes, renew-passes,
  reset_phone-passes, remove_exception-passes, public_view-passes,
}

module _ (resets : Bool) (x : ℕ) (s : PassState) where
  -- The row with the id, and how the machine went to it.
  pub record Tracks (db : Db) : Type 0 where
    pub row : RecurringPass
    pub found : find (is_row x) db.recurring_passes ≡ some row
    pub reached : Reach resets s (state_of row)
    pub unique : AtMostOne (is_row x) db.recurring_passes

  pub Tracks-of_eq :
      (db db' : Db) → db'.recurring_passes ≡ db.recurring_passes → Tracks db → Tracks db'
  Tracks-of_eq db db' e t = record {
    row = t.row;
    found = rw e t.found;
    reached = t.reached;
    unique = rw e t.unique;
  }

  -- A write keeps track if it makes of the row what the machine can reach.
  Tracks-write :
      (q : RecurringPass → Bool) (f : RecurringPass → RecurringPass) (db db' : Db)
      → ((p : RecurringPass) → (f p).id ≡ p.id)
      → db'.recurring_passes ≡ update_where q f db.recurring_passes
      → (t : Tracks db) → (q t.row ≡ true → Reach resets s (state_of (f t.row)))
      → Tracks db'
  Tracks-write q f db db' same e t step = record {
    row = if q t.row then f t.row else t.row;
    found = rw e (
        find-update_where q f (is_row x) db.recurring_passes t.row (λ p. ground (arith, same p))
          t.found);
    reached = elim (Bool-cases (q t.row)) [ inl y ↦ rw y (step y) | inr n ↦ rw n t.reached ];
    unique = rw e (
        AtMostOne-update_where (is_row x) q f db.recurring_passes (λ p h. ground (arith, same p))
          t.unique);
  }

  -- A row under another id does not show.
  pub Tracks-insert :
      (p : RecurringPass) (db db' : Db)
      → p.id ≢ x
      → db'.recurring_passes ≡ p ∷ db.recurring_passes
      → Tracks db
      → Tracks db'
  Tracks-insert p db db' ne e t =
      let other : is_row x p ≡ false = ground arith in
      record {
        row = t.row;
        found = rw e (rw other t.found);
        reached = t.reached;
        unique = rw e (λ h. absurd (cc), t.unique);
      }

module _ (resets : Bool) (x : ℕ) (s : PassState) (db : Db) (t : Tracks resets x s db) where
  pub set_status-Tracks :
      (ctx : ResidentPassContext) (id : ℕ) (from : PassStatus → Bool) (to : PassStatus)
      (action : PassStatus → PassStatus → AuditAction) (fail : String)
      → (from t.row.rules.status ≡ true
          → Step resets (state_of t.row) (state_of (with_status to t.row)))
      → Tracks resets x s (set_status ctx id from to action fail db).1
  unfolding set_status
  set_status-Tracks ctx id from to action fail step =
      elim (Option-cases (find (owns ctx id) db.recurring_passes)) [
        | inl e ↦ Tracks-of_eq resets x s db _ (ground arith) t
        | inr (pass, e) ↦
            Tracks-write resets x s (λ p. p.id == pass.id && from p.rules.status) (with_status to)
              db (set_status ctx id from to action fail db).1 (λ p. refl)
              (set_status-passes ctx id db pass e from to action fail) t
              (λ q. next t.reached (step (ground arith)))
      ]

  pub skip_day-Tracks :
      (format_to_parts : Text → ℕ → Parts) (env : Env) (ctx : ResidentPassContext) (id : ℕ)
      (date : DateKey)
      → Tracks resets x s (skip_day format_to_parts env ctx id date db).1
  unfolding skip_day
  skip_day-Tracks format_to_parts env ctx id date =
      elim (Option-cases (find (owns ctx id) db.recurring_passes)) [
        | inl e ↦ Tracks-of_eq resets x s db _ (ground arith) t
        | inr (pass, e) ↦ elim (skip_day-passes ctx id db pass e format_to_parts env date) [
          | inl same ↦ Tracks-of_eq resets x s db _ same t
          | inr (ex, w) ↦
              Tracks-write resets x s (is_row pass.id) (with_exception ex) db _ (λ p. refl) w t
                (λ q. t.reached)
        ]
      ]

  pub add_extra_day-Tracks :
      (format_to_parts : Text → ℕ → Parts) (env : Env) (ctx : ResidentPassContext) (id : ℕ)
      (dto : ExtraDay)
      → Tracks resets x s (add_extra_day format_to_parts env ctx id dto db).1
  unfolding add_extra_day
  add_extra_day-Tracks format_to_parts env ctx id dto =
      elim (Option-cases (find (owns ctx id) db.recurring_passes)) [
        | inl e ↦ Tracks-of_eq resets x s db _ (ground arith) t
        | inr (pass, e) ↦ elim (add_extra_day-passes ctx id db pass e format_to_parts env dto) [
          | inl same ↦ Tracks-of_eq resets x s db _ same t
          | inr (ex, w) ↦
              Tracks-write resets x s (is_row pass.id) (with_exception ex) db _ (λ p. refl) w t
                (λ q. t.reached)
        ]
      ]

  pub remove_exception-Tracks :
      (ctx : ResidentPassContext) (id : ℕ) (date : DateKey)
      → Tracks resets x s (remove_exception ctx id date db).1
  unfolding remove_exception
  remove_exception-Tracks ctx id date =
      elim (Option-cases (find (owns ctx id) db.recurring_passes)) [
        | inl e ↦ Tracks-of_eq resets x s db _ (ground arith) t
        | inr (pass, e) ↦ elim (remove_exception-passes ctx id db pass date e) [
          | inl same ↦ Tracks-of_eq resets x s db _ same t
          | inr (d, w) ↦
              Tracks-write resets x s (is_row pass.id) (without_exception d) db _ (λ p. refl) w t
                (λ q. t.reached)
        ]
      ]

  pub reset_phone-Tracks :
      (ctx : ResidentPassContext) (id : ℕ)
      → resets ≡ true
      → Tracks resets x s (reset_phone ctx id db).1
  unfolding reset_phone
  reset_phone-Tracks ctx id may = elim (Option-cases (find (owns ctx id) db.recurring_passes)) [
    | inl e ↦ Tracks-of_eq resets x s db _ (ground arith) t
    | inr (pass, e) ↦
        Tracks-write resets x s (is_row pass.id)
          (λ p. record p { linked_device = none; linked_at = none }) db (reset_phone ctx id db).1
          (λ p. refl) (reset_phone-passes ctx id db pass e) t
          (λ q. next t.reached (Step.reset (state_of t.row) may))
  ]

  pub public_view-Tracks :
      (hash : Text → ℕ) (hmac_hex : ℕ → DateKey → Text) (format_to_parts : Text → ℕ → Parts)
      (env : Env) (token : Text) (device : Option Text)
      → Tracks resets x s (public_view hash hmac_hex format_to_parts env token device db).1
  public_view-Tracks hash hmac_hex format_to_parts env token device =
      elim (public_view-passes hash hmac_hex format_to_parts env token device db) [
        | inl same ↦ Tracks-of_eq resets x s db _ same t
        | inr (id, d, w) ↦
            Tracks-write resets x s (λ p. p.id == id && is_none p.linked_device)
              (linked_to env.now d) db _ (λ p. refl) w t
              (λ q. next t.reached (Step.link (state_of t.row) d (ground arith)))
      ]

  -- The pass that the resident owns is the row with its id.
  owned_row :
      (ctx : ResidentPassContext) (id : ℕ) (pass : RecurringPass)
      → find (owns ctx id) db.recurring_passes ≡ some pass
      → t.row.id ≡ pass.id
      → pass ≡ t.row
  owned_row ctx id pass e same =
      let own = find_sound (is_row x) db.recurring_passes t.row t.found in
      All-find (λ y. is_row x y ≡ true → y ≡ t.row) (owns ctx id) db.recurring_passes pass
        (unique_found (is_row x) db.recurring_passes t.row t.unique t.found) e (ground arith)

  pub renew-Tracks :
      (format_to_parts : Text → ℕ → Parts)
      → ((zone : Text) (now : ℕ) → IsDate (local_moment format_to_parts zone now).date)
      → (env : Env) (ctx : ResidentPassContext) (id days : ℕ) → 1 ≤ days
      → Tracks resets x s (renew format_to_parts env ctx id days db).1
  unfolding renew
  renew-Tracks format_to_parts dates env ctx id days some_day =
      elim (Option-cases (find (owns ctx id) db.recurring_passes)) [
        | inl e ↦ Tracks-of_eq resets x s db _ (ground arith) t
        | inr (pass, e) ↦ elim (renew-passes ctx id db pass e format_to_parts env days) [
          | inl same ↦ Tracks-of_eq resets x s db _ same t
          | inr (short, w) ↦
              let today = today_in format_to_parts env ctx.estate_id db in
              Tracks-write resets x s (λ p. p.id == pass.id && not (is_revoked p.rules.status))
                (renewed today (add_days today (days - 1)) pass) db _ (λ p. refl) w t
                (λ q.
                  let same : pass ≡ t.row = owned_row ctx id pass e (ground arith) in
                  let live : t.row.rules.status ≢ PassStatus.revoked = λ r. ground (arith, r) in
                  rw same (
                    next t.reached (
                      Step.renew (state_of t.row) today (days - 1) live (dates _ _) (omega arith))))
        ]
      ]

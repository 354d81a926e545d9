-- ===== src/ResidentPasses/Link.antt =====
-- The page of a recurring pass: `publicView` of
-- backend/src/modules/recurring-passes/recurring-passes.service.ts.
use entryva.Base.{
  ℕ, Bool, true, false, ◌&&◌, ◌||◌, not, ltb, ◌==◌, if◌then◌else◌, Option, none, some, is_none,
  List, find, length, count_where, Text,
}
use entryva.Calendar.{DateKey, date_lt, LocalMoment, Parts, local_moment}
use entryva.Effects.{
  Action, gets, modify, throw_if, or_throw, ◌>>=◌, ◌>>◌, bad_request, not_found, forbidden,
  Exception,
}
use entryva.PassQr.{is_token}
use entryva.PassStanding.{zone_of, name_of, label_of}
use entryva.RecurringPass.{PassStatus, daily_code_for}
use entryva.Store.{RecurringPassRole, RecurringPass, Db, Env}
use entryva.ResidentPasses.{status_on}
use entryva.ResidentPasses.Change.{is_active, write_passes}

-- What the page shows.
pub record PublicPass : Type 0 where
  pub full_name : Text
  pub role : RecurringPassRole
  pub status : PassStatus
  pub resident_name : Option Text
  pub apartment_label : Option Text
  pub days : List ℕ
  pub start_minute : ℕ
  pub end_minute : ℕ
  pub valid_from : DateKey
  pub valid_until : DateKey
  pub code : Option Text
  pub code_date : DateKey

-- `OTHER_PHONE`
abbrev pub other_phone : Exception
other_phone = forbidden "This pass is already open on another phone. Ask the resident to reset it."

-- `!deviceId || deviceId.length < 16 || deviceId.length > 128`
abbrev pub bad_device : Option Text → Bool
bad_device none = true
bad_device (some d) = ltb (length d) 16 || ltb 128 (length d)

abbrev pub same_device : Option ℕ → ℕ → Bool
same_device none d = false
same_device (some e) d = e == d

abbrev pub device_of : Option RecurringPass → Option ℕ
device_of none = none
device_of (some p) = p.linked_device

module _ (hash : Text → ℕ) (hmac_hex : ℕ → DateKey → Text)
    (format_to_parts : Text → ℕ → Parts) where
  -- Only asked for an identifier that was checked.
  abbrev pub device_hash : Option Text → ℕ
  device_hash none = 0
  device_hash (some d) = hash d

  -- The pass is linked to a phone that opens it first; the update asks again that it has none.
  unfoldable pub link_device : Env → RecurringPass → ℕ → Action Db (Unit {0})
  link_device env pass device = do
    count ←
        gets
          (λ db. count_where (λ p. p.id == pass.id && is_none p.linked_device) db.recurring_passes)
    modify (
        write_passes (λ p. p.id == pass.id && is_none p.linked_device)
          (λ p. record p { linked_device = some device; linked_at = some env.now }))
    fresh ← gets (λ db. find (λ p. p.id == pass.id) db.recurring_passes)
    throw_if (count == 0 && not (same_device (device_of fresh) device)) other_phone

  -- The phone is linked, or it is the one that was linked.
  abbrev pub check_device : Env → RecurringPass → ℕ → Action Db (Unit {0})
  check_device env pass device =
      if is_none pass.linked_device
      then link_device env pass device
      else throw_if (not (same_device pass.linked_device device)) other_phone

  abbrev pub page : RecurringPass → LocalMoment → Db → PublicPass
  page pass local db =
      let status = status_on local.date pass.rules in
      let inside_dates =
        not (date_lt local.date pass.rules.valid_from)
        && not (date_lt pass.rules.valid_until local.date) in
      record {
        full_name = pass.full_name;
        role = pass.role;
        status = status;
        resident_name = name_of (find (λ r. r.id == pass.resident_id) db.residents);
        apartment_label = label_of (find (λ a. a.id == pass.apartment_id) db.apartments);
        days = pass.rules.days;
        start_minute = pass.rules.start_minute;
        end_minute = pass.rules.end_minute;
        valid_from = pass.rules.valid_from;
        valid_until = pass.rules.valid_until;
        code =
            if is_active status && inside_dates
            then some (daily_code_for hmac_hex pass.rules.token_hash local.date)
            else none;
        code_date = local.date;
      }

  -- `publicView`
  unfoldable pub public_view : Env → Text → Option Text → Action Db PublicPass
  unfolding link_device
  public_view env token device_id = do
    throw_if (not (is_token token)) (not_found "Pass not found.")
    throw_if (bad_device device_id)
        (bad_request "Open this pass in your phone browser to continue.")
    row ← gets (λ db. find (λ p. p.rules.token_hash == hash token) db.recurring_passes)
    pass ← or_throw row (not_found "Pass not found.")
    check_device env pass (device_hash device_id)
    zone ← gets (λ db. zone_of (find (λ e. e.id == pass.estate_id) db.estates))
    gets (page pass (local_moment format_to_parts zone env.now))

-- ===== src/Invitations.antt =====
-- Visitor invitations: backend/src/modules/invitations/invitations.service.ts and
-- backend/src/common/time/visit-window.util.ts. SHA-256, the fresh random token and the reading of
-- a local date and time (luxon) are parameters.
pub mod Created
pub mod Public
use entryva.Base.{
  ℕ, ◌<◌, Bool, true, false, ◌&&◌, not, ltb, leb, ◌==◌, if◌then◌else◌, Option, none, some, get_or,
  List, [], ◌∷◌, ◌++◌, find, select, update_where, count_where, Text, codes, is_some, is_none, any,
}
use entryva.Effects.{
  Action, ok, pure, throw, gets, modify, when, throw_if, or_throw, ◌>>=◌, ◌>>◌, not_found,
  forbidden, gone, bad_request,
}
use entryva.Extension.{InvitationStatus, EntryPolicy, one_time, is_revoked, is_active, is_used}
use entryva.Store.{
  VisitorType, guest, courier, Estate, Apartment, ResidentProfile, Visitor, Invitation, Visit,
  created, revoked, Db, Env, log, dispatch, invitation_created, invitation_revoked,
  invitation_expired, ResidentContext, no_live,
}
use entryva.EntryExit.{is_open}
use entryva.Tokens.{derive_display_code}

-- `CreateInvitationDto`
pub record CreateInvitation : Type 0 where
  pub visitor_name : Text
  pub visitor_phone : Option Text
  pub visit_date : Text
  pub start_time : Text
  pub end_time : Text
  pub visitor_type : Option VisitorType
  pub entry_policy : Option EntryPolicy

-- `${visitDate}T${time}`
abbrev pub local_time : Text → Text → Text
local_time date time = date ++ codes "T" ++ time

-- `resolveVisitWindow`; `from_iso` is `DateTime.fromISO` in a zone, with `none` for what is not
-- valid. The reason that luxon gives is left out of the message.
unfoldable pub resolve_visit_window :
    (Text → Text → Option ℕ) → Text → Text → Text → Text → Action Db (ℕ × ℕ)
resolve_visit_window from_iso timezone date start end = do
  from ←
      or_throw (from_iso timezone (local_time date start))
        (bad_request "Could not interpret the visit start time.")
  until ←
      or_throw (from_iso timezone (local_time date end))
        (bad_request "Could not interpret the visit end time.")
  throw_if (leb until from) (bad_request "endTime must be after startTime on the same visit date.")
  pure (from, until)

-- `estate?.timezone ?? 'UTC'`
abbrev pub timezone_of : Option Estate → Text
timezone_of none = codes "UTC"
timezone_of (some e) = e.timezone

abbrev pub is_courier : Option VisitorType → Bool
is_courier (some courier) = true
is_courier _ = false

-- A courier's pass is for one entry, whatever was asked for.
abbrev pub policy_of : CreateInvitation → EntryPolicy
policy_of dto = if is_courier dto.visitor_type then one_time else get_or dto.entry_policy one_time

abbrev pub new_visitor : Env → ResidentContext → CreateInvitation → Visitor
new_visitor env ctx dto = record {
  id = env.new_id;
  estate_id = ctx.estate_id;
  full_name = dto.visitor_name;
  phone = dto.visitor_phone;
}

-- What a resident gets back, with the two secrets that are shown this once.
pub record CreatedInvitation : Type 0 where
  pub invitation : Invitation
  pub display_code : Text
  pub secure_token : Text

module _ (hash : Text → ℕ) (digest : Text → List ℕ) (from_iso : Text → Text → Option ℕ) where
  abbrev pub new_invitation :
      Env → ResidentContext → CreateInvitation → Apartment → Text → ℕ → ℕ → Invitation
  new_invitation env ctx dto apartment token from until = record {
    id = env.new_id;
    estate_id = ctx.estate_id;
    resident = ctx;
    apartment = apartment;
    visitor = new_visitor env ctx dto;
    secure_token_hash = hash token;
    display_code_hash = hash (derive_display_code digest token);
    valid_from = from;
    valid_until = until;
    status = InvitationStatus.active;
    entry_policy = policy_of dto;
    visitor_type = get_or dto.visitor_type guest;
    revoked_at = none;
    used_at = none;
    live = no_live;
  }

  -- The rows that `createInvitation` writes.
  abbrev pub insert_invitation : Invitation → ResidentContext → Db → Db
  insert_invitation i ctx db =
      log
        (record {
          action = invitation_created i.entry_policy;
          user_id = some ctx.user_id;
          estate_id = some ctx.estate_id;
          entity_id = some i.id;
        })
        (record db {
          visitors = i.visitor ∷ db.visitors;
          invitations = i ∷ db.invitations;
          invitation_events =
              record { invitation_id = i.id; type = created } ∷ db.invitation_events;
        })

  -- `createInvitation`; `token` is what `generateSecureToken` returns.
  unfoldable pub create_invitation :
      Env → ResidentContext → CreateInvitation → Text → Action Db CreatedInvitation
  unfolding resolve_visit_window
  create_invitation env ctx dto token = do
    flat ←
        gets
          (λ db. find (λ a. a.id == ctx.apartment_id && a.estate_id == ctx.estate_id) db.apartments)
    apartment ← or_throw flat (forbidden "Apartment does not belong to this resident/estate.")
    estate ← gets (λ db. find (λ e. e.id == ctx.estate_id) db.estates)
    window ←
        resolve_visit_window from_iso (timezone_of estate) dto.visit_date dto.start_time
          dto.end_time
    modify (insert_invitation (new_invitation env ctx dto apartment token window.0 window.1) ctx)
    pure (record {
      invitation = new_invitation env ctx dto apartment token window.0 window.1;
      display_code = derive_display_code digest token;
      secure_token = token;
    })

-- What the holder of a link sees.
pub record PublicInvitation : Type 0 where
  pub visitor_name : Text
  pub resident_name : Text
  pub apartment_label : Text
  pub estate_name : Option Text
  pub valid_from : ℕ
  pub valid_until : ℕ
  pub status : InvitationStatus
  pub display_code : Text

abbrev pub estate_name_of : Option Estate → Option Text
estate_name_of none = none
estate_name_of (some e) = some e.name

-- `update({ where: { id }, data: { status: 'EXPIRED' } })`
abbrev pub set_expired : ℕ → Db → Db
set_expired id db = record db {
  invitations =
      update_where (λ i. i.id == id) (λ i. record i { status = InvitationStatus.expired })
        db.invitations;
}

-- The lazy expiry of `findPublicByToken` is due.
abbrev pub expiry_due : ℕ → Invitation → Bool
expiry_due now i = ltb i.valid_until now && not (is_used i.status)

-- `findPublicByToken`
unfoldable pub find_public_by_token :
    (Text → ℕ) → (Text → List ℕ) → Env → Text → Action Db PublicInvitation
find_public_by_token hash digest env token = do
  found ← gets (λ db. find (λ i. i.secure_token_hash == hash token) db.invitations)
  i ← or_throw found (not_found "Invitation not found.")
  throw_if (is_revoked i.status) (gone "This invitation has been revoked.")
  estate ← gets (λ db. find (λ e. e.id == i.estate_id) db.estates)
  when (expiry_due env.now i) (set_expired i.id)
  when (expiry_due env.now i)
      (dispatch i.resident.user_id (invitation_expired i.id i.visitor.full_name))
  pure (record {
    visitor_name = i.visitor.full_name;
    resident_name = i.resident.display_name;
    apartment_label = i.apartment.flat_number;
    estate_name = estate_name_of estate;
    valid_from = i.valid_from;
    valid_until = i.valid_until;
    status = if expiry_due env.now i then InvitationStatus.expired else i.status;
    display_code = derive_display_code digest token;
  })

-- The invitations of a resident.
abbrev pub of_resident : ResidentContext → Invitation → Bool
of_resident ctx i = i.resident.id == ctx.id && i.estate_id == ctx.estate_id

-- `listForResident`, as the rows that the answer is shaped from.
unfoldable pub list_for_resident : ResidentContext → Db → List Invitation
list_for_resident ctx db = select (of_resident ctx) db.invitations

pub record ResidentOverview : Type 0 where
  pub active_invitations : ℕ
  pub upcoming_visitors : ℕ
  pub total_visits : ℕ
  pub currently_inside : ℕ

-- The visit's invitation is one of the resident's.
abbrev pub visit_of_resident : ResidentContext → Db → Visit → Bool
visit_of_resident ctx db v = any (λ i. i.id == v.invitation_id && of_resident ctx i) db.invitations

-- `getResidentOverview`
unfoldable pub get_resident_overview : Env → ResidentContext → Db → ResidentOverview
get_resident_overview env ctx db = record {
  active_invitations = count_where (λ i. of_resident ctx i && is_active i.status) db.invitations;
  upcoming_visitors =
      count_where (λ i. of_resident ctx i && (is_active i.status && ltb env.now i.valid_from))
        db.invitations;
  total_visits = count_where (λ v. visit_of_resident ctx db v && is_some v.entered_at) db.visits;
  currently_inside = count_where (λ v. visit_of_resident ctx db v && is_open v) db.visits;
}

-- The rows that `revoke` writes.
abbrev pub revoke_rows : Env → ResidentContext → ℕ → Db → Db
revoke_rows env ctx id db =
    log
      (record {
        action = invitation_revoked;
        user_id = some ctx.user_id;
        estate_id = some ctx.estate_id;
        entity_id = some id;
      })
      (record db {
        invitations =
            update_where (λ i. i.id == id)
              (λ i. record i { status = InvitationStatus.revoked; revoked_at = some env.now })
              db.invitations;
        invitation_events = record { invitation_id = id; type = revoked } ∷ db.invitation_events;
      })

-- `revoke`
unfoldable pub revoke : Env → ResidentContext → ℕ → Action Db (Unit {0})
revoke env ctx id = do
  found ← gets (λ db. find (λ i. i.id == id && of_resident ctx i) db.invitations)
  i ← or_throw found (not_found "Invitation not found.")
  modify (revoke_rows env ctx id)

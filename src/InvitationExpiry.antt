-- ===== src/InvitationExpiry.antt =====
-- The sweep that marks passes expired:
-- backend/src/modules/invitation-expiry/invitation-expiry.service.ts.
pub mod Sweep
use entryva.Base.{
  ℕ, zero, suc, ◌+◌, ◌-◌, ◌*◌, ◌<◌, Bool, true, false, ◌&&◌, ltb, ◌==◌, if◌then◌else◌, List, [],
  ◌∷◌, select, update_where, count_where, take,
}
use entryva.Extension.{InvitationStatus, is_active}
use entryva.Store.{Invitation, Db, dispatch, invitation_expired}

-- `NOTIFY_WITHIN_MS`
abbrev pub notify_within_ms : ℕ
notify_within_ms = 24 * 3600000

-- `BATCH`
abbrev pub batch : ℕ
batch = 200

-- `{ status: 'ACTIVE', validUntil: { lt: t } }`
abbrev pub overdue : ℕ → Invitation → Bool
overdue t i = is_active i.status && ltb i.valid_until t

abbrev pub mark_expired : Invitation → Invitation
mark_expired i = record i { status = InvitationStatus.expired }

abbrev pub overdue_row : ℕ → ℕ → Invitation → Bool
overdue_row now id i = i.id == id && overdue now i

-- One round of the loop: the row is marked, and its resident told, if it still is overdue.
unfoldable pub sweep_row : ℕ → Invitation → ℕ × Db → ℕ × Db
sweep_row now row (expired, db) =
    let marked = record db {
      invitations = update_where (overdue_row now row.id) mark_expired db.invitations;
    } in
    if count_where (overdue_row now row.id) db.invitations == 1
    then (
      expired + 1,
      dispatch row.resident.user_id (invitation_expired row.id row.visitor.full_name) marked,
    )
    else (expired, marked)

-- `for (const inv of recent)`
unfoldable pub sweep_rows : ℕ → List Invitation → ℕ × Db → ℕ × Db
sweep_rows now [] s = s
sweep_rows now (row ∷ rows) s = sweep_rows now rows (sweep_row now row s)

-- The passes whose time ran out before a cutoff, marked without a message.
abbrev pub mark_quietly : ℕ → Db → Db
mark_quietly cutoff db = record db {
  invitations = update_where (overdue cutoff) mark_expired db.invitations;
}

-- `sweep`: the number of passes marked, and the database. The cutoff lies before the epoch only for
-- a `now` on its first day, and no pass is older than either.
unfoldable pub sweep : Bool → ℕ → Db → ℕ × Db
sweep true now db = (0, db)
sweep false now db =
    let cutoff = now - notify_within_ms in
    let quiet = mark_quietly cutoff db in
    sweep_rows now (take batch (select (overdue now) quiet.invitations))
      (count_where (overdue cutoff) db.invitations, quiet)

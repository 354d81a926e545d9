-- ===== src/InvitationExpiry/Sweep.antt =====
-- What one sweep gets done.
use entryva.Base.{
  ℕ, ◌+◌, ◌-◌, ◌≤◌, ◌≡◌, refl, sym, ap, ◌∙◌, subst, inl, inr, Bool, true, false, arith, ◌==◌,
  ==_refl, All, All-mono, All-map_where, any, select, select-cons, take, take_all, length,
  update_where, count_where, List, [], ◌∷◌, Bool-cases, if◌then◌else◌,
}
use entryva.Extension.{InvitationStatus}
use entryva.Store.{Invitation, Db}
use entryva.InvitationExpiry.{
  overdue, overdue_row, mark_expired, sweep_row, sweep_rows, sweep, mark_quietly, batch,
  notify_within_ms,
}

-- Every overdue row of the table is one of those that are still to be marked.
abbrev InRows : ℕ → List Invitation → Invitation → Type 0
InRows now rows x = overdue now x ≡ true → any (λ r. r.id == x.id) rows ≡ true

mark_row :
    (now : ℕ) (row : Invitation) (rows : List Invitation) (x : Invitation)
    → InRows now (row ∷ rows) x
    → InRows now rows (if overdue_row now row.id x then mark_expired x else x)
mark_row now row rows x h = elim (Bool-cases (overdue_row now row.id x)) [
  | inl e ↦ rw e (λ o. absurd (ground arith))
  | inr e ↦ rw e (λ o. ground (arith, h o))
]

sweep_row-invitations :
    (now : ℕ) (row : Invitation) (n : ℕ) (db : Db)
    → (sweep_row now row (n, db)).1.invitations
      ≡ update_where (overdue_row now row.id) mark_expired db.invitations
unfolding sweep_row
sweep_row-invitations now row n db = ground arith

sweep_rows_marks :
    (now : ℕ) (rows : List Invitation) (n : ℕ) (db : Db)
    → All (InRows now rows) db.invitations
    → All (λ x. overdue now x ≡ false) (sweep_rows now rows (n, db)).1.invitations
unfolding sweep_rows
sweep_rows_marks now [] n db h =
    All-mono (InRows now []) (λ x. overdue now x ≡ false) db.invitations
      (λ x k. elim (Bool-cases (overdue now x)) [
        | inl o ↦ absurd (ground (arith, k o))
        | inr o ↦ o
      ])
      h
sweep_rows_marks now (row ∷ rows) n db h =
    let (m, db') = sweep_row now row (n, db) in
    sweep_rows_marks now rows m db' (
      subst (All (InRows now rows)) (sym (sweep_row-invitations now row n db)) (
        All-map_where (InRows now (row ∷ rows)) (InRows now rows) (overdue_row now row.id)
          mark_expired db.invitations (mark_row now row rows) h))

listed_rows : (now : ℕ) (xs : List Invitation) → All (InRows now (select (overdue now) xs)) xs
listed_rows now [] = tt
listed_rows now (y ∷ xs) = elim (Bool-cases (overdue now y)) [
  | inl o ↦
      subst (λ rows. All (InRows now rows) (y ∷ xs))
        (sym (
          select-cons (overdue now) y xs
          ∙ ap (λ b. if b then y ∷ select (overdue now) xs else select (overdue now) xs) o))
        (
          λ _. ground (arith, ==_refl y.id),
          All-mono (InRows now (select (overdue now) xs)) (InRows now (y ∷ select (overdue now) xs))
              xs (λ x k d. ground (arith, k d)) (listed_rows now xs),
        )
  | inr o ↦
      subst (λ rows. All (InRows now rows) (y ∷ xs))
        (sym (
          select-cons (overdue now) y xs
          ∙ ap (λ b. if b then y ∷ select (overdue now) xs else select (overdue now) xs) o))
        (λ d. absurd (ground (arith, o, d)), listed_rows now xs)
]

sweep-none_overdue :
    (now : ℕ) (db : Db)
    → length (select (overdue now) (mark_quietly (now - notify_within_ms) db).invitations) ≤ batch
    → All (λ x. overdue now x ≡ false) (sweep false now db).1.invitations
unfolding sweep
sweep-none_overdue now db h =
    let quiet = mark_quietly (now - notify_within_ms) db in
    rw (take_all batch (select (overdue now) quiet.invitations) h) (
      sweep_rows_marks now (select (overdue now) quiet.invitations) _ quiet
        (listed_rows now quiet.invitations))

-- A sweep that has at most one batch of passes to tell about leaves no ACTIVE pass whose time is
-- over.
pub sweep_complete :
    (now : ℕ) (db : Db)
    → let quiet = mark_quietly (now - notify_within_ms) db in
      length (select (overdue now) quiet.invitations) ≤ batch
      → All
          (λ x. x.status ≡ InvitationStatus.active → now ≤ x.valid_until)
          (sweep false now db).1.invitations
sweep_complete now db h =
    All-mono (λ x. overdue now x ≡ false)
      (λ x. x.status ≡ InvitationStatus.active → now ≤ x.valid_until)
      (sweep false now db).1.invitations (λ x e live. ground arith) (sweep-none_overdue now db h)

sweep_rows-count :
    (now : ℕ) (rows : List Invitation) (n : ℕ) (db : Db)
    → let (m, db') = sweep_rows now rows (n, db) in
      m + length db.notifications ≡ n + length db'.notifications
unfolding sweep_rows sweep_row
sweep_rows-count now [] n db = refl
sweep_rows-count now (row ∷ rows) n db =
    ground
      (arith, sweep_rows-count now rows (sweep_row now row (n, db)).0 (sweep_row now row (n, db)).1)

-- A sweep sends one message for each pass that it counts, but for those that ran out more than a
-- day ago, which are marked without one; a sweep that finds another running does nothing.
sweep-count :
    (running : Bool) (now : ℕ) (db : Db)
    → let (n, db') = sweep running now db in
      (n + length db.notifications
        ≡ length db'.notifications
          + (if running then 0 else count_where (overdue (now - notify_within_ms)) db.invitations))
      × (running ≡ true → db' ≡ db)
unfolding sweep
sweep-count true now db = (omega arith, λ _. refl)
sweep-count false now db =
    let cutoff = now - notify_within_ms in
    (
      omega (
        arith,
        sweep_rows-count now
            (take batch (select (overdue now) (mark_quietly cutoff db).invitations))
            (count_where (overdue cutoff) db.invitations) (mark_quietly cutoff db),
      ),
      λ e. absurd (cc),
    )

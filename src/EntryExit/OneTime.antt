-- ===== src/EntryExit/OneTime.antt =====
-- A one-time invitation lets nobody in twice.
use entryva.Base.{
  ℕ, ◌≡◌, refl, ◌≢◌, ◌⊎◌, true, false, arith, ◌==◌, ◌&&◌, All, All-find, All-mono, count_where,
  count_where_none, some, ==_iff, find_sound, eq_of_some, unique_row, All-map_where, AtMostOne,
  subst, sym, ap, ◌∙◌, if◌then◌else◌, Bool-cases, inl, inr,
}
use entryva.Effects.{ok}
use entryva.Extension.{InvitationStatus, one_time, is_active, is_one_time}
use entryva.Store.{Invitation, Db, Env, SecurityContext}
use entryva.EntryExit.{find_invitation, claimable, use_up, record_entry}
use entryva.EntryExit.Atomic.{claimed, record_entry-ok}

-- A one-time invitation that has let its visitor in; it may have been revoked since.
pub record IsSpent (i : Invitation) : Type 0 where
  pub once : i.entry_policy ≡ one_time
  pub state :
      (i.status ≡ InvitationStatus.used)
      ⊎ (i.status ≡ InvitationStatus.revoked)
      ⊎ (i.status ≡ InvitationStatus.cancelled)

-- Every row with an id is spent.
abbrev pub Spent : ℕ → Db → Type 0
Spent id db = All (λ i. i.id ≡ id → IsSpent i) db.invitations

not_claimable : (id : ℕ) (i : Invitation) → (i.id ≡ id → IsSpent i) → claimable id i ≡ false
not_claimable id i h = elim (Bool-cases (i.id == id)) [
  | inl e ↦ let s = h ((==_iff i.id id).0 e) in ground arith
  | inr e ↦ rw e
]

-- Once a one-time invitation is spent no entry with it succeeds, at any time and for any officer.
pub Spent-record_entry :
    (id : ℕ) (db : Db) (env : Env) (ctx : SecurityContext) (r : ℕ × ℕ)
    → Spent id db
    → (record_entry env ctx id db).0 ≢ ok r
Spent-record_entry id db env ctx r s h =
    let (i, a, _, _, _) = record_entry-ok env ctx id db h in
    let row =
      find_sound (λ x. x.id == id && x.estate_id == ctx.estate_id) db.invitations i a.found in
    let same : i.id ≡ id = ground arith in
    let spent = All-find (λ x. x.id ≡ id → IsSpent x) _ db.invitations i s a.found in
    let none_left =
      count_where_none (claimable i.id) db.invitations
        (All-mono _ _ db.invitations (not_claimable i.id) (rw same s)) in
    ground (arith, (spent same).once)

module _ (env : Env) (i : Invitation) (o : i.entry_policy ≡ one_time) where
  -- A row that is `i` if it has its id.
  abbrev IsRow : Invitation → Type 0
  IsRow x = (x.id == i.id) ≡ true → x ≡ i

  inactive_row : (x : Invitation) → is_active i.status ≡ false → IsRow x → claimable i.id x ≡ false
  inactive_row x a h = ground arith

  used_row :
      (x : Invitation)
      → is_active i.status ≡ true
      → IsRow x
      → (if claimable i.id x then use_up env.now x else x).id ≡ i.id
      → IsSpent (if claimable i.id x then use_up env.now x else x)
  used_row x a h = elim (Bool-cases (claimable i.id x)) [
    | inl e ↦ rw e (λ _. record { once = ground arith; state = inl refl })
    | inr e ↦ rw e (λ d. absurd (ground arith))
  ]

  claimed_rows :
      (db : Db)
      → (is_one_time i.entry_policy ≡ true
          → (count_where (claimable i.id) db.invitations == 0) ≡ false)
      → All IsRow db.invitations
      → All (λ x. x.id ≡ i.id → IsSpent x) (claimed env i db).invitations
  claimed_rows db c rows =
      let once : is_one_time i.entry_policy ≡ true = ground arith in
      elim (Bool-cases (is_active i.status)) [
        | inl a ↦ rw once (
            All-map_where IsRow (λ x. x.id ≡ i.id → IsSpent x) (claimable i.id) (use_up env.now)
              db.invitations (λ x. used_row x a) rows)
        | inr a ↦
            let none_left =
              count_where_none (claimable i.id) db.invitations
                (All-mono IsRow _ db.invitations (λ x. inactive_row x a) rows) in
            absurd (ground (arith, c once))
      ]

-- An entry that succeeds with a one-time invitation, the only one with its id, leaves it spent: it is
-- USED, or revoked or cancelled.
pub record_entry-Spent :
    (id : ℕ) (db : Db) (env : Env) (ctx : SecurityContext) (r : ℕ × ℕ)
    → AtMostOne (λ i. i.id == id) db.invitations
    → (i : Invitation) → find_invitation id ctx db ≡ some i
    → i.entry_policy ≡ one_time
    → (record_entry env ctx id db).0 ≡ ok r
    → Spent id (record_entry env ctx id db).1
record_entry-Spent id db env ctx r unique i f o h =
    let (j, a, _, _, written) = record_entry-ok env ctx id db h in
    let row = find_sound (λ x. x.id == id && x.estate_id == ctx.estate_id) db.invitations i f in
    let same : i.id ≡ id = ground arith in
    let found : j ≡ i = eq_of_some j i (sym a.found ∙ f) in
    let rows =
      unique_row (λ x. x.id == id) (λ x. x.estate_id == ctx.estate_id) db.invitations i unique f in
    let held =
      subst
        (λ x.
          (is_one_time x.entry_policy ≡ true
            → (count_where (claimable x.id) db.invitations == 0) ≡ false))
        found a.claim_held in
    let spent = claimed_rows env i o db held (rw (← same) at rows) in
    subst (All (λ x. x.id ≡ id → IsSpent x))
      (sym (written ∙ ap (λ x. (claimed env x db).invitations) found))
      (subst (λ k. All (λ x. x.id ≡ k → IsSpent x) (claimed env i db).invitations) same spent)

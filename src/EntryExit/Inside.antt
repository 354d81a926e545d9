-- ===== src/EntryExit/Inside.antt =====
-- Who is inside: no invitation ever has two open visits.
use entryva.Base.{
  ℕ, ◌≡◌, Bool, false, arith, ◌==◌, ◌&&◌, AtMostOne, AtMostOne-update_where, AtMostOne-select,
  any_none, any, All, subst, sym, inl, inr, some,
}
use entryva.Effects.{ok, Result-cases}
use entryva.Store.{Invitation, Visit, Db, Env, SecurityContext}
use entryva.EntryExit.{
  is_open, create_visit, close_visit, record_entry, leave, record_exit, list_currently_inside,
}
use entryva.EntryExit.Atomic.{record_entry-ok, record_entry_atomic}

-- An open visit of an invitation.
abbrev pub open_for : ℕ → Visit → Bool
open_for id v = v.invitation_id == id && is_open v

abbrev pub OnceInside : Db → Type 0
OnceInside db = (id : ℕ) → AtMostOne (open_for id) db.visits

create_visit-OnceInside :
    (env : Env) (ctx : SecurityContext) (i : ℕ) (db : Db)
    → OnceInside db
    → any (open_for i) db.visits ≡ false
    → OnceInside (create_visit env ctx i db)
create_visit-OnceInside env ctx i db h out id = (
  λ e.
      let same : i ≡ id = ground arith in
      subst (λ k. All (λ v. open_for k v ≡ false) db.visits) same
        (any_none (open_for i) db.visits out),
  h id,
)

close_visit-OnceInside :
    (env : Env) (ctx : SecurityContext) (v : Visit) (db : Db)
    → OnceInside db
    → OnceInside (close_visit env ctx v db)
close_visit-OnceInside env ctx v db h id =
    AtMostOne-update_where (open_for id) (λ w. w.id == v.id)
      (λ w. record w { exited_at = some env.now }) db.visits (λ w e. ground arith) (h id)

-- Visits that are the same are as well numbered.
OnceInside-of_eq : (db db' : Db) → db'.visits ≡ db.visits → OnceInside db → OnceInside db'
OnceInside-of_eq db db' e h id = subst (AtMostOne (open_for id)) (sym e) (h id)

-- Where no invitation has two open visits, none has two after an entry, however it ends.
pub record_entry-OnceInside :
    (env : Env) (ctx : SecurityContext) (id : ℕ) (db : Db)
    → OnceInside db
    → OnceInside (record_entry env ctx id db).1
record_entry-OnceInside env ctx id db h = elim (Result-cases (record_entry env ctx id db)) [
  | inl (r, db', e) ↦
      let (i, a, _, visits, _) = record_entry-ok env ctx id db {r = r} (rw e) in
      OnceInside-of_eq (create_visit env ctx i.id db) (record_entry env ctx id db).1 visits
        (create_visit-OnceInside env ctx i.id db h a.outside)
  | inr (x, db', e) ↦ subst OnceInside (sym (record_entry_atomic env ctx id db x (rw e))) h
]

pub leave-ok :
    (env : Env) (ctx : SecurityContext) (id : ℕ) (db db' : Db) (r : Visit × Invitation)
    → leave env ctx id db ≡ (ok r, db')
    → db' ≡ close_visit env ctx r.0 db
unfolding leave
leave-ok env ctx id db db' r h = ground arith

-- Where no invitation has two open visits, none has two after an exit, however it ends.
record_exit-OnceInside :
    (env : Env) (ctx : SecurityContext) (id : ℕ) (db : Db)
    → OnceInside db
    → OnceInside (record_exit env ctx id db).1
unfolding record_exit
record_exit-OnceInside env ctx id db h = elim (Result-cases (leave env ctx id db)) [
  | inl (r, db', e) ↦
      OnceInside-of_eq (close_visit env ctx r.0 db) (record_exit env ctx id db).1
        (ground (arith, leave-ok env ctx id db db' r e)) (close_visit-OnceInside env ctx r.0 db h)
  | inr (x, db', e) ↦ OnceInside-of_eq db (record_exit env ctx id db).1 (ground arith) h
]

-- Where no invitation has two open visits, the list of who is inside has at most one for each.
pub list_currently_inside-OnceInside :
    (ctx : SecurityContext) (db : Db) (id : ℕ)
    → OnceInside db
    → AtMostOne (open_for id) (list_currently_inside ctx db)
unfolding list_currently_inside
list_currently_inside-OnceInside ctx db id h = AtMostOne-select (open_for id) _ db.visits (h id)

-- ===== src/Lifecycle/OneTime.antt =====
-- A one-time invitation lets its visitor in once, whatever is requested afterwards.
use entryva.Base.{ℕ, ◌≡◌, ◌≢◌, All, AtMostOne, ◌==◌, List, [], ◌∷◌, some}
use entryva.Effects.{ok}
use entryva.Extension.{one_time}
use entryva.Store.{Invitation, Db, Env, SecurityContext}
use entryva.EntryExit.{find_invitation, record_entry}
use entryva.EntryExit.OneTime.{Spent, Spent-record_entry, record_entry-Spent}
use entryva.Lifecycle.{Platform, Request, serve, serve_all}
use entryva.Lifecycle.Spent.{
  visits_of, Keeps, Keeps-refl, verify_by_qr-Keeps, verify_by_code-Keeps, record_entry-Keeps,
  record_exit-Keeps, deny_entry-Keeps,
}
use entryva.Lifecycle.Passes.{
  Keeps-trans, create_invitation-Keeps, find_public_by_token-Keeps, revoke-Keeps, extend-Keeps,
  sync_batch-Keeps, sweep-Keeps,
}

-- A request gives no new row the id.
abbrev pub IsFresh : ℕ → Request → Type 0
IsFresh id (Request.create_invitation env ctx dto token) = env.new_id ≢ id
IsFresh id _ = Unit

module _ (p : Platform) (id : ℕ) where
  serve-Keeps : (r : Request) (db : Db) → IsFresh id r → Spent id db → Keeps id db (serve p r db)
  unfolding serve
  serve-Keeps (Request.create_invitation env ctx dto token) db f s =
      create_invitation-Keeps id db s p.hash p.digest p.from_iso env ctx dto token f
  serve-Keeps (Request.open_link env token) db f s =
      find_public_by_token-Keeps id db s p.hash p.digest env token
  serve-Keeps (Request.revoke env ctx k) db f s = revoke-Keeps id db s env ctx k
  serve-Keeps (Request.extend env ctx k minutes) db f s =
      extend-Keeps id db s p.local_moment env ctx k minutes
  serve-Keeps (Request.verify_by_qr env ctx token offline) db f s =
      verify_by_qr-Keeps id db s p.hash env ctx token offline
  serve-Keeps (Request.verify_by_code env ctx code) db f s =
      verify_by_code-Keeps id db s p.hash env ctx code
  serve-Keeps (Request.record_entry env ctx k) db f s = record_entry-Keeps id db s env ctx k
  serve-Keeps (Request.record_exit env ctx k) db f s = record_exit-Keeps id db s env ctx k
  serve-Keeps (Request.deny_entry ctx k reason) db f s = deny_entry-Keeps id db s ctx k reason
  serve-Keeps (Request.sync_batch ctx device events) db f s =
      sync_batch-Keeps id db ctx device events s
  serve-Keeps (Request.sweep running now) db f s = sweep-Keeps id db running now s

  serve_all-Keeps :
      (rs : List Request) (db : Db)
      → All (IsFresh id) rs
      → Spent id db
      → Keeps id db (serve_all p rs db)
  unfolding serve_all
  serve_all-Keeps [] db f s = Keeps-refl id db s
  serve_all-Keeps (r ∷ rs) db f s =
      let first = serve-Keeps r db f.0 s in
      Keeps-trans id db (serve p r db) _ first (serve_all-Keeps rs (serve p r db) f.1 first.spent)

-- Once an entry with a one-time invitation, the only one with its id, has succeeded, no sequence of
-- requests (links opened, scans, entries, exits, denials, extensions, revocations, new invitations
-- under other ids, offline batches and sweeps) gives it another visit, and no later entry with it
-- succeeds.
pub one_time_enters_once :
    (p : Platform) (id : ℕ) (db : Db) (env : Env) (ctx : SecurityContext) (r : ℕ × ℕ)
    (i : Invitation) (rs : List Request) (later : Env) (officer : SecurityContext) (r' : ℕ × ℕ)
    → AtMostOne (λ x. x.id == id) db.invitations
    → find_invitation id ctx db ≡ some i
    → i.entry_policy ≡ one_time
    → (record_entry env ctx id db).0 ≡ ok r
    → All (IsFresh id) rs
    → let entered = (record_entry env ctx id db).1 in
      (visits_of id (serve_all p rs entered) ≡ visits_of id entered)
      × ((record_entry later officer id (serve_all p rs entered)).0 ≢ ok r')
one_time_enters_once p id db env ctx r i rs later officer r' unique f o h fresh =
    let s = record_entry-Spent id db env ctx r unique i f o h in
    let kept = serve_all-Keeps p id rs (record_entry env ctx id db).1 fresh s in
    (kept.visits, Spent-record_entry id _ later officer r' kept.spent)

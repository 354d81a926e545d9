-- ===== src/Lifecycle.antt =====
-- The operations that write visits or what admits an invitation, as steps of the whole system.
pub mod Spent
pub mod Passes
pub mod OneTime
use entryva.Base.{ℕ, List, [], ◌∷◌, Text, Option, Bool, JsNumber}
use entryva.Calendar.{LocalMoment}
use entryva.Store.{OfflineEvent, Db, Env, SecurityContext, ResidentContext}
use entryva.Verification
use entryva.EntryExit
use entryva.Invitations
use entryva.Invitations.{CreateInvitation}
use entryva.InvitationExpiry
use entryva.PassExtension
use entryva.OfflineSync

-- What the operations take from outside of the program.
pub record Platform : Type 0 where
  pub hash : Text → ℕ
  pub digest : Text → List ℕ
  pub from_iso : Text → Text → Option ℕ
  pub local_moment : Text → ℕ → LocalMoment

-- One request, or one run of the sweep.
pub data Request : Type 0 where
  create_invitation : Env → ResidentContext → CreateInvitation → Text → Request
  open_link : Env → Text → Request
  revoke : Env → ResidentContext → ℕ → Request
  extend : Env → ResidentContext → ℕ → JsNumber → Request
  verify_by_qr : Env → SecurityContext → Text → Bool → Request
  verify_by_code : Env → SecurityContext → Text → Request
  record_entry : Env → SecurityContext → ℕ → Request
  record_exit : Env → SecurityContext → ℕ → Request
  deny_entry : SecurityContext → ℕ → Option Text → Request
  sync_batch : SecurityContext → Text → List (Env × OfflineEvent) → Request
  sweep : Bool → ℕ → Request

module _ (p : Platform) where
  -- The database after a request.
  unfoldable pub serve : Request → Db → Db
  serve (create_invitation env ctx dto token) db =
      (Invitations.create_invitation p.hash p.digest p.from_iso env ctx dto token db).1
  serve (open_link env token) db = (Invitations.find_public_by_token p.hash p.digest env token db).1
  serve (revoke env ctx id) db = (Invitations.revoke env ctx id db).1
  serve (extend env ctx id minutes) db =
      (PassExtension.extend p.local_moment env ctx id minutes db).1
  serve (verify_by_qr env ctx token offline) db =
      (Verification.verify_by_qr p.hash env ctx token offline db).1
  serve (verify_by_code env ctx code) db = (Verification.verify_by_code p.hash env ctx code db).1
  serve (record_entry env ctx id) db = (EntryExit.record_entry env ctx id db).1
  serve (record_exit env ctx id) db = (EntryExit.record_exit env ctx id db).1
  serve (deny_entry ctx id reason) db = (EntryExit.deny_entry ctx id reason db).1
  serve (sync_batch ctx device events) db = (OfflineSync.sync_batch ctx device events db).1
  serve (sweep running now) db = (InvitationExpiry.sweep running now db).1

  -- The database after a sequence of requests.
  unfoldable pub serve_all : List Request → Db → Db
  unfolding serve
  serve_all [] db = db
  serve_all (r ∷ rs) db = serve_all rs (serve r db)

-- ===== src/ResidentPasses/Requests.antt =====
-- Every operation on recurring passes, as a request.
pub mod Writes
pub mod Tracks
pub mod Refines
pub mod Phone
use entryva.Base.{ℕ, Option, List, [], ◌∷◌, Text}
use entryva.Calendar.{DateKey, Parts}
use entryva.Store.{Db, Env}
use entryva.ResidentPasses
use entryva.ResidentPasses.{ResidentPassContext, CreateRecurringPass}
use entryva.ResidentPasses.Change
use entryva.ResidentPasses.Change.{ExtraDay}
use entryva.ResidentPasses.Link

-- What the operations take from outside of the program.
pub record PassPlatform : Type 0 where
  pub hash : Text → ℕ
  pub hmac_hex : ℕ → DateKey → Text
  pub format_to_parts : Text → ℕ → Parts

pub data PassRequest : Type 0 where
  create : Env → ResidentPassContext → CreateRecurringPass → Text → PassRequest
  pause resume revoke : ResidentPassContext → ℕ → PassRequest
  skip_day : Env → ResidentPassContext → ℕ → DateKey → PassRequest
  add_extra_day : Env → ResidentPassContext → ℕ → ExtraDay → PassRequest
  remove_exception : ResidentPassContext → ℕ → DateKey → PassRequest
  renew : Env → ResidentPassContext → ℕ → ℕ → PassRequest
  reset_phone : ResidentPassContext → ℕ → PassRequest
  open_page : Env → Text → Option Text → PassRequest

module _ (o : PassPlatform) where
  -- The database after a request.
  unfoldable pub serve_pass : PassRequest → Db → Db
  serve_pass (create env ctx dto token) db =
      (ResidentPasses.create o.hash o.format_to_parts env ctx dto token db).1
  serve_pass (pause ctx id) db = (Change.pause ctx id db).1
  serve_pass (resume ctx id) db = (Change.resume ctx id db).1
  serve_pass (revoke ctx id) db = (Change.revoke ctx id db).1
  serve_pass (skip_day env ctx id date) db =
      (Change.skip_day o.format_to_parts env ctx id date db).1
  serve_pass (add_extra_day env ctx id dto) db =
      (Change.add_extra_day o.format_to_parts env ctx id dto db).1
  serve_pass (remove_exception ctx id date) db = (Change.remove_exception ctx id date db).1
  serve_pass (renew env ctx id days) db = (Change.renew o.format_to_parts env ctx id days db).1
  serve_pass (reset_phone ctx id) db = (Change.reset_phone ctx id db).1
  serve_pass (open_page env token device) db =
      (Link.public_view o.hash o.hmac_hex o.format_to_parts env token device db).1

  -- The database after a sequence of requests.
  unfoldable pub serve_passes : List PassRequest → Db → Db
  unfolding serve_pass
  serve_passes [] db = db
  serve_passes (r ∷ rs) db = serve_passes rs (serve_pass r db)

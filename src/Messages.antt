-- ===== src/Messages.antt =====
-- Messages between officers: backend/src/modules/messages/messages.service.ts, and the push that its
-- controller adds. The order of names in the database (`before`) is a parameter.
pub mod Pages
pub mod Unread
use entryva.Base.{
  ℕ, min, Bool, true, false, ◌&&◌, ◌||◌, not, ◌==◌, if◌then◌else◌, Option, none, some, is_none,
  List, [], ◌∷◌, map, find, select, take, update_where, count_where, Text,
}
use entryva.Effects.{Action, Result, ok, err, pure, gets, modify, throw_if, ◌>>=◌, ◌>>◌, forbidden}
use entryva.Store.{OfficerProfile, OfficerMessage, Db, Env}
use entryva.Calls.{Gateway, push_message}

-- `MAX_PAGE_SIZE`
abbrev pub max_page_size : ℕ
max_page_size = 50

pub record MessageDto : Type 0 where
  pub id : ℕ
  pub from_user_id : ℕ
  pub to_user_id : ℕ
  pub body : Text
  pub read_at : Option ℕ
  pub created_at : ℕ

-- `ThreadSummaryDto`, with the officer's name and user.
pub record ThreadSummary : Type 0 where
  pub user_id : ℕ
  pub display_name : Text
  pub last_message : Option MessageDto
  pub unread_count : ℕ

abbrev pub serialize : OfficerMessage → MessageDto
serialize m = record {
  id = m.id;
  from_user_id = m.from_user_id;
  to_user_id = m.to_user_id;
  body = m.body;
  read_at = m.read_at;
  created_at = m.created_at;
}

abbrev pub is_recipient : ℕ → Option OfficerProfile → Bool
is_recipient estate_id none = false
is_recipient estate_id (some o) = o.estate_id == estate_id && o.active

-- `assertSameEstateOfficer`
abbrev pub assert_same_estate_officer : ℕ → ℕ → Action Db (Unit {0})
assert_same_estate_officer estate_id user_id = do
  target ← gets (λ db. find (λ o. o.user_id == user_id) db.officers)
  throw_if (not (is_recipient estate_id target))
      (forbidden "Recipient is not an active security officer on your estate.")

abbrev pub new_message : Env → ℕ → ℕ → ℕ → Text → OfficerMessage
new_message env estate_id from_user_id to_user_id body = record {
  id = env.new_id;
  estate_id = estate_id;
  from_user_id = from_user_id;
  to_user_id = to_user_id;
  body = body;
  read_at = none;
  created_at = env.now;
}

-- `send`
unfoldable pub send : Env → ℕ → ℕ → ℕ → Text → Action Db MessageDto
send env estate_id from_user_id to_user_id body = do
  assert_same_estate_officer estate_id to_user_id
  modify (λ db. record db {
    officer_messages = new_message env estate_id from_user_id to_user_id body ∷ db.officer_messages;
  })
  pure (serialize (new_message env estate_id from_user_id to_user_id body))

-- A message of the conversation of two officers, whoever sent it.
abbrev pub is_between : ℕ → ℕ → ℕ → OfficerMessage → Bool
is_between estate_id user_id other_id m =
    m.estate_id == estate_id
    && ((m.from_user_id == user_id && m.to_user_id == other_id)
        || (m.from_user_id == other_id && m.to_user_id == user_id))

-- The rows from the one with an id on, which is where Prisma starts for a `cursor`.
abbrev pub from_cursor : ℕ → List OfficerMessage → List OfficerMessage
from_cursor id [] = []
from_cursor id (m ∷ ms) = if m.id == id then m ∷ ms else from_cursor id ms

-- `skip: 1`
abbrev pub skip_one : List OfficerMessage → List OfficerMessage
skip_one [] = []
skip_one (m ∷ ms) = ms

abbrev pub rows_after :
    (OfficerMessage → Bool) → Option ℕ → List OfficerMessage → List OfficerMessage
rows_after p none ms = select p ms
rows_after p (some id) ms = skip_one (select p (from_cursor id ms))

-- `getThread`
unfoldable pub get_thread : ℕ → ℕ → ℕ → Option ℕ → ℕ → Db → List MessageDto
get_thread estate_id user_id other_id cursor limit db = map serialize (
    take (min limit max_page_size)
      (rows_after (is_between estate_id user_id other_id) cursor db.officer_messages))

-- A message to the user from the other that was not read.
abbrev pub is_unread : ℕ → ℕ → ℕ → OfficerMessage → Bool
is_unread estate_id user_id other_id m =
    m.estate_id == estate_id
    && (m.to_user_id == user_id && (m.from_user_id == other_id && is_none m.read_at))

-- `markThreadRead`
unfoldable pub mark_thread_read : Env → ℕ → ℕ → ℕ → Db → Db
mark_thread_read env estate_id user_id other_id db = record db {
  officer_messages =
      update_where (is_unread estate_id user_id other_id) (λ m. record m { read_at = some env.now })
        db.officer_messages;
}

abbrev pub last_of : Option OfficerMessage → Option MessageDto
last_of none = none
last_of (some m) = some (serialize m)

-- The officers of `listThreadSummaries`.
abbrev pub is_colleague : ℕ → ℕ → OfficerProfile → Bool
is_colleague estate_id user_id o =
    o.estate_id == estate_id && (o.active && not (o.user_id == user_id))

abbrev pub summary : ℕ → ℕ → Db → OfficerProfile → ThreadSummary
summary estate_id user_id db o = record {
  user_id = o.user_id;
  display_name = o.full_name;
  last_message = last_of (find (is_between estate_id user_id o.user_id) db.officer_messages);
  unread_count = count_where (is_unread estate_id user_id o.user_id) db.officer_messages;
}

module _ (before : Text → Text → Bool) where
  insert_officer : OfficerProfile → List OfficerProfile → List OfficerProfile
  insert_officer o [] = o ∷ []
  insert_officer o (p ∷ ps) =
      if before p.full_name o.full_name then p ∷ insert_officer o ps else o ∷ p ∷ ps

  -- `orderBy: { fullName: 'asc' }`
  unfoldable pub sort_officers : List OfficerProfile → List OfficerProfile
  unfolding insert_officer
  sort_officers [] = []
  sort_officers (o ∷ os) = insert_officer o (sort_officers os)

  -- `listThreadSummaries`
  unfoldable pub list_thread_summaries : ℕ → ℕ → Db → List ThreadSummary
  unfolding sort_officers
  list_thread_summaries estate_id user_id db =
      map (summary estate_id user_id db)
        (sort_officers (select (is_colleague estate_id user_id) db.officers))

-- `sendMessage` of the controller: a message that was saved is pushed to the other officer. What is
-- pushed of it is its text.
unfoldable pub send_message :
    Env → ℕ → ℕ → ℕ → Text → Db × Gateway → Result MessageDto × Db × Gateway
unfolding send
send_message env estate_id user_id other_id body (db, g) =
    let (answer, after) = send env estate_id user_id other_id body db in
    elim answer [
      | ok m ↦ (ok m, after, push_message estate_id other_id m.body g)
      | err e ↦ (err e, after, g)
    ]

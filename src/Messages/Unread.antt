-- ===== src/Messages/Unread.antt =====
-- The count of unread messages: `listThreadSummaries` beside `send` and `markThreadRead` of
-- backend/src/modules/messages/messages.service.ts.
use entryva.Base.{
  ℕ, ◌+◌, ◌≡◌, refl, ◌∙◌, ap₂, false, arith, ◌==◌, ◌&&◌, if◌then◌else◌, Bool-cases, inl, inr, some,
  List, [], ◌∷◌, find, update_where, count_where, Text,
}
use entryva.Store.{OfficerProfile, OfficerMessage, Db, Env}
use entryva.Messages.{is_recipient, send, is_unread, mark_thread_read}

pub data MessageRequest : Type 0 where
  sent : Env → ℕ → ℕ → ℕ → Text → MessageRequest
  read : Env → ℕ → ℕ → ℕ → MessageRequest

-- The database after a request.
unfoldable pub serve_message : MessageRequest → Db → Db
serve_message (sent env estate_id from_user_id to_user_id body) db =
    (send env estate_id from_user_id to_user_id body db).1
serve_message (read env estate_id user_id other_id) db =
    mark_thread_read env estate_id user_id other_id db

unfoldable pub serve_messages : List MessageRequest → Db → Db
unfolding serve_message
serve_messages [] db = db
serve_messages (r ∷ rs) db = serve_messages rs (serve_message r db)

-- The unread messages of a user from another.
abbrev pub unread : ℕ → ℕ → ℕ → Db → ℕ
unread estate_id user_id other_id db =
    count_where (is_unread estate_id user_id other_id) db.officer_messages

module _ (estate_id user_id other_id : ℕ) (officers : List OfficerProfile) where
  -- A counter beside the requests: it grows with each message from the other to the user, if the user
  -- is an officer of the estate, and starts again when the user reads the thread.
  abbrev pub tick : MessageRequest → ℕ → ℕ
  tick (sent env estate from to body) n =
      if (estate == estate_id && (to == user_id && from == other_id))
        && is_recipient estate_id (find (λ o. o.user_id == user_id) officers)
      then n + 1
      else n
  tick (read env estate reader other) n =
      if estate == estate_id && (reader == user_id && other == other_id) then 0 else n

  abbrev pub tally : List MessageRequest → ℕ → ℕ
  tally [] n = n
  tally (r ∷ rs) n = tally rs (tick r n)

read-one :
    (now : ℕ) (estate_id user_id other_id e u o : ℕ) (m : OfficerMessage)
    → is_unread e u o
        (if is_unread estate_id user_id other_id m then record m { read_at = some now } else m)
      ≡ (if estate_id == e && (user_id == u && other_id == o) then false else is_unread e u o m)
read-one now estate_id user_id other_id e u o m = ground arith

read-count :
    (now : ℕ) (estate_id user_id other_id e u o : ℕ) (ms : List OfficerMessage)
    → count_where (is_unread e u o) (
        update_where
          (is_unread estate_id user_id other_id)
          (λ m. record m { read_at = some now })
          ms)
      ≡ (if estate_id == e && (user_id == u && other_id == o)
          then 0
          else count_where (is_unread e u o) ms)
read-count now estate_id user_id other_id e u o [] = ground arith
read-count now estate_id user_id other_id e u o (m ∷ ms) = ground (
  arith,
  read-one now estate_id user_id other_id e u o m,
  read-count now estate_id user_id other_id e u o ms,
)

serve_message-officers :
    (r : MessageRequest) (db : Db) → (serve_message r db).officers ≡ db.officers
unfolding serve_message send mark_thread_read
serve_message-officers (sent env estate_id from to body) db = ground arith
serve_message-officers (read env estate_id user_id other_id) db = refl

serve_message-unread :
    (estate_id user_id other_id : ℕ) (r : MessageRequest) (db : Db)
    → unread estate_id user_id other_id (serve_message r db)
      ≡ tick estate_id user_id other_id db.officers r (unread estate_id user_id other_id db)
unfolding serve_message send mark_thread_read
serve_message-unread estate_id user_id other_id (sent env estate from to body) db =
    elim (Bool-cases (estate == estate_id && (to == user_id && from == other_id))) [
      | inl e ↦
          let same : is_recipient estate (find (λ o. o.user_id == to) db.officers)
              ≡ is_recipient estate_id (find (λ o. o.user_id == user_id) db.officers) =
            ap₂ (λ k v. is_recipient k (find (λ o. o.user_id == v) db.officers)) (ground arith)
              (ground arith) in
          ground (arith, same)
      | inr e ↦ ground arith
    ]
serve_message-unread estate_id user_id other_id (read env estate reader other) db =
    read-count env.now estate reader other estate_id user_id other_id db.officer_messages

-- The count of unread messages that a user is shown for another officer follows the counter: after any
-- sequence of messages sent and threads read, by whomever and in whichever estate, it is what the
-- counter makes of the count before.
pub serve_messages-tally :
    (estate_id user_id other_id : ℕ) (rs : List MessageRequest) (db : Db)
    → unread estate_id user_id other_id (serve_messages rs db)
      ≡ tally estate_id user_id other_id db.officers rs (unread estate_id user_id other_id db)
unfolding serve_messages
serve_messages-tally estate_id user_id other_id [] db = refl
serve_messages-tally estate_id user_id other_id (r ∷ rs) db =
    serve_messages-tally estate_id user_id other_id rs (serve_message r db)
    ∙ ap₂ (λ os n. tally estate_id user_id other_id os rs n) (serve_message-officers r db)
        (serve_message-unread estate_id user_id other_id r db)

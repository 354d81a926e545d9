-- ===== src/Tests/Posts.antt =====
-- Examples for messages and announcements.
use entryva.Base.{
  ℕ, ◌+◌, ◌≡◌, refl, true, arith, none, some, [], ◌∷◌, ◌&&◌, not, map, take, min, codes, ◌==◌,
  if◌then◌else◌,
}
use entryva.Emergency.{AuthenticatedUser}
use entryva.Emergency.Alarm.{messages_of}
use entryva.Store.{UserStatus, estate_admin, announcement, OfficerProfile, OfficerMessage, Db}
use entryva.Messages.{serialize, get_thread, max_page_size}
use entryva.Messages.Pages.{get_thread-pages}
use entryva.Messages.Unread.{MessageRequest, unread, serve_messages, tally, serve_messages-tally}
use entryva.Announcements.{CreateAnnouncement, create}
use entryva.Announcements.Told.{belongs, create-told}
use entryva.Tests.{sample_db, morning, noon}

abbrev sam : OfficerProfile
sam = record {
  id = 30;
  user_id = 20;
  estate_id = 1;
  full_name = codes "Sam";
  active = true;
  user_status = UserStatus.active;
}

abbrev lou : OfficerProfile
lou = record sam { id = 31; user_id = 21; full_name = codes "Lou" }

abbrev message : ℕ → ℕ → ℕ → OfficerMessage
message id from to = record {
  id = id;
  estate_id = 1;
  from_user_id = from;
  to_user_id = to;
  body = codes "Gate 2?";
  read_at = none;
  created_at = 25000000 + id;
}

-- Three messages between the two officers, and one to a third.
abbrev chatting : Db
chatting = record sample_db {
  officers = sam ∷ lou ∷ [];
  officer_messages = message 4 20 21 ∷ message 3 20 22 ∷ message 2 21 20 ∷ message 1 20 21 ∷ [];
}

get_thread-pages_example :
    get_thread 1 20 21 (some 2) 50 chatting
    ≡ map serialize (take (min 50 max_page_size) (message 1 20 21 ∷ []))
get_thread-pages_example =
    get_thread-pages 1 20 21 50 chatting (message 2 21 20) (message 4 20 21 ∷ [])
      (message 1 20 21 ∷ []) (ground arith) refl

serve_messages-tally_example :
    unread 1 21 20 (
      serve_messages
        (MessageRequest.read morning 1 21 20
          ∷ MessageRequest.sent noon 1 20 21 (codes "Gate 3?")
          ∷ [])
        chatting)
    ≡ tally 1 21 20 chatting.officers
        (MessageRequest.read morning 1 21 20
          ∷ MessageRequest.sent noon 1 20 21 (codes "Gate 3?")
          ∷ [])
        (unread 1 21 20 chatting)
serve_messages-tally_example =
    serve_messages-tally 1 21 20
      (MessageRequest.read morning 1 21 20
        ∷ MessageRequest.sent noon 1 20 21 (codes "Gate 3?")
        ∷ [])
      chatting

abbrev author : AuthenticatedUser
author = record {
  user_id = 12;
  role = estate_admin;
  display_name = codes "Eve";
  estate_id = some 1;
  apartment_id = none;
}

abbrev notice : CreateAnnouncement
notice = record { kind = announcement; title = codes "Water"; body = codes "Off until noon." }

create-told_example :
    messages_of 20 (create morning author notice chatting).1
    ≡ (if not (20 == 12) && belongs 1 chatting 20 then 1 else 0) + messages_of 20 chatting
unfolding create
create-told_example =
    create-told morning author notice 1 chatting
      (record {
        id = 100;
        kind = announcement;
        title = codes "Water";
        body = codes "Off until noon.";
        author_name = codes "Eve";
        created_at = 25200000;
      })
      20 refl refl

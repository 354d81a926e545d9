-- ===== src/Calls.antt =====
-- Calls between officers: backend/src/modules/realtime/calls.gateway.ts. The check of a JWT, the
-- decoding of a cookie and the random ids of calls are parameters; a socket is its id with the data
-- that the gateway set on it, and what is emitted is kept in a list.
pub mod Present
pub mod Relay
use entryva.Base.{
  ℕ, Bool, true, false, ◌&&◌, ◌||◌, not, ltb, ◌==◌, if◌then◌else◌, Option, none, some, List, [],
  ◌∷◌, ◌++◌, map, any, find, select, update_where, Text, codes, trim, text_eq,
}
use entryva.PassQr.{split}
use entryva.Store.{
  is_active_user, UserRole, super_admin, estate_admin, resident, security_officer, OfficerProfile,
  User, Db,
}

-- `PresentOfficer`, with the estate that it is filed under: the map of maps is one list of rows.
pub record PresentOfficer : Type 0 where
  pub estate_id : ℕ
  pub socket_id : ℕ
  pub user_id : ℕ
  pub display_name : Text

-- A socket that passed the handshake, with `socket.data`.
pub record OfficerSocket : Type 0 where
  pub socket_id : ℕ
  pub user_id : ℕ
  pub estate_id : ℕ
  pub display_name : Text

-- The events that are relayed from one officer to another.
pub data CallEvent : Type 0 where
  accepted declined cancelled hangup : ℕ → CallEvent
  -- The data of WebRTC, which is not looked at.
  signal : ℕ → Text → CallEvent

pub data Emitted : Type 0 where
  incoming : ℕ → ℕ → Text → Emitted
  ringing : ℕ → ℕ → Emitted
  unavailable : ℕ → Emitted
  -- An event, and who it is from.
  relayed : CallEvent → ℕ → Emitted
  peer_disconnected : ℕ → Emitted
  presence_update : List (ℕ × Text) → Emitted
  message_new : Text → Emitted

-- One socket, or the room of an estate.
pub data Target : Type 0 where
  to_socket to_room : ℕ → Target

pub record Gateway : Type 0 where
  pub presence : List PresentOfficer
  -- The sockets in the rooms of their estates.
  pub sockets : List OfficerSocket
  pub sent : List (Target × Emitted)
  -- The sockets that were refused.
  pub refused : List ℕ

-- What stands before and after the first `=`; without one, the second is empty.
cut_pair : Text → Text × Text
cut_pair [] = ([], [])
cut_pair (c ∷ cs) = let rest = cut_pair cs in if c == 61 then ([], cs) else (c ∷ rest.0, rest.1)

find_cookie : List Text → Option Text
find_cookie [] = none
find_cookie (part ∷ parts) =
    let pair = cut_pair (trim part) in
    if text_eq pair.0 (codes "access_token") then some pair.1 else find_cookie parts

-- `extractAccessTokenCookie`, before the value is decoded.
unfoldable pub access_token_cookie : Option Text → Option Text
unfolding find_cookie cut_pair
access_token_cookie none = none
access_token_cookie (some header) = find_cookie (split 59 header)

abbrev pub is_officer : UserRole → Bool
is_officer security_officer = true
is_officer _ = false

abbrev pub is_present : ℕ → ℕ → PresentOfficer → Bool
is_present estate_id user_id p = p.estate_id == estate_id && p.user_id == user_id

-- `this.presence.get(estateId)?.get(userId)`
unfoldable pub present : ℕ → ℕ → Gateway → Option PresentOfficer
present estate_id user_id g = find (is_present estate_id user_id) g.presence

abbrev pub emit : Target → Emitted → Gateway → Gateway
emit to event g = record g { sent = (to, event) ∷ g.sent }

-- `broadcastPresence`
abbrev pub broadcast_presence : ℕ → Gateway → Gateway
broadcast_presence estate_id g =
    emit (to_room estate_id)
      (presence_update (
        map (λ (p : PresentOfficer). (p.user_id, p.display_name))
          (select (λ p. p.estate_id == estate_id) g.presence)))
      g

-- `setPresence`: a user that is present keeps the place in the map.
unfoldable pub set_presence : PresentOfficer → List PresentOfficer → List PresentOfficer
set_presence p ps =
    if any (is_present p.estate_id p.user_id) ps
    then update_where (is_present p.estate_id p.user_id) (λ q. p) ps
    else ps ++ p ∷ []

abbrev pub present_by : OfficerSocket → PresentOfficer
present_by s = record {
  estate_id = s.estate_id;
  socket_id = s.socket_id;
  user_id = s.user_id;
  display_name = s.display_name;
}

abbrev pub join : OfficerSocket → Gateway → Gateway
join s g =
    broadcast_presence s.estate_id
      (record g { sockets = s ∷ g.sockets; presence = set_presence (present_by s) g.presence })

-- The officer that a user is, if the user may use the channel.
abbrev pub officer_for : Option User → Db → Option OfficerProfile
officer_for none db = none
officer_for (some u) db =
    if is_active_user u.status && is_officer u.role
    then find (λ o. o.user_id == u.id) db.officers
    else none

abbrev pub user_of : Option ℕ → Db → Option User
user_of none db = none
user_of (some id) db = find (λ u. u.id == id) db.users

abbrev pub token_subject : (Text → Option ℕ) → Option Text → Option ℕ
token_subject verify none = none
token_subject verify (some []) = none
token_subject verify (some (c ∷ cs)) = verify (c ∷ cs)

-- The socket of an officer.
abbrev pub socket_for : ℕ → OfficerProfile → OfficerSocket
socket_for id o = record {
  socket_id = id;
  user_id = o.user_id;
  estate_id = o.estate_id;
  display_name = o.full_name;
}

-- `handleConnection`; `verify` decodes the value of the cookie and gives the `sub` of a valid JWT.
unfoldable pub handle_connection : (Text → Option ℕ) → Db → ℕ → Option Text → Gateway → Gateway
unfolding access_token_cookie set_presence
handle_connection verify db id cookie g =
    elim (officer_for (user_of (token_subject verify (access_token_cookie cookie)) db) db) [
      | none ↦ record g { refused = id ∷ g.refused }
      | some o ↦ join (socket_for id o) g
    ]

-- A socket is its id and its data.
abbrev pub same_socket : OfficerSocket → OfficerSocket → Bool
same_socket s t =
    s.socket_id == t.socket_id && (s.user_id == t.user_id && s.estate_id == t.estate_id)

-- `handleDisconnect` of a socket that passed the handshake.
unfoldable pub handle_disconnect : OfficerSocket → Gateway → Gateway
handle_disconnect s g = broadcast_presence s.estate_id (
    emit (to_room s.estate_id) (peer_disconnected s.user_id) (record g {
      sockets = select (λ t. not (same_socket t s)) g.sockets;
      presence = select (λ p. not (is_present s.estate_id s.user_id p)) g.presence;
    }))

-- `handleInvite`; `call_id` is the fresh random one.
unfoldable pub handle_invite : ℕ → OfficerSocket → ℕ → Gateway → Gateway
unfolding present
handle_invite call_id s to_user g = elim (present s.estate_id to_user g) [
  | none ↦ emit (to_socket s.socket_id) (unavailable to_user) g
  | some target ↦
      emit (to_socket s.socket_id) (ringing call_id to_user)
        (emit (to_socket target.socket_id) (incoming call_id s.user_id s.display_name) g)
]

-- `relayToUser`, for `handleAccept`, `handleDecline`, `handleCancel`, `handleHangup` and
-- `handleSignal`.
unfoldable pub relay_to_user : OfficerSocket → ℕ → CallEvent → Gateway → Gateway
unfolding present
relay_to_user s to_user event g = elim (present s.estate_id to_user g) [
  | none ↦ emit (to_socket s.socket_id) (unavailable to_user) g
  | some target ↦ emit (to_socket target.socket_id) (relayed event s.user_id) g
]

-- `pushMessage`
unfoldable pub push_message : ℕ → ℕ → Text → Gateway → Gateway
unfolding present
push_message estate_id to_user message g = elim (present estate_id to_user g) [
  | none ↦ g
  | some target ↦ emit (to_socket target.socket_id) (message_new message) g
]

-- ===== src/Calls/Present.antt =====
-- Who can be called: backend/src/modules/realtime/calls.gateway.ts keeps the officers of an estate
-- apart from those of another.
use entryva.Base.{
  ℕ, ◌≡◌, Bool, true, false, arith, ◌==◌, ◌&&◌, not, Bool-cases, inl, inr, Option, Option-cases,
  List, [], ◌∷◌, ◌++◌, All, All-mono, All-select, All-update_where, any, select, Text,
}
use entryva.Store.{Db}
use entryva.Calls.{
  PresentOfficer, OfficerSocket, Gateway, is_present, set_presence, present_by, join, officer_for,
  user_of, token_subject, access_token_cookie, socket_for, handle_connection, same_socket,
  handle_disconnect,
}

-- The socket of a present officer.
abbrev pub is_socket_of : PresentOfficer → OfficerSocket → Bool
is_socket_of p s =
    s.socket_id == p.socket_id && (s.user_id == p.user_id && s.estate_id == p.estate_id)

-- Every officer that can be called has a socket that passed the handshake for the estate.
abbrev pub HasSocket : List OfficerSocket → PresentOfficer → Type 0
HasSocket ss p = any (is_socket_of p) ss ≡ true

abbrev pub AllConnected : Gateway → Type 0
AllConnected g = All (HasSocket g.sockets) g.presence

All-snoc {ℓ κ} :
    {A : Type ℓ} (P : A → Type κ) (xs : List A) (x : A) → All P xs → P x → All P (xs ++ x ∷ [])
All-snoc P [] x h p = (p, tt)
All-snoc P (y ∷ ys) x h p = (h.0, All-snoc P ys x h.1 p)

set_presence-All :
    (P : PresentOfficer → Type 0) (p : PresentOfficer) (ps : List PresentOfficer)
    → P p
    → All P ps
    → All P (set_presence p ps)
unfolding set_presence
set_presence-All P p ps h all = elim (Bool-cases (any (is_present p.estate_id p.user_id) ps)) [
  | inl e ↦
      rw e (All-update_where P (is_present p.estate_id p.user_id) (λ q. p) ps (λ q k m. h) all)
  | inr e ↦ rw e (All-snoc P ps p all h)
]

join-AllConnected : (s : OfficerSocket) (g : Gateway) → AllConnected g → AllConnected (join s g)
join-AllConnected s g all =
    set_presence-All (HasSocket (s ∷ g.sockets)) (present_by s) g.presence (ground arith) (
      All-mono (HasSocket g.sockets) (HasSocket (s ∷ g.sockets)) g.presence (λ p h. ground arith)
        all)

pub handle_connection-AllConnected :
    (verify : Text → Option ℕ) (db : Db) (id : ℕ) (cookie : Option Text) (g : Gateway)
    → AllConnected g
    → AllConnected (handle_connection verify db id cookie g)
unfolding handle_connection
handle_connection-AllConnected verify db id cookie g all =
    elim (Option-cases
      (officer_for (user_of (token_subject verify (access_token_cookie cookie)) db) db)) [
        | inl e ↦ rw (e, handle_connection) all
        | inr (o, e) ↦ rw (e, handle_connection) (join-AllConnected (socket_for id o) g all)
      ]

any-kept :
    (s : OfficerSocket) (p : PresentOfficer) (ss : List OfficerSocket)
    → is_present s.estate_id s.user_id p ≡ false
    → any (is_socket_of p) ss ≡ true
    → any (is_socket_of p) (select (λ t. not (same_socket t s)) ss) ≡ true
any-kept s p [] n h = cc
any-kept s p (t ∷ ts) n h = ground (arith, any-kept s p ts n)

pub handle_disconnect-AllConnected :
    (s : OfficerSocket) (g : Gateway) → AllConnected g → AllConnected (handle_disconnect s g)
unfolding handle_disconnect
handle_disconnect-AllConnected s g all =
    All-select (HasSocket g.sockets) (HasSocket (select (λ t. not (same_socket t s)) g.sockets))
      (λ p. not (is_present s.estate_id s.user_id p)) g.presence
      (λ p h keep. any-kept s p g.sockets (ground arith) h) all

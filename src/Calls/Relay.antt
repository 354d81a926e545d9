-- ===== src/Calls/Relay.antt =====
-- What reaches whom: the events of backend/src/modules/realtime/calls.gateway.ts in sequence.
use entryva.Base.{ℕ, Option, List, [], ◌∷◌, Text}
use entryva.Store.{Db}
use entryva.Calls.{
  OfficerSocket, CallEvent, Gateway, handle_connection, handle_disconnect, handle_invite,
  relay_to_user, push_message,
}

pub data GatewayEvent : Type 0 where
  connected : (Text → Option ℕ) → Db → ℕ → Option Text → GatewayEvent
  disconnected : OfficerSocket → GatewayEvent
  invited : ℕ → OfficerSocket → ℕ → GatewayEvent
  relay : OfficerSocket → ℕ → CallEvent → GatewayEvent
  message : ℕ → ℕ → Text → GatewayEvent

-- The gateway after an event.
unfoldable pub serve_event : GatewayEvent → Gateway → Gateway
serve_event (connected verify db id cookie) g = handle_connection verify db id cookie g
serve_event (disconnected s) g = handle_disconnect s g
serve_event (invited call_id s to_user) g = handle_invite call_id s to_user g
serve_event (relay s to_user event) g = relay_to_user s to_user event g
serve_event (message estate_id to_user text) g = push_message estate_id to_user text g

-- The gateway after a sequence of events, from its start.
unfoldable pub serve_events : List GatewayEvent → Gateway → Gateway
unfolding serve_event
serve_events [] g = g
serve_events (e ∷ es) g = serve_events es (serve_event e g)

abbrev pub fresh_gateway : Gateway
fresh_gateway = record { presence = []; sockets = []; sent = []; refused = [] }

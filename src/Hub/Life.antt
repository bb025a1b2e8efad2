-- ===== src/Hub/Life.antt =====
-- internal/websocket/hub.go with client.go: the life of the hub as a sequence of events.
use trt_whats.Common.{ℕ, false, List, [], ◌∷◌, Option, none, some, lookup, insert, nat_eq_on}
use trt_whats.Hub.{
  Client, Hub, BroadcastMessage, register_client, unregister_client, broadcast_message,
}

-- A client that connects is a new record; it is registered once it is authenticated. Its ReadPump
-- unregisters it at its end.
pub data Event : Type 0 where
  connects : ℕ → ℕ → ℕ → Event  -- the address, the user, the organization
  disconnects : ℕ → Event
  views : ℕ → Option ℕ → Event  -- the set_contact message
  broadcasts : BroadcastMessage → Event

abbrev pub new_client : ℕ → ℕ → Client
new_client user org = record {
  user_id = user;
  organization_id = org;
  current_contact = none;
  send = [];
  closed = false;
}

abbrev pub view : Option ℕ → Client → Client
view contact k = record k { current_contact = contact }

-- An address in use is not allocated again.
unfoldable pub connect : ℕ → ℕ → ℕ → Hub → Hub
unfolding register_client
connect c user org h = elim (lookup c h.heap) [
  | some k ↦ h
  | none ↦ register_client c (record h { heap = insert c (new_client user org) h.heap })
]

unfoldable pub set_contact : ℕ → Option ℕ → Hub → Hub
set_contact c contact h = elim (lookup c h.heap) [
  | none ↦ h
  | some k ↦ record h { heap = insert c (view contact k) h.heap }
]

unfoldable pub step : Hub → Event → Hub
unfolding connect set_contact unregister_client broadcast_message
step h (connects c user org) = connect c user org h
step h (disconnects c) = unregister_client c h
step h (views c contact) = set_contact c contact h
step h (broadcasts msg) = broadcast_message msg h

unfoldable pub run : Hub → List Event → Hub
unfolding step
run h [] = h
run h (e ∷ es) = run (step h e) es

abbrev pub empty : Hub
empty = record { clients = []; heap = []; panicked = false }

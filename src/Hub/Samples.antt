-- ===== src/Hub/Samples.antt =====
-- internal/websocket/hub.go: a few events, and the theorems at them.
use trt_whats.Common.{
  ℕ, ◌≡◌, ◌≢◌, refl, true, false, List, [], ◌∷◌, none, some, codes, lookup, contains, nat_eq_on,
  insert, arith, select,
}
use trt_whats.Hub.{
  Client, Clients, BroadcastMessage, add_client, is_user_online, online_user_ids,
  filter_online_users, broadcast_message, register_client,
}
use trt_whats.Hub.Life.{Event, connect, step, run, empty}
use trt_whats.Hub.Sound.{IsOpenIn}
use trt_whats.Hub.Safety.{empty-IsSound, run-IsSound, run-empty}
use trt_whats.Hub.Online.{online_user_ids-is_user_online}
use trt_whats.Hub.Isolation.{broadcast_message-other_org}

-- Users 5 and 6 of organization 1, user 7 of organization 2.
abbrev arrivals : List Event
arrivals =
    Event.connects 20 5 1
    ∷ Event.connects 21 5 1
    ∷ Event.connects 22 6 1
    ∷ Event.connects 23 7 2
    ∷ []

abbrev clients : Clients
clients = (1, (5, 20 ∷ 21 ∷ []) ∷ (6, 22 ∷ []) ∷ []) ∷ (2, (7, 23 ∷ []) ∷ []) ∷ []

abbrev news : BroadcastMessage
news = record { org_id = 1; user_id = 0; contact_id = 0; message = codes "hi" }

run-empty_example :
    IsOpenIn (run empty arrivals).clients (run empty arrivals).heap
    × ((run empty arrivals).panicked ≡ false)
run-empty_example = run-empty arrivals

online_user_ids-is_user_online_example :
    (contains 6 (online_user_ids 1 (run empty arrivals).clients) ≡ true)
    × ((ids : List ℕ)
        → filter_online_users 1 ids (run empty arrivals).clients
          ≡ select (λ i. is_user_online 1 i (run empty arrivals).clients) ids)
unfolding lookup is_user_online run step connect register_client add_client insert
online_user_ids-is_user_online_example =
    online_user_ids-is_user_online 1 6 (run empty arrivals).clients
      (run-IsSound empty arrivals empty-IsSound).0

abbrev visitor : Client
visitor = record {
  user_id = 7;
  organization_id = 2;
  current_contact = none;
  send = [];
  closed = false;
}

other_org : visitor.organization_id ≢ news.org_id
other_org h = absurd (ground arith)

broadcast_message-other_org_example :
    lookup 23 (broadcast_message news (run empty arrivals)).heap ≡ some visitor
unfolding run step connect register_client lookup insert
broadcast_message-other_org_example =
    broadcast_message-other_org news (run empty arrivals) 23 visitor
      (run-IsSound empty arrivals empty-IsSound) refl other_org

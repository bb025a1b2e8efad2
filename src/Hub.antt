-- ===== src/Hub.antt =====
-- internal/websocket/hub.go: the connected clients and the messages sent to them. A client is the
-- address of its record in the heap; a set of clients is a list without repetitions, in the order
-- in which a range visits it. The channels of Run hand over one operation at a time.
pub mod Table
pub mod Targets
pub mod Life
pub mod Sound
pub mod Safety
pub mod Online
pub mod Isolation
mod Samples
use trt_whats.Common.{
  ℕ, suc, ◌+◌, ◌≡◌, refl, Bool, true, false, not, ◌&&◌, ◌||◌, List, [], ◌∷◌, ◌++◌, map, Option,
  none, some, if◌then◌else◌, nat_eq, ltb, Map, lookup, insert, delete, select, contains, length,
  nat_eq_on, ◌==◌, Text,
}

pub record Client : Type 0 where
  pub user_id : ℕ
  pub organization_id : ℕ
  pub current_contact : Option ℕ
  pub send : List Text  -- the buffered channel
  pub closed : Bool

-- organization -> user -> clients
abbrev pub Users : Type 0
Users = Map ℕ (List ℕ)

abbrev pub Clients : Type 0
Clients = Map ℕ Users

pub record Hub : Type 0 where
  pub clients : Clients
  pub heap : Map ℕ Client
  pub panicked : Bool  -- a channel was closed twice, or sent to when closed

-- uuid.Nil is 0.
pub record BroadcastMessage : Type 0 where
  pub org_id : ℕ
  pub user_id : ℕ
  pub contact_id : ℕ
  pub message : Text

abbrev pub send_capacity : ℕ
send_capacity = 256

-- m[k], and an empty map or set where the key is missing.
abbrev pub at {ℓ} : {A : Type ℓ} → ℕ → Map ℕ (List A) → List A
at k m = elim (lookup k m) [ none ↦ [] | some xs ↦ xs ]

abbrev pub add : ℕ → List ℕ → List ℕ
add c cs = if contains c cs then cs else cs ++ c ∷ []

abbrev pub remove : ℕ → List ℕ → List ℕ
remove c cs = select (λ d. not (nat_eq d c)) cs

-- The maps of registerClient.
unfoldable pub add_client : ℕ → ℕ → ℕ → Clients → Clients
add_client org user c m =
    let users = at org m in insert org (insert user (add c (at user users)) users) m

unfoldable pub register_client : ℕ → Hub → Hub
unfolding add_client
register_client c h = elim (lookup c h.heap) [
  | none ↦ h
  | some k ↦ record h { clients = add_client k.organization_id k.user_id c h.clients }
]

-- An empty set or map is dropped from the map that holds it.
unfoldable pub put {ℓ} : {A : Type ℓ} → ℕ → List A → Map ℕ (List A) → Map ℕ (List A)
put k [] m = delete k m
put k (x ∷ xs) m = insert k (x ∷ xs) m

unfoldable pub remove_client : ℕ → ℕ → ℕ → Clients → Clients
unfolding put
remove_client org user c m =
    let users = at org m in put org (put user (remove c (at user users)) users) m

abbrev pub is_registered : ℕ → ℕ → ℕ → Clients → Bool
is_registered org user c m = contains c (at user (at org m))

abbrev pub close : Client → Client
close k = record k { closed = true }

unfoldable pub unregister_client : ℕ → Hub → Hub
unfolding remove_client
unregister_client c h = elim (lookup c h.heap) [
  | none ↦ h
  | some k ↦
      if is_registered k.organization_id k.user_id c h.clients
      then record h {
        clients = remove_client k.organization_id k.user_id c h.clients;
        heap = insert c (close k) h.heap;
        panicked = h.panicked || k.closed;
      }
      else h
]

-- Whether a client is to see a message about a contact.
abbrev pub sees : ℕ → Option ℕ → Bool
sees contact none = true
sees contact (some viewed) = nat_eq contact 0 || nat_eq viewed contact

abbrev pub contact_of : Map ℕ Client → ℕ → Option ℕ
contact_of heap c = elim (lookup c heap) [ none ↦ none | some k ↦ k.current_contact ]

abbrev pub all_clients : Users → List ℕ
all_clients [] = []
all_clients ((u, cs) ∷ us) = cs ++ all_clients us

-- The clients to whose channels broadcastMessage sends.
unfoldable pub targets : BroadcastMessage → Clients → Map ℕ Client → List ℕ
targets msg m heap =
    let users = at msg.org_id m in
    if not (nat_eq msg.user_id 0)
    then at msg.user_id users
    else select (λ c. sees msg.contact_id (contact_of heap c)) (all_clients users)

-- select { case client.send <- data: default: }
unfoldable pub offer : Text → Hub → ℕ → Hub
offer body h c = elim (lookup c h.heap) [
  | none ↦ h
  | some k ↦
      if k.closed
      then record h { panicked = true }
      else if ltb (length k.send) send_capacity
      then record h { heap = insert c (record k { send = k.send ++ body ∷ [] }) h.heap }
      else h
]

unfoldable pub offer_all : Text → List ℕ → Hub → Hub
unfolding offer
offer_all body [] h = h
offer_all body (c ∷ cs) h = offer_all body cs (offer body h c)

-- broadcastMessage, of a message that is encoded as a text.
unfoldable pub broadcast_message : BroadcastMessage → Hub → Hub
unfolding targets offer_all
broadcast_message msg h = offer_all msg.message (targets msg h.clients h.heap) h

unfoldable pub count_users : Users → ℕ
count_users [] = 0
count_users ((u, cs) ∷ us) = length cs + count_users us

unfoldable pub count_clients : Clients → ℕ
unfolding count_users
count_clients [] = 0
count_clients ((o, us) ∷ m) = count_users us + count_clients m

unfoldable pub is_user_online : ℕ → ℕ → Clients → Bool
is_user_online org user m = ltb 0 (length (at user (at org m)))

abbrev pub is_busy : ℕ × List ℕ → Bool
is_busy (u, cs) = ltb 0 (length cs)

unfoldable pub online_user_ids : ℕ → Clients → List ℕ
online_user_ids org m = map (λ p. p.0) (select is_busy (at org m))

unfoldable pub filter_online_users : ℕ → List ℕ → Clients → List ℕ
filter_online_users org ids m = elim (lookup org m) [
  | none ↦ []
  | some users ↦ select (λ id. ltb 0 (length (at id users))) ids
]

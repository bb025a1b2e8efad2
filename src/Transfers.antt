-- ===== src/Transfers.antt =====
-- internal/handlers/agent_transfers.go and sla_processor.go: conversations handed to human agents.
-- Times are in seconds, and a setting that is not positive is 0. A new row stands first in its
-- table. Reads and writes of the tables succeed unless an Env says otherwise.
pub mod Hours
pub mod Create
pub mod Handlers
pub mod Queue
pub mod Sla
pub mod Single
pub mod Changes
pub mod Creations
pub mod Events
pub mod Picks
pub mod Rights
mod Samples
use trt_whats.Common.{
  ℕ, Bool, true, false, not, ◌&&◌, List, [], ◌∷◌, ◌++◌, map, Option, none, some, if◌then◌else◌,
  nat_eq, any, Text,
}
use trt_whats.Json.{Value, FloatOps}
use trt_whats.Assignment
use trt_whats.ChatGraph.{SessionStatus}
use trt_whats.Assignment.{Store, Transfer, load_counter, User}

pub data TransferStatus : Type 0 where
  active resumed expired : TransferStatus

pub data TransferSource : Type 0 where
  manual flow keyword chatbot_disabled : TransferSource

pub record SlaTracking : Type 0 where
  pub response_deadline : Option ℕ
  pub resolution_deadline : Option ℕ
  pub escalation_at : Option ℕ
  pub expires_at : Option ℕ
  pub picked_up_at : Option ℕ
  pub first_response_at : Option ℕ
  pub escalation_level : ℕ
  pub escalated_at : Option ℕ
  pub breached : Bool
  pub breached_at : Option ℕ

pub record AgentTransfer : Type 0 where
  pub id : ℕ
  pub org : ℕ
  pub contact_id : ℕ
  pub account : Text
  pub phone_number : Text
  pub status : TransferStatus
  pub source : TransferSource
  pub agent_id : Option ℕ
  pub team_id : Option ℕ
  pub transferred_by : Option ℕ
  pub notes : Text
  pub transferred_at : ℕ
  pub resumed_at : Option ℕ
  pub resumed_by : Option ℕ
  pub sla : SlaTracking

pub record Contact : Type 0 where
  pub id : ℕ
  pub org : ℕ
  pub phone_number : Text
  pub assigned_user_id : Option ℕ
  pub chatbot_last_message_at : Option ℕ
  pub chatbot_reminder_sent : Bool

pub record ChatbotSession : Type 0 where
  pub org : ℕ
  pub contact_id : ℕ
  pub status : SessionStatus
  pub completed_at : Option ℕ

-- Of a Message: who sent it to or received it from a contact, and when.
pub record Message : Type 0 where
  pub contact_id : ℕ
  pub is_incoming : Bool
  pub sent_by : Option ℕ
  pub created_at : ℕ

pub record Settings : Type 0 where
  pub is_enabled : Bool
  pub sla_enabled : Bool
  pub response_minutes : ℕ
  pub resolution_minutes : ℕ
  pub escalation_minutes : ℕ
  pub auto_close_hours : ℕ
  pub auto_close_message : Text
  pub warning_message : Text
  pub assign_to_same_agent : Bool
  pub allow_queue_pickup : Bool
  pub hours_enabled : Bool
  pub hours : List Value
  pub out_of_hours_message : Text

-- What is broadcast to the organization's clients, about a transfer.
pub data Notice : Type 0 where
  created resumed_notice assigned expired_notice escalated : ℕ → Notice

pub record World : Type 0 where
  pub transfers : List AgentTransfer
  pub contacts : List Contact
  pub sessions : List ChatbotSession
  pub messages : List Message
  pub store : Store
  pub notices : List Notice
  pub sent : List (ℕ × Text)  -- contact and text, handed to the sender

-- What a call takes from elsewhere. `fresh` is the id of a new row.
pub record Env : Type 0 where
  pub now : ℕ
  pub fresh : ℕ
  pub weekday : ℕ
  pub clock : Text
  pub float : FloatOps
  pub settings : ℕ → Text → Option Settings
  pub parse_id : Text → Option ℕ
  pub org_of_user : ℕ → Option ℕ
  pub org_of_team : ℕ → Option ℕ
  pub write_fails : Bool

abbrev pub is_active : TransferStatus → Bool
is_active TransferStatus.active = true
is_active _ = false

abbrev pub holds : ℕ → ℕ → AgentTransfer → Bool
holds org contact t = nat_eq t.org org && nat_eq t.contact_id contact && is_active t.status

-- The query of hasActiveAgentTransfer.
unfoldable pub has_active : ℕ → ℕ → List AgentTransfer → Bool
has_active org contact [] = false
has_active org contact (t ∷ ts) = if holds org contact t then true else has_active org contact ts

abbrev pub at_id : ℕ → (AgentTransfer → AgentTransfer) → AgentTransfer → AgentTransfer
at_id id f t = if nat_eq t.id id then f t else t

unfoldable pub update_transfer :
    ℕ → (AgentTransfer → AgentTransfer) → List AgentTransfer → List AgentTransfer
update_transfer id f ts = map (at_id id f) ts

abbrev pub update_contact : ℕ → (Contact → Contact) → World → World
update_contact id f w = record w {
  contacts = map (λ c. if nat_eq c.id id then f c else c) w.contacts;
}

abbrev pub with_manager : Option ℕ → Contact → Contact
with_manager user c = record c { assigned_user_id = user }

abbrev pub notify : Notice → World → World
notify n w = record w { notices = w.notices ++ n ∷ [] }

-- The rows that ChatLoadCounter counts.
abbrev pub chat_rows : List AgentTransfer → List Transfer
chat_rows [] = []
chat_rows (t ∷ ts) =
    record { org = t.org; agent_id = t.agent_id; counts = is_active t.status } ∷ chat_rows ts

abbrev pub find_user : ℕ → List User → Option User
find_user id [] = none
find_user id (u ∷ us) =
    let rest = find_user id us in if nat_eq u.id id && not u.deleted then some u else rest

abbrev pub is_agent_available : ℕ → World → Bool
is_agent_available id w = elim (find_user id w.store.users) [
  | none ↦ false
  | some u ↦ u.is_available
]

-- a.Assigner.AssignToTeam, by the load of the organization's chats
unfoldable pub assign_team : Env → ℕ → ℕ → World → Option ℕ × World
assign_team env org team w =
    let r =
      Assignment.assign_to_team env.now team [] (load_counter org (chat_rows w.transfers))
        w.store in
    (r.0, record w { store = r.1 })

unfoldable pub will_chatbot_handle : Env → ℕ → Text → ℕ → World → Bool
unfolding has_active
will_chatbot_handle env org account contact w =
    not (has_active org contact w.transfers)
    && elim (env.settings org account) [ none ↦ false | some s ↦ s.is_enabled ]

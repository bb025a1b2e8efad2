-- ===== src/ChatGraph.antt =====
-- internal/handlers/chatbot_graph_runner.go and chatbot_graph_types.go: one inbound message at a
-- session of a chatbot flow. This module holds the session and what a run does to its surroundings.
-- The runner's session data is not nil once runChatGraph has begun.
pub mod Config
pub mod Send
pub mod Call
pub mod Timing
pub mod Nodes
pub mod Inputs
pub mod Runner
pub mod Kept
pub mod Saves
pub mod Rests
pub mod Finished
pub mod Answers
mod Samples
use trt_whats.Common.{
  ℕ, Bool, true, false, List, [], ◌∷◌, ◌++◌, Option, none, some, Text, codes, ℤ, Map, insert,
  text_eq_on,
}
use trt_whats.Json.{Value, Data}
use trt_whats.FlowGraph.{Node, Graph}
use trt_whats.TemplateEngine.Render.{Lang, process_template}

pub data NodeType : Type 0 where
  start message buttons prompt api_call condition timing set_variable : NodeType
  ai_response transfer webhook goto_flow whatsapp_flow finish : NodeType
  other : Text → NodeType

abbrev pub ChatNode : Type 0
ChatNode = Node NodeType

abbrev pub ChatGraph : Type 0
ChatGraph = Graph NodeType

-- string(node.Type)
abbrev pub type_name : NodeType → Text
type_name start = codes "start"
type_name message = codes "message"
type_name buttons = codes "buttons"
type_name prompt = codes "prompt"
type_name api_call = codes "api_call"
type_name condition = codes "condition"
type_name timing = codes "timing"
type_name set_variable = codes "set_variable"
type_name ai_response = codes "ai_response"
type_name transfer = codes "transfer"
type_name webhook = codes "webhook"
type_name goto_flow = codes "goto_flow"
type_name whatsapp_flow = codes "whatsapp_flow"
type_name finish = codes "end"
type_name (other t) = t

pub data SessionStatus : Type 0 where
  active completed cancelled timeout : SessionStatus

pub record Session : Type 0 where
  pub id : ℕ
  pub org : ℕ
  pub account : Text
  pub phone_number : Text
  pub status : SessionStatus
  pub current_flow_id : Option ℕ
  pub current_step : Text
  pub step_retries : ℕ
  pub session_data : Data
  pub last_activity_at : ℕ
  pub completed_at : Option ℕ

pub record ChatbotFlow : Type 0 where
  pub id : ℕ
  pub account : Text
  pub name : Text
  pub is_enabled : Bool
  pub graph : Option Data

pub record WhatsAppFlow : Type 0 where
  pub screens : List Value
  pub flow_json : Option Data

-- What SendOutgoingMessage is called with.
pub data Outgoing : Type 0 where
  text : Text → Outgoing
  interactive : Text → Text → List (Text × Text) → Outgoing  -- type, body, buttons
  cta_url : Text → Text → Text → Outgoing  -- body, button, URL
  form : Text → Text → Text → Text → Text → Text → Outgoing  -- flow, header, body, cta, token, screen

pub record Request : Type 0 where
  pub method : Text
  pub url : Text
  pub body : Option Text
  pub headers : Map Text Text

-- createTransferToTeam, createTransferToQueue
pub data Handoff : Type 0 where
  to_team : ℕ → Text → Handoff
  to_queue : Handoff

pub record Settings : Type 0 where
  pub enabled : Bool
  pub provider : Text
  pub api_key : Text

-- What the run takes from elsewhere. A none of `send` or `save` is success.
pub record Env : Type 0 where
  pub lang : Lang
  pub loop_rounds : ℕ  -- how many expansions of for blocks a template is given
  pub now : ℕ
  pub weekday : Text
  pub minutes : ℕ  -- of the day
  pub to_lower : Text → Text
  pub to_upper : Text → Text
  pub header_key : Text → Text
  pub show_id : ℕ → Text
  pub parse_id : Text → Option ℕ
  pub send : List Outgoing → Outgoing → Option Text
  pub save : List Session → Session → Option Text
  pub http : List Request → Request → Option (Text × ℕ)
  pub parse_json : Text → Option (Option Data)
  pub decode_graph : Data → Option ChatGraph
  pub expression : Text → Data → Option Value
  pub regex : Text → Text → Option Bool
  pub flows : Option (List ChatbotFlow)
  pub whatsapp_flow : Text → Option WhatsAppFlow
  pub settings : Option Settings
  pub generate : Settings → Session → Text → Option Text

-- chatNodeCtx, and what has been done in this run.
pub record Run : Type 0 where
  pub session : Session
  pub user_input : Text
  pub button_id : Text
  pub flow_response : Data
  pub consumed : Bool
  pub sent : List Outgoing
  pub logged : List (Text × Text)
  pub requests : List Request
  pub handoffs : List Handoff
  pub saved : List Session

-- A nodeOutcome, an error, or a template that panics or is never done.
pub data Reply : Type 0 where
  yields : Reply
  goes : Text → Reply
  fails : Text → Reply
  stops : Reply

abbrev pub default_outcome : Text
default_outcome = codes "default"

abbrev pub with_session : (Session → Session) → Run → Run
with_session f r = record r { session = f r.session }

-- ctx.session.SessionData[key] = v
abbrev pub set_data : Text → Value → Run → Run
set_data key v = with_session (λ s. record s { session_data = insert key v s.session_data })

-- A template at the session's data, and what goes on with the text.
abbrev pub rendered : Env → Text → Run → (Text → Run × Reply) → Run × Reply
rendered env t r k = elim (process_template env.lang env.loop_rounds t r.session.session_data) [
  | none ↦ (r, stops)
  | some s ↦ k s
]

-- ===== src/Lib.antt =====
-- A verification library for the Go server (a WhatsApp business platform): the parts of it that
-- decide, with their theorems. The modules follow the server's packages.
--
-- - FlowGraph: internal/flowgraph/flowgraph.go, the graph that the chatbot's and the IVR's flows
--   share. A node's type is a parameter, as in the source.
-- - TemplateUtil: internal/templateutil/templateutil.go, the {{...}} parameters of message
--   templates (the regular expression is matched by param_at and find_all), over Strconv, which
--   holds what the code uses of strconv and strings.
-- - Contacts: internal/contactutil/contactutil.go over the contacts table.
-- - Campaign: bulk campaigns. Campaign holds the tables of internal/models and the World that the
--   requests and the workers share: the tables, the queue, the published statistics and the calls
--   of the Cloud API. Campaign.Guard is the check of StartCampaign before anything is sent,
--   Campaign.Handlers the handlers of internal/handlers/campaigns.go (start, pause, cancel, retry,
--   recount), Campaign.Worker the handling of one job by internal/worker/worker.go, which finds its
--   contact through Contacts and its text through TemplateUtil. Campaign.Events puts requests
--   and jobs together as events, one after the other in any order. Campaign.Statuses is the
--   platform's report of a message's status (updateMessageStatus of internal/handlers/webhook.go).
-- - Assignment: internal/assignment, the choice of an agent of a team: cache, round robin, load.
-- - Hub: internal/websocket/hub.go, the connected clients and the broadcasts; Hub.Life runs it
--   with the events of internal/websocket/client.go that reach it.
-- - Crypto: internal/crypto/crypto.go, the encrypted columns.
-- - Phone: internal/utils/phone.go, the masking of phone numbers.
-- - RateLimit: internal/middleware/ratelimit.go, the fixed window over Redis.
-- - AdWindow: internal/handlers/ad_window_tags.go, the tags of a contact's free messaging window.
-- - TemplateEngine: internal/handlers/template_engine.go, the template language of the chatbot: Path
--   (paths into values), Condition, Pattern (the regular expressions, as scanners), Render.
-- - ChatGraph: internal/handlers/chatbot_graph_runner.go and chatbot_graph_types.go, one inbound
--   message at a session of a flow, over FlowGraph and TemplateEngine: Config and Send (the senders
--   of chatbot_processor.go), Call (its executeConfiguredAPI, api_call and webhook nodes), Timing,
--   Nodes and Inputs (the other executors), Runner (the run).
-- - Transfers: internal/handlers/agent_transfers.go and sla_processor.go, conversations handed to
--   agents, with the transfer that an agent's message opens (ensureAgentTakeoverTransfer of
--   internal/handlers/contacts.go): Create (the chatbot's transfers), Handlers and Queue (the
--   requests), Sla (the timer), Hours (isWithinBusinessHours), over Assignment; Transfers.Events
--   runs them one after the other, in any order.
-- - Components: pkg/whatsapp/message.go, what a template message is made of: the parameters of its
--   header, body and buttons, as internal/handlers/messages.go puts them together.
-- - Common and Json: shared helpers, and Go's `any`.
--
-- Texts are lists of numbers: code points, or bytes where a module says so. Go maps are association
-- lists in the order of a range. A row that is looked up by its primary key stands in a map; rows
-- that are selected stand in lists, in the order in which the database returns them. An error that
-- the code returns is a constructor, a none or a reply. Times and ids are numbers; uuid.Nil is 0.
-- Loops are structural, but for two: the rounds of processConditionals are given the length of the
-- text and one more, which is enough, and those of processForLoops, which need not end, are an
-- argument (loop_rounds in ChatGraph). A run of a flow visits the source's 100 nodes at most.
-- Counters are unbounded.
--
-- Requests, jobs, reports and timers are steps that follow one another: the interleaving of the
-- goroutines that handle them is not modelled.
--
-- Parameters, not defined here: fmt.Sprintf of a value, what is computed with float64 values,
-- strings.EqualFold, strings.ToUpper and ToLower, JSON, UUIDs, expressions and regular expressions
-- that a flow's author writes, HTTP and the language model, the Cloud API (and, in Campaign, the
-- components sent to it), the clock, AES-GCM, base64 and random nonces, permissions, what the
-- environment makes of a call (Faults, Insert, Env). Not modelled: HTTP, JSON and SQL as such,
-- logging, media, and the packages that the modules above do not name.
pub mod Common
pub mod Json
pub mod FlowGraph
pub mod Strconv
pub mod TemplateUtil
pub mod Contacts
pub mod Campaign
pub mod Assignment
pub mod Hub
pub mod Crypto
pub mod Phone
pub mod RateLimit
pub mod AdWindow
pub mod TemplateEngine
pub mod ChatGraph
pub mod Transfers
pub mod Components

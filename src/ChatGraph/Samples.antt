-- ===== src/ChatGraph/Samples.antt =====
-- internal/handlers/chatbot_graph_runner.go: a small flow, and the theorems at it.
use trt_whats.Common.{
  true, false, List, [], ◌∷◌, none, some, Text, codes, ◌≡◌, refl, pos, ◌<◌, select, nat_eq, text_eq,
  lookup, insert, arith,
}
use trt_whats.Json.{Value, Data, FloatOps, of_map}
use trt_whats.FlowGraph.{Edge}
use trt_whats.ChatGraph.{
  ChatNode, ChatGraph, ChatbotFlow, Env, NodeType, Run, Session, SessionStatus, Outgoing, text,
}
use trt_whats.ChatGraph.Runner.{run_chat_graph, finished, runaway}
use trt_whats.ChatGraph.Saves.{run_chat_graph-Saved, SavedNow}
use trt_whats.ChatGraph.Finished.{run_chat_graph-Rests, Rests}
use trt_whats.ChatGraph.Config.{maps_of}
use trt_whats.ChatGraph.Timing.{evaluate_timing_schedule}
use trt_whats.ChatGraph.Answers.{
  exec_prompt-retries, IsOpen, first, is_day, evaluate_timing_schedule-IsOpen,
}
use trt_whats.ChatGraph.Inputs.{exec_prompt}

abbrev floats : FloatOps
floats = record {
  to_int = λ n. pos n;
  of_int = λ z. 0;
  is_zero = λ n. nat_eq n 0;
  beq = λ a b. true;
  lt = λ a b. false;
  parse = λ t. none;
  format = λ n. [];
}

abbrev chat_node : Text → NodeType → Data → ChatNode
chat_node id t config = record {
  id = id;
  type = t;
  label = [];
  position = record { x = 0; y = 0 };
  config = config;
}

abbrev edge : Text → Text → Text → Edge
edge a b c = record { from = a; to = b; condition = c }

abbrev say : Text → Data
say t = (codes "message", Value.str t) ∷ []

-- A greeting, a question kept as `who`, an answer.
abbrev sample_graph : ChatGraph
sample_graph = record {
  version = pos 2;
  nodes =
      chat_node (codes "s") NodeType.start []
      ∷ chat_node (codes "m") NodeType.message (say (codes "Hi"))
      ∷ chat_node (codes "p") NodeType.prompt
          ((codes "store_as", Value.str (codes "who")) ∷ say (codes "Name?"))
      ∷ chat_node (codes "e") NodeType.finish (say (codes "Bye {{who}}"))
      ∷ [];
  edges =
      edge (codes "s") (codes "m") (codes "default")
      ∷ edge (codes "m") (codes "p") (codes "default")
      ∷ edge (codes "p") (codes "e") (codes "default")
      ∷ [];
  entry_node = codes "s";
  node_map = [];
  edge_map = [];
}

abbrev env : Env
env = record {
  lang = record { float = floats; sprint = λ v. []; marshal = λ v. none };
  loop_rounds = 5;
  now = 7;
  weekday = codes "monday";
  minutes = 600;
  to_lower = λ t. t;
  to_upper = λ t. t;
  header_key = λ t. t;
  show_id = λ n. [];
  parse_id = λ t. none;
  send = λ before o. none;
  save = λ before s. none;
  http = λ before q. none;
  parse_json = λ t. none;
  decode_graph = λ m. some sample_graph;
  expression = λ t m. none;
  regex = λ p t. some false;
  flows = none;
  whatsapp_flow = λ t. none;
  settings = none;
  generate = λ s c t. none;
}

abbrev flow : ChatbotFlow
flow = record { id = 1; account = []; name = []; is_enabled = true; graph = some [] }

abbrev session : Session
session = record {
  id = 3;
  org = 1;
  account = [];
  phone_number = codes "49";
  status = SessionStatus.active;
  current_flow_id = some 1;
  current_step = [];
  step_retries = 0;
  session_data = [];
  last_activity_at = 0;
  completed_at = none;
}

abbrev inbound : Text → Session → Run
inbound t s = record {
  session = s;
  user_input = t;
  button_id = [];
  flow_response = [];
  consumed = false;
  sent = [];
  logged = [];
  requests = [];
  handoffs = [];
  saved = [];
}

abbrev first_run : Run
first_run = inbound (codes "start") session

abbrev first_result : Run
first_result = (run_chat_graph env none flow first_run).0

asks : first_result.sent ≡ text (codes "Hi") ∷ text (codes "Name?") ∷ []
unfolding run_chat_graph text_eq trt_whats.FlowGraph.node lookup trt_whats.FlowGraph.build_maps
    insert trt_whats.ChatGraph.Config.string_from_config
    trt_whats.ChatGraph.Runner.execute_chat_node trt_whats.FlowGraph.resolve_edge
    trt_whats.ChatGraph.Nodes.exec_message trt_whats.TemplateEngine.Render.process_template
    trt_whats.Strconv.Search.has_prefix trt_whats.ChatGraph.Config.append_chat_path exec_prompt
asks = refl

says_bye :
    (run_chat_graph env none flow
      (inbound (codes "Ann") (record first_result.session { session_data = [] }))).0.sent
    ≡ text (codes "Bye Ann") ∷ []
unfolding run_chat_graph text_eq trt_whats.FlowGraph.node lookup trt_whats.FlowGraph.build_maps
    insert trt_whats.ChatGraph.Config.string_from_config
    trt_whats.ChatGraph.Runner.execute_chat_node trt_whats.FlowGraph.resolve_edge
    trt_whats.ChatGraph.Nodes.exec_message trt_whats.TemplateEngine.Render.process_template
    trt_whats.Strconv.Search.has_prefix trt_whats.TemplateEngine.Condition.format_value
    trt_whats.TemplateEngine.Path.get_nested_value trt_whats.Strconv.Search.index
    trt_whats.Strconv.Trim.trim_space exec_prompt trt_whats.ChatGraph.Nodes.exec_end
    trt_whats.ChatGraph.Config.append_chat_path
says_bye = refl

run_chat_graph-Saved_example : SavedNow [] first_result
unfolding run_chat_graph text_eq trt_whats.FlowGraph.node lookup trt_whats.FlowGraph.build_maps
    insert trt_whats.ChatGraph.Config.string_from_config
    trt_whats.ChatGraph.Runner.execute_chat_node trt_whats.FlowGraph.resolve_edge
    trt_whats.ChatGraph.Nodes.exec_message trt_whats.TemplateEngine.Render.process_template
    trt_whats.Strconv.Search.has_prefix trt_whats.ChatGraph.Config.append_chat_path exec_prompt
run_chat_graph-Saved_example = run_chat_graph-Saved env none flow first_run

run_chat_graph-Rests_example : Rests env flow first_result
unfolding run_chat_graph text_eq trt_whats.FlowGraph.node lookup trt_whats.FlowGraph.build_maps
    insert trt_whats.ChatGraph.Config.string_from_config
    trt_whats.ChatGraph.Runner.execute_chat_node trt_whats.FlowGraph.resolve_edge
    trt_whats.ChatGraph.Nodes.exec_message trt_whats.TemplateEngine.Render.process_template
    trt_whats.Strconv.Search.has_prefix trt_whats.ChatGraph.Config.append_chat_path exec_prompt
run_chat_graph-Rests_example = run_chat_graph-Rests env none flow first_run refl

-- Validation never succeeds in this environment.
abbrev strict : ChatNode
strict =
    chat_node (codes "p") NodeType.prompt
      ((codes "validation_regex", Value.str (codes "x")) ∷ say (codes "?"))

exec_prompt-retries_example :
    (exec_prompt env strict (inbound (codes "y") session)).0.session.step_retries < 3
unfolding trt_whats.ChatGraph.Config.int_from_config lookup text_eq
exec_prompt-retries_example =
    exec_prompt-retries env strict (inbound (codes "y") session) 3 refl (omega arith)

abbrev mondays : List Value
mondays =
    Value.obj (
      of_map (
        (codes "day", Value.str (codes "monday"))
        ∷ (codes "enabled", Value.bool true)
        ∷ (codes "start_time", Value.str (codes "9:00"))
        ∷ (codes "end_time", Value.str (codes "18:30"))
        ∷ []))
    ∷ []

evaluate_timing_schedule-IsOpen_example :
    (entry : Data) × (first (select (is_day (λ t. t) (codes "monday")) (maps_of mondays))
      ≡ some entry)
    × IsOpen 600 entry
unfolding evaluate_timing_schedule text_eq lookup
evaluate_timing_schedule-IsOpen_example =
    evaluate_timing_schedule-IsOpen (λ t. t) (codes "monday") 600 mondays refl

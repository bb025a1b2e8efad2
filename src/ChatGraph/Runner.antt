-- ===== src/ChatGraph/Runner.antt =====
-- internal/handlers/chatbot_graph_types.go, parseChatGraph, and chatbot_graph_runner.go: the run.
use trt_whats.Common.{
  ℕ, zero, suc, Bool, true, false, not, ◌&&◌, [], ◌∷◌, ◌++◌, Option, none, some, if◌then◌else◌,
  nat_eq, Text, codes, ◌==◌, text_eq_on, ◌>>=◌, pos, eqb_ℤ,
}
use trt_whats.Json.{Value, Data}
use trt_whats.FlowGraph.{build_maps, node, resolve_edge}
use trt_whats.ChatGraph.{
  ChatNode, ChatGraph, Env, Run, Reply, NodeType, Session, SessionStatus, ChatbotFlow, goes, fails,
  yields, stops, set_data, default_outcome, with_session,
}
use trt_whats.ChatGraph.Config.{string_from_config, evaluate_condition_expression, append_chat_path}
use trt_whats.ChatGraph.Call.{exec_api_call, exec_webhook}
use trt_whats.ChatGraph.Timing.{exec_timing}
use trt_whats.ChatGraph.Nodes.{
  exec_message, exec_end, exec_condition, exec_set_variable, exec_ai_response, exec_transfer,
  exec_goto_flow, flow_by_id,
}
use trt_whats.ChatGraph.Inputs.{exec_buttons, exec_prompt, exec_whatsapp_flow}

pub data ParsedGraph : Type 0 where
  absent : ParsedGraph
  refused : Text → ParsedGraph
  parsed : ChatGraph → ParsedGraph

-- The checks of parseChatGraph after the JSON is read.
unfoldable pub check_graph : ChatGraph → ParsedGraph
check_graph g =
    if not (eqb_ℤ g.version (pos 2))
    then refused (codes "unsupported graph version")
    else if g.entry_node == []
    then refused (codes "graph missing entry_node")
    else elim (node (build_maps g) g.entry_node) [
      | none ↦ refused (codes "entry_node not found in nodes")
      | some n ↦ parsed (build_maps g)
    ]

unfoldable pub parse_chat_graph : Env → Option Data → ParsedGraph
unfolding check_graph
parse_chat_graph env none = absent
parse_chat_graph env (some raw) = elim (env.decode_graph raw) [
  | none ↦ refused (codes "unmarshal graph")
  | some g ↦ check_graph g
]

unfoldable pub execute_chat_node : Env → ChatNode → Run → Run × Reply
execute_chat_node env n r = elim n.type [
  | NodeType.start ↦ (r, goes default_outcome)
  | NodeType.message ↦ exec_message env n r
  | NodeType.buttons ↦ exec_buttons env n r
  | NodeType.prompt ↦ exec_prompt env n r
  | NodeType.api_call ↦ exec_api_call env n r
  | NodeType.condition ↦ exec_condition env n r
  | NodeType.timing ↦ exec_timing env n r
  | NodeType.set_variable ↦ exec_set_variable env n r
  | NodeType.ai_response ↦ exec_ai_response env n r
  | NodeType.transfer ↦ exec_transfer env n r
  | NodeType.webhook ↦ exec_webhook env n r
  | NodeType.goto_flow ↦ exec_goto_flow env n r
  | NodeType.whatsapp_flow ↦ exec_whatsapp_flow env n r
  | NodeType.finish ↦ exec_end env n r
  | NodeType.other t ↦ (r, fails (codes "chat node type not implemented"))
]

-- How a run ends.
pub data Ending : Type 0 where
  finished : Ending
  bad_graph : Ending  -- nothing was run
  node_not_found : Text → Ending
  crashed : Ending  -- a template panics or is never done
  node_error : Text → Ending
  bad_target : Text → Ending
  save_error : Text → Ending
  runaway : Ending

abbrev pub is_completed : SessionStatus → Bool
is_completed SessionStatus.completed = true
is_completed _ = false

abbrev pub or_now : ℕ → Option ℕ → Option ℕ
or_now now none = some now
or_now now (some t) = some t

-- What persistChatSession writes.
abbrev pub touched : ℕ → Session → Session
touched now s = record s {
  last_activity_at = now;
  completed_at = if is_completed s.status then or_now now s.completed_at else s.completed_at;
}

unfoldable pub persist_chat_session : Env → Run → Run × Option Text
persist_chat_session env r = (
  record r {
    session = touched env.now r.session;
    saved = r.saved ++ touched env.now r.session ∷ [];
  },
  env.save r.saved (touched env.now r.session),
)

-- return a.persistChatSession(session)
unfoldable pub persist_and_return : Env → Run → Run × Ending
unfolding persist_chat_session
persist_and_return env r =
    let (r1, error) = persist_chat_session env r in
    (r1, elim error [ none ↦ finished | some e ↦ save_error e ])

-- The session is saved, and the error is another one.
unfoldable pub persist_and_fail : Env → Ending → Run → Run × Ending
unfolding persist_chat_session
persist_and_fail env e r = ((persist_chat_session env r).0, e)

-- A round of the loop: it goes on in a flow's graph, or the run has ended.
pub data Round : Type 0 where
  continues : ChatbotFlow → ChatGraph → Run → Round
  ends : Run × Ending → Round

abbrev pub at_step : Text → Run → Run
at_step id = with_session (λ s. record s { current_step = id })

abbrev pub completed_run : Run → Run
completed_run = with_session (λ s. record s { status = SessionStatus.completed })

-- The edge for an outcome is taken; without one the session is completed.
unfoldable pub advance : Env → ChatbotFlow → ChatGraph → ChatNode → Text → Run → Round
unfolding persist_and_return
advance env flow g n outcome r =
    let next = resolve_edge g n.id outcome in
    if next == []
    then ends (persist_and_return env (completed_run r))
    else continues flow g (at_step next r)

-- Whether the node's skip_condition holds; one that cannot be evaluated is ignored.
unfoldable pub skips : Env → ChatNode → Run → Bool
unfolding evaluate_condition_expression
skips env n r =
    let e = string_from_config n.config (codes "skip_condition" ∷ []) in
    not (e == []) && elim (evaluate_condition_expression env e r.session.session_data) [
      | none ↦ false
      | some b ↦ b
    ]

abbrev pub has_switched : ChatbotFlow → Run → Option ℕ
has_switched flow r = elim r.session.current_flow_id [
  | none ↦ none
  | some id ↦ if nat_eq id flow.id then none else some id
]

-- The flow that the session was switched to, at its entry node.
unfoldable pub switch_flow : Env → ℕ → Run → Round
unfolding persist_and_fail
switch_flow env id r = elim (env.flows >>= λ fs. flow_by_id id fs) [
  | none ↦ ends (persist_and_fail env (bad_target (codes "load target")) r)
  | some target ↦ elim (parse_chat_graph env target.graph) [
    | absent ↦ ends (persist_and_fail env (bad_target (codes "target flow has no v2 graph")) r)
    | refused e ↦ ends (persist_and_fail env (bad_target e) r)
    | parsed g ↦ continues target g (at_step g.entry_node r)
  ]
]

-- What follows the execution of a node.
unfoldable pub after_node : Env → ChatbotFlow → ChatGraph → ChatNode → Run × Reply → Round
unfolding advance switch_flow persist_and_return persist_and_fail
after_node env flow g n (r, stops) = ends (r, crashed)
after_node env flow g n (r, fails e) = ends (persist_and_fail env (node_error e) r)
after_node env flow g n (r, yields) = ends (persist_and_return env (append_chat_path n [] r))
after_node env flow g n (r, goes outcome) = elim (has_switched flow r) [
  | some id ↦ switch_flow env id (append_chat_path n outcome r)
  | none ↦ advance env flow g n outcome (append_chat_path n outcome r)
]

-- One round of the loop of runChatGraph.
unfoldable pub visit : Env → ChatbotFlow → ChatGraph → Run → Round
unfolding after_node skips advance
visit env flow g r = elim (node g r.session.current_step) [
  | none ↦ ends (r, node_not_found r.session.current_step)
  | some n ↦
      if skips env n r
      then advance env flow g n default_outcome (append_chat_path n (codes "skipped") r)
      else after_node env flow g n (execute_chat_node env n r)
]

unfoldable pub run_loop : Env → ℕ → ChatbotFlow → ChatGraph → Run → Run × Ending
unfolding visit persist_and_fail
run_loop env zero flow g r = persist_and_fail env runaway r
run_loop env (suc left) flow g r = elim (visit env flow g r) [
  | ends result ↦ result
  | continues flow1 g1 r1 ↦ run_loop env left flow1 g1 r1
]

abbrev pub max_chat_graph_iterations : ℕ
max_chat_graph_iterations = 100

abbrev pub seed_contact : Option Text → Run → Run
seed_contact none r = r
seed_contact (some name) r = set_data (codes "contact_name") (Value.str name) r

-- The built-in variables, and the entry node of a session that has not begun.
unfoldable pub prepare : Option Text → ChatGraph → Run → Run
prepare contact g r =
    let seeded =
      seed_contact contact (set_data (codes "phone_number") (Value.str r.session.phone_number) r) in
    if r.session.current_step == []
    then record (at_step g.entry_node seeded) { user_input = []; button_id = [] }
    else seeded

-- The contact is its profile name.
unfoldable pub run_chat_graph : Env → Option Text → ChatbotFlow → Run → Run × Ending
unfolding parse_chat_graph run_loop prepare
run_chat_graph env contact flow r = elim (parse_chat_graph env flow.graph) [
  | absent ↦ (r, bad_graph)
  | refused e ↦ (r, bad_graph)
  | parsed g ↦ run_loop env max_chat_graph_iterations flow g (prepare contact g r)
]

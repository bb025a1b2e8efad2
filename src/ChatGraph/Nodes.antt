-- ===== src/ChatGraph/Nodes.antt =====
-- internal/handlers/chatbot_graph_runner.go: the executors of the nodes that do not wait for input.
use trt_whats.Common.{
  ℕ, Bool, true, false, not, ◌&&◌, ◌||◌, List, [], ◌∷◌, ◌++◌, Option, none, some, if◌then◌else◌,
  nat_eq, Text, codes, lookup, ◌==◌, text_eq_on, ◌>>=◌,
}
use trt_whats.Json.{Value, Data, as_map, as_string, or_null}
use trt_whats.ChatGraph.{
  ChatNode, Env, Run, Reply, text, goes, fails, yields, rendered, set_data, default_outcome,
  with_session, SessionStatus, Settings, ChatbotFlow, Handoff, to_team, to_queue,
}
use trt_whats.ChatGraph.Config.{string_from_config, evaluate_condition_expression, append_entry}
use trt_whats.ChatGraph.Send.{send_outgoing, log_session_message}

abbrev pub text_keys : List Text
text_keys = codes "body" ∷ codes "message" ∷ codes "text" ∷ []

-- A text is sent and logged, and the node replies; if the send fails, the node fails.
unfoldable pub send_and_log : Env → ChatNode → Text → Reply → Text → Run → Run × Reply
unfolding send_outgoing log_session_message
send_and_log env node what then_reply t r =
    let (r1, error) = send_outgoing env (text t) r in
    elim error [
      | some e ↦ (r1, fails (what ++ e))
      | none ↦ (log_session_message t node r1, then_reply)
    ]

unfoldable pub exec_message : Env → ChatNode → Run → Run × Reply
unfolding send_and_log
exec_message env node r =
    let t = string_from_config node.config (codes "message" ∷ codes "text" ∷ []) in
    let sends =
      rendered env t r
        (λ s. send_and_log env node (codes "send message: ") (goes default_outcome) s r) in
    if t == [] then (r, goes default_outcome) else sends

unfoldable pub exec_end : Env → ChatNode → Run → Run × Reply
unfolding send_and_log
exec_end env node r =
    let t = string_from_config node.config (codes "message" ∷ []) in
    let sends =
      rendered env t r (λ s. send_and_log env node (codes "send end message: ") (goes []) s r) in
    if t == [] then (r, goes []) else sends

abbrev pub truth : Option Bool → Text
truth none = codes "false"
truth (some true) = codes "true"
truth (some false) = codes "false"

unfoldable pub exec_condition : Env → ChatNode → Run → Run × Reply
unfolding evaluate_condition_expression
exec_condition env node r =
    let e = string_from_config node.config (codes "expression" ∷ []) in
    if e == []
    then (r, goes (codes "false"))
    else (r, goes (truth (evaluate_condition_expression env e r.session.session_data)))

-- The loop over the assignments.
unfoldable pub set_variables : Env → Data → Run → Run × Reply
set_variables env [] r = (r, goes default_outcome)
set_variables env ((name, raw) ∷ rest) r =
    let set : Run × Reply = elim (as_string raw) [
      | none ↦ set_variables env rest (set_data name raw r)
      | some t ↦ rendered env t r (λ s. set_variables env rest (set_data name (Value.str s) r))
    ] in
    let skip = set_variables env rest r in if name == [] then skip else set

unfoldable pub exec_set_variable : Env → ChatNode → Run → Run × Reply
unfolding set_variables
exec_set_variable env node r =
    set_variables env (as_map (or_null (lookup (codes "set") node.config))) r

abbrev pub is_configured : Settings → Bool
is_configured s = s.enabled && not (s.provider == []) && not (s.api_key == [])

unfoldable pub send_answer : Env → ChatNode → Settings → Text → Run → Run × Reply
unfolding send_and_log
send_answer env node settings user_message r = elim (env.generate settings r.session user_message) [
  | none ↦ (r, goes default_outcome)
  | some answer ↦
      let sends =
        send_and_log env node (codes "send ai response: ") (goes default_outcome) answer r in
      if answer == [] then (r, goes default_outcome) else sends
]

unfoldable pub exec_ai_response : Env → ChatNode → Run → Run × Reply
unfolding send_answer
exec_ai_response env node r = elim env.settings [
  | none ↦ (r, goes default_outcome)
  | some settings ↦
      let tmpl = string_from_config node.config (codes "prompt_template" ∷ codes "prompt" ∷ []) in
      let templated = rendered env tmpl r (λ s. send_answer env node settings s r) in
      let plain = send_answer env node settings r.user_input r in
      if not (is_configured settings)
      then (r, goes default_outcome)
      else if tmpl == []
      then plain
      else templated
]

abbrev pub hand_off : Handoff → Run → Run × Reply
hand_off h r = (
  with_session (λ s. record s { status = SessionStatus.completed })
      (record r { handoffs = r.handoffs ++ h ∷ [] }),
  yields,
)

-- The team that a team_id names.
abbrev pub handoff_of : Env → Text → Text → Handoff
handoff_of env team notes =
    if (team == []) || (team == codes "_general")
    then to_queue
    else elim (env.parse_id team) [ none ↦ to_queue | some id ↦ to_team id notes ]

unfoldable pub transfer_from : Env → ChatNode → Run → Run × Reply
transfer_from env node r =
    let raw = string_from_config node.config (codes "notes" ∷ []) in
    let team = string_from_config node.config (codes "team_id" ∷ []) in
    let noted = rendered env raw r (λ notes. hand_off (handoff_of env team notes) r) in
    if raw == [] then hand_off (handoff_of env team []) r else noted

-- A body that cannot be sent is logged, and the transfer goes on.
unfoldable pub exec_transfer : Env → ChatNode → Run → Run × Reply
unfolding send_outgoing log_session_message transfer_from
exec_transfer env node r =
    let body = string_from_config node.config text_keys in
    let sends = rendered env body r (λ t.
      let (r1, error) = send_outgoing env (text t) r in
      elim error [
        | some e ↦ transfer_from env node r1
        | none ↦ transfer_from env node (log_session_message t node r1)
      ]) in
    if body == [] then transfer_from env node r else sends

-- getChatbotFlowByIDCached, over the organization's flows.
unfoldable pub flow_by_id : ℕ → List ChatbotFlow → Option ChatbotFlow
flow_by_id id [] = none
flow_by_id id (f ∷ fs) = if nat_eq f.id id then some f else flow_by_id id fs

abbrev pub has_graph : ChatbotFlow → Bool
has_graph f = elim f.graph [ none ↦ false | some g ↦ true ]

-- The flow that a goto_flow node may jump to.
unfoldable pub goto_target : Env → ChatNode → Run → Option ChatbotFlow
unfolding flow_by_id
goto_target env node r =
    let id = string_from_config node.config (codes "flow_id" ∷ []) in
    let found = do
      target_id ← env.parse_id id
      flows ← env.flows
      target ← flow_by_id target_id flows
      if target.is_enabled && (target.account == r.session.account) && has_graph target
          then some target
          else none
    in if id == [] then none else found

unfoldable pub exec_goto_flow : Env → ChatNode → Run → Run × Reply
unfolding goto_target
exec_goto_flow env node r = elim (goto_target env node r) [
  | none ↦ (r, goes [])
  | some target ↦ (
    with_session (λ s. record s { current_flow_id = some target.id })
        (append_entry
          ((codes "action", Value.str (codes "goto_flow"))
            ∷ (codes "flow", Value.str target.name)
            ∷ (codes "flow_id", Value.str (env.show_id target.id))
            ∷ [])
          r),
    goes (codes "goto"),
  )
]

-- ===== src/ChatGraph/Rests.antt =====
-- internal/handlers/chatbot_graph_runner.go: where a run that has finished leaves the session.
use trt_whats.Common.{
  Bool, true, false, [], ◌∷◌, Text, text_eq_on, ◌≡◌, ◌⊎◌, arith, Option-cases, inl, inr,
}
use trt_whats.Json.{Value, Data, as_string}
use trt_whats.TemplateEngine.Render.{process_template}
use trt_whats.ChatGraph.{ChatNode, NodeType, Env, Run, Reply, yields, rendered, set_data}
use trt_whats.ChatGraph.Call.{
  seeded, exec_api_call, after_call, exec_webhook, execute_configured_api, map_response,
  message_after, Response,
}
use trt_whats.ChatGraph.Timing.{exec_timing}
use trt_whats.ChatGraph.Nodes.{
  exec_message, exec_end, exec_condition, exec_set_variable, exec_ai_response, exec_transfer,
  exec_goto_flow, send_and_log, set_variables, send_answer, transfer_from,
}
use trt_whats.ChatGraph.Runner.{is_completed, execute_chat_node}

-- The types of the nodes that wait for the user.
abbrev pub is_waiting : NodeType → Bool
is_waiting NodeType.buttons = true
is_waiting NodeType.prompt = true
is_waiting NodeType.whatsapp_flow = true
is_waiting _ = false

-- A node that yields has completed the session.
abbrev Passes : Run × Reply → Type 0
Passes result = result.1 ≡ yields → is_completed result.0.session.status ≡ true

rendered-Passes :
    (env : Env) (t : Text) (r : Run) (k : Text → Run × Reply)
    → ((s : Text) → Passes (k s))
    → Passes (rendered env t r k)
rendered-Passes env t r k h =
    elim (Option-cases (process_template env.lang env.loop_rounds t r.session.session_data)) [
      | inl e ↦ rw (rendered, e) (λ y. cc)
      | inr (s, e) ↦ rw (rendered, e) (h s)
    ]

module _ (env : Env) (n : ChatNode) where
  exec_message-Passes : (r : Run) → Passes (exec_message env n r)
  unfolding exec_message send_and_log
  exec_message-Passes r h = ground arith

  exec_end-Passes : (r : Run) → Passes (exec_end env n r)
  unfolding exec_end send_and_log
  exec_end-Passes r h = ground arith

  exec_condition-Passes : (r : Run) → Passes (exec_condition env n r)
  unfolding exec_condition
  exec_condition-Passes r h = ground arith

  set_variables-Passes : (m : Data) (r : Run) → Passes (set_variables env m r)
  unfolding set_variables
  set_variables-Passes [] r = λ h. cc
  set_variables-Passes ((k, raw) ∷ m) r = elim (Option-cases (as_string raw)) [
    | inl e ↦ ground (arith, set_variables-Passes m r, set_variables-Passes m (set_data k raw r))
    | inr (t, e) ↦
        let later : Text → Run × Reply = λ s. set_variables env m (set_data k (Value.str s) r) in
        ground (
          arith,
          set_variables-Passes m r,
          rendered-Passes env t r later (λ s. set_variables-Passes m (set_data k (Value.str s) r)),
        )
  ]

  exec_set_variable-Passes : (r : Run) → Passes (exec_set_variable env n r)
  unfolding exec_set_variable
  exec_set_variable-Passes r = set_variables-Passes _ r

  exec_transfer-Passes : (r : Run) → Passes (exec_transfer env n r)
  unfolding exec_transfer transfer_from
  exec_transfer-Passes r h = ground arith

  exec_webhook-Passes : (r : Run) → Passes (exec_webhook env n r)
  unfolding exec_webhook execute_configured_api
  exec_webhook-Passes r h = ground arith

  exec_goto_flow-Passes : (r : Run) → Passes (exec_goto_flow env n r)
  unfolding exec_goto_flow
  exec_goto_flow-Passes r h = ground arith

  exec_ai_response-Passes : (r : Run) → Passes (exec_ai_response env n r)
  unfolding exec_ai_response send_answer send_and_log
  exec_ai_response-Passes r h = ground arith

  message_after-Passes : (r : Run) → Passes (message_after env n r)
  unfolding message_after
  message_after-Passes r h = ground arith

  after_call-Passes : (r : Run) (response : Response) → Passes (after_call env n r response)
  unfolding after_call
  after_call-Passes r Response.never h = cc
  after_call-Passes r Response.failed h = cc
  after_call-Passes r (Response.answered body status) h =
      elim (Option-cases (map_response env n body r)) [
        | inl e ↦ ground arith
        | inr (r1, e) ↦ ground (arith, message_after-Passes r1)
      ]

  exec_api_call-Passes : (r : Run) → Passes (exec_api_call env n r)
  unfolding exec_api_call
  exec_api_call-Passes r =
      let call = execute_configured_api env n.config (seeded r) in after_call-Passes call.0 call.1

  -- A node at which the run stops waits for the user, unless it has completed the session.
  pub execute_chat_node-yields :
      (r : Run)
      → (execute_chat_node env n r).1 ≡ yields
      → (is_completed (execute_chat_node env n r).0.session.status ≡ true)
        ⊎ (is_waiting n.type ≡ true)
  unfolding execute_chat_node exec_timing
  execute_chat_node-yields r h = ground (
    arith,
    exec_message-Passes r,
    exec_api_call-Passes r,
    exec_condition-Passes r,
    exec_set_variable-Passes r,
    exec_ai_response-Passes r,
    exec_transfer-Passes r,
    exec_webhook-Passes r,
    exec_goto_flow-Passes r,
    exec_end-Passes r,
  )

-- ===== src/ChatGraph/Kept.antt =====
-- internal/handlers/chatbot_graph_runner.go: no executor saves the session or moves it.
use trt_whats.Common.{
  Bool, true, false, List, [], ◌∷◌, some, if◌then◌else◌, take, Text, ◌==◌, text_eq_on, ◌≡◌, refl,
  ◌∙◌, arith, Option-cases, inl, inr,
}
use trt_whats.Json.{as_string, Value, Data}
use trt_whats.TemplateEngine.Render.{process_template}
use trt_whats.ChatGraph.{ChatNode, Env, Run, Reply, rendered, cta_url, set_data}
use trt_whats.ChatGraph.Call.{
  Response, never, failed, answered, seeded, after_call, exec_api_call, exec_webhook,
  execute_configured_api, map_response, message_after, send_rendered,
}
use trt_whats.ChatGraph.Config.{string_from_config, buttons_from_config}
use trt_whats.ChatGraph.Timing.{exec_timing}
use trt_whats.ChatGraph.Send.{
  send_interactive_buttons, cta_buttons, send_ctas, send_replies, send_outgoing,
}
use trt_whats.ChatGraph.Nodes.{
  exec_message, exec_end, exec_condition, exec_set_variable, exec_ai_response, exec_transfer,
  exec_goto_flow, send_and_log, set_variables, text_keys, send_answer, transfer_from,
}
use trt_whats.ChatGraph.Inputs.{
  exec_buttons, exec_prompt, template_buttons, exec_whatsapp_flow, store_as, send_buttons,
  prompt_invalid, ask, send_form,
}
use trt_whats.ChatGraph.Runner.{execute_chat_node}

-- The two runs have saved the same sessions, and stand at the same node.
abbrev pub Kept : Run → Run → Type 0
Kept r r' = (r'.saved ≡ r.saved) × (r'.session.current_step ≡ r.session.current_step)

Kept-trans : (r1 r2 r3 : Run) → Kept r1 r2 → Kept r2 r3 → Kept r1 r3
Kept-trans r1 r2 r3 h k = (k.0 ∙ h.0, k.1 ∙ h.1)

rendered-Kept :
    (env : Env) (t : Text) (r : Run) (k : Text → Run × Reply)
    → ((s : Text) → Kept r (k s).0)
    → Kept r (rendered env t r k).0
rendered-Kept env t r k h =
    elim (Option-cases (process_template env.lang env.loop_rounds t r.session.session_data)) [
      | inl e ↦ rw (rendered, e) ((refl, refl))
      | inr (s, e) ↦ rw (rendered, e) (h s)
    ]

module _ (env : Env) (n : ChatNode) where
  send_and_log-Kept :
      (w : Text) (p : Reply) (t : Text) (r : Run) → Kept r (send_and_log env n w p t r).0
  unfolding send_and_log
  send_and_log-Kept w p t r = ground arith

  exec_message-Kept : (r : Run) → Kept r (exec_message env n r).0
  unfolding exec_message send_and_log
  exec_message-Kept r = ground arith

  exec_end-Kept : (r : Run) → Kept r (exec_end env n r).0
  unfolding exec_end send_and_log
  exec_end-Kept r = ground arith

  exec_condition-Kept : (r : Run) → Kept r (exec_condition env n r).0
  unfolding exec_condition
  exec_condition-Kept r = ground arith

  set_variables-Kept : (m : Data) (r : Run) → Kept r (set_variables env m r).0
  unfolding set_variables
  set_variables-Kept [] r = (refl, refl)
  set_variables-Kept ((k, raw) ∷ m) r = elim (Option-cases (as_string raw)) [
    | inl e ↦ ground (arith, set_variables-Kept m r, set_variables-Kept m (set_data k raw r))
    | inr (t, e) ↦
        let later : Text → Run × Reply = λ s. set_variables env m (set_data k (Value.str s) r) in
        ground (
          arith,
          set_variables-Kept m r,
          rendered-Kept env t r later (λ s. set_variables-Kept m (set_data k (Value.str s) r)),
        )
  ]

  exec_set_variable-Kept : (r : Run) → Kept r (exec_set_variable env n r).0
  unfolding exec_set_variable
  exec_set_variable-Kept r = set_variables-Kept _ r

  transfer_from-Kept : (r : Run) → Kept r (transfer_from env n r).0
  unfolding transfer_from
  transfer_from-Kept r = ground arith

  exec_transfer-Kept : (r : Run) → Kept r (exec_transfer env n r).0
  unfolding exec_transfer transfer_from
  exec_transfer-Kept r = ground arith

  send_ctas-Kept :
      (body : Text) (first : Bool) (bs : List (Text × Text)) (r : Run)
      → Kept r (send_ctas env body first bs r).0
  unfolding send_ctas
  send_ctas-Kept body first [] r = (refl, refl)
  send_ctas-Kept body first ((t, u) ∷ bs) r = ground (
    arith,
    send_ctas-Kept body false bs r,
    send_ctas-Kept body false bs (send_outgoing env (cta_url (if first then body else t) t u) r).0,
  )

  exec_webhook-Kept : (r : Run) → Kept r (exec_webhook env n r).0
  unfolding exec_webhook execute_configured_api
  exec_webhook-Kept r = ground arith

  exec_goto_flow-Kept : (r : Run) → Kept r (exec_goto_flow env n r).0
  unfolding exec_goto_flow
  exec_goto_flow-Kept r = ground arith

  exec_prompt-Kept : (r : Run) → Kept r (exec_prompt env n r).0
  unfolding exec_prompt ask prompt_invalid store_as send_and_log
  exec_prompt-Kept r = ground arith

  exec_ai_response-Kept : (r : Run) → Kept r (exec_ai_response env n r).0
  unfolding exec_ai_response send_answer send_and_log
  exec_ai_response-Kept r = ground arith

  exec_whatsapp_flow-Kept : (r : Run) → Kept r (exec_whatsapp_flow env n r).0
  unfolding exec_whatsapp_flow send_form
  exec_whatsapp_flow-Kept r = ground arith

  send_interactive-Kept :
      (body : Text) (bs : List Data) (r : Run) → Kept r (send_interactive_buttons env body bs r).0
  unfolding send_interactive_buttons send_replies
  send_interactive-Kept body bs r =
      ground (arith, send_ctas-Kept body true (take 2 (cta_buttons bs)) r)

  send_buttons-Kept : (body : Text) (r : Run) → Kept r (send_buttons env n body r).0
  unfolding send_buttons
  send_buttons-Kept body r =
      elim (Option-cases
        (template_buttons env r.session.session_data (buttons_from_config n.config))) [
          | inl e ↦ ground arith
          | inr (bs, e) ↦ ground (arith, send_interactive-Kept body bs r)
        ]

  exec_buttons-Kept : (r : Run) → Kept r (exec_buttons env n r).0
  unfolding exec_buttons store_as
  exec_buttons-Kept r =
      let raw = string_from_config n.config text_keys in
      ground (
        arith,
        rendered-Kept env (if raw == [] then n.label else raw) r (λ t. send_buttons env n t r)
            (λ t. send_buttons-Kept t r),
      )

  map_response-Kept : (body : Text) (r r' : Run) → map_response env n body r ≡ some r' → Kept r r'
  unfolding map_response
  map_response-Kept body r r' h = ground arith

  message_after-Kept : (r : Run) → Kept r (message_after env n r).0
  unfolding message_after send_rendered
  message_after-Kept r = ground arith

  after_call-Kept : (r : Run) (response : Response) → Kept r (after_call env n r response).0
  unfolding after_call
  after_call-Kept r never = (refl, refl)
  after_call-Kept r failed = (refl, refl)
  after_call-Kept r (answered body status) = elim (Option-cases (map_response env n body r)) [
    | inl e ↦ ground arith
    | inr (r1, e) ↦ ground (arith, map_response-Kept body r r1 e, message_after-Kept r1)
  ]

  execute_configured_api-Kept : (cfg : Data) (r : Run) → Kept r (execute_configured_api env cfg r).0
  unfolding execute_configured_api
  execute_configured_api-Kept cfg r = ground arith

  exec_api_call-Kept : (r : Run) → Kept r (exec_api_call env n r).0
  unfolding exec_api_call
  exec_api_call-Kept r =
      let call = execute_configured_api env n.config (seeded r) in
      Kept-trans r call.0 (after_call env n call.0 call.1).0
        (execute_configured_api-Kept n.config (seeded r)) (after_call-Kept call.0 call.1)

  exec_timing-Kept : (r : Run) → Kept r (exec_timing env n r).0
  unfolding exec_timing
  exec_timing-Kept r = (refl, refl)

  -- Whatever a node is, its execution saves nothing, and leaves the session at its node.
  pub execute_chat_node-Kept : (r : Run) → Kept r (execute_chat_node env n r).0
  unfolding execute_chat_node
  execute_chat_node-Kept r = ground (
    arith,
    exec_message-Kept r,
    exec_buttons-Kept r,
    exec_prompt-Kept r,
    exec_api_call-Kept r,
    exec_condition-Kept r,
    exec_timing-Kept r,
    exec_set_variable-Kept r,
    exec_ai_response-Kept r,
    exec_transfer-Kept r,
    exec_webhook-Kept r,
    exec_goto_flow-Kept r,
    exec_whatsapp_flow-Kept r,
    exec_end-Kept r,
  )

-- ===== src/ChatGraph/Inputs.antt =====
-- internal/handlers/chatbot_graph_runner.go: the executors of the nodes that wait for input.
use trt_whats.Common.{
  ℕ, suc, Bool, true, not, ◌&&◌, ◌||◌, List, [], ◌∷◌, ◌++◌, Option, none, some, if◌then◌else◌,
  nat_eq, ltb, length, Text, codes, lookup, insert, ◌==◌, text_eq_on, ◌>>=◌, pos, leb_ℤ,
}
use trt_whats.Json.{Value, Data, as_list, or_null, as_string}
use trt_whats.Strconv.Decimal.{decimal}
use trt_whats.ChatGraph.{
  ChatNode, Env, Run, Reply, WhatsAppFlow, form, goes, fails, yields, stops, rendered, set_data,
  default_outcome, with_session,
}
use trt_whats.ChatGraph.Config.{filled, string_from_config, int_from_config, buttons_from_config}
use trt_whats.ChatGraph.Send.{
  send_outgoing, log_session_message, send_interactive_buttons, string_at,
}
use trt_whats.ChatGraph.Call.{template, merge_data}
use trt_whats.ChatGraph.Nodes.{text_keys, send_and_log}

abbrev pub consume : Run → Run
consume r = record r { consumed = true }

-- The answer is kept under store_as, if the node has one.
unfoldable pub store_as : ChatNode → Text → Run → Run
store_as node value r =
    let key = string_from_config node.config (codes "store_as" ∷ []) in
    if key == [] then r else set_data key (Value.str value) r

-- The templates of one button, at the three keys.
unfoldable pub template_keys : Env → Data → List Text → Data → Option Data
template_keys env m [] button = some button
template_keys env m (k ∷ ks) button = elim (filled (or_null (lookup k button))) [
  | none ↦ template_keys env m ks button
  | some s ↦ do t ← template env m s; template_keys env m ks (insert k (Value.str t) button)
]

unfoldable pub template_buttons : Env → Data → List Data → Option (List Data)
unfolding template_keys
template_buttons env m [] = some []
template_buttons env m (b ∷ bs) = do
  t ← template_keys env m (codes "title" ∷ codes "url" ∷ codes "phone_number" ∷ []) b
  ts ← template_buttons env m bs
  some (t ∷ ts)

unfoldable pub send_buttons : Env → ChatNode → Text → Run → Run × Reply
unfolding template_buttons send_interactive_buttons log_session_message
send_buttons env node body r =
    let configured = buttons_from_config node.config in
    let sends : Run × Reply = elim (template_buttons env r.session.session_data configured) [
      | none ↦ (r, stops)
      | some buttons ↦
          let (r1, error) = send_interactive_buttons env body buttons r in
          elim error [
            | some e ↦ (r1, fails (codes "send buttons: " ++ e))
            | none ↦ (log_session_message body node r1, yields)
          ]
    ] in
    if nat_eq (length configured) 0
    then (r, fails (codes "buttons node has no buttons configured"))
    else sends

unfoldable pub exec_buttons : Env → ChatNode → Run → Run × Reply
unfolding store_as send_buttons
exec_buttons env node r =
    let raw = string_from_config node.config text_keys in
    let body = if raw == [] then node.label else raw in
    let value = if r.user_input == [] then r.button_id else r.user_input in
    let sends = rendered env body r (λ t. send_buttons env node t r) in
    if not r.consumed && not (r.button_id == [])
    then (store_as node value (consume r), goes (codes "button:" ++ r.button_id))
    else sends

abbrev pub with_retries : ℕ → Run → Run
with_retries n = with_session (λ s. record s { step_retries = n })

-- handleChatPromptInvalid
unfoldable pub prompt_invalid : Env → ChatNode → Run → Run × Reply
unfolding send_and_log
prompt_invalid env node r =
    let retries = suc r.session.step_retries in
    let limit = int_from_config env.lang.float node.config (codes "max_retries") (pos 3) in
    let raw = string_from_config node.config (codes "validation_error" ∷ []) in
    let error = if raw == [] then codes "Invalid input. Please try again." else raw in
    let again = rendered env error (with_retries retries r) (λ t.
      send_and_log env node (codes "send validation error: ") yields t (with_retries retries r)) in
    if leb_ℤ limit (pos retries) then (with_retries 0 r, goes (codes "max_retries")) else again

-- Whether an answer passes; a regular expression that does not compile is skipped.
abbrev pub is_valid : Env → Text → Text → Bool
is_valid env regex input =
    (regex == []) || elim (env.regex regex input) [ none ↦ true | some b ↦ b ]

unfoldable pub ask : Env → ChatNode → Run → Run × Reply
unfolding send_and_log
ask env node r =
    let body = string_from_config node.config text_keys in
    let sends =
      rendered env body r (λ t. send_and_log env node (codes "send prompt: ") yields t r) in
    if body == [] then (r, fails (codes "prompt node has no body configured")) else sends

unfoldable pub exec_prompt : Env → ChatNode → Run → Run × Reply
unfolding ask prompt_invalid store_as
exec_prompt env node r =
    let asks = ask env node r in
    let refuses = prompt_invalid env node (consume r) in
    let regex = string_from_config node.config (codes "validation_regex" ∷ []) in
    if not r.consumed && (r.user_input == [])
    then asks
    else if r.consumed
    then (r, yields)
    else if is_valid env regex r.user_input
    then (with_retries 0 (store_as node r.user_input (consume r)), goes default_outcome)
    else refuses

-- screens[0].(map[string]any)["id"].(string)
abbrev pub first_id : List Value → Text
first_id (Value.obj fs ∷ vs) = string_at (codes "id") (trt_whats.Json.to_map fs)
first_id _ = []

abbrev pub first_screen : Option WhatsAppFlow → Text
first_screen none = []
first_screen (some f) =
    if not (first_id f.screens == []) then first_id f.screens else elim f.flow_json [
      | none ↦ []
      | some m ↦ first_id (as_list (or_null (lookup (codes "screens") m)))
    ]

abbrev flow_token : Env → ChatNode → Run → Text
flow_token env node r =
    codes "chatbot_"
    ++ env.show_id r.session.id
    ++ codes "_"
    ++ node.id
    ++ codes "_"
    ++ decimal env.now

unfoldable pub send_form : Env → ChatNode → Text → Text → Text → Text → Run → Run × Reply
unfolding send_outgoing log_session_message
send_form env node flow header body cta r =
    let screen = first_screen (env.whatsapp_flow flow) in
    let (r1, error) =
      send_outgoing env (form flow header body cta (flow_token env node r) screen) r in
    elim error [
      | some e ↦ (r1, fails (codes "send whatsapp_flow: " ++ e))
      | none ↦ (log_session_message body node r1, yields)
    ]

unfoldable pub exec_whatsapp_flow : Env → ChatNode → Run → Run × Reply
unfolding send_form
exec_whatsapp_flow env node r =
    let flow = string_from_config node.config (codes "flow_id" ∷ []) in
    let sends = rendered env (string_from_config node.config text_keys) r (λ body.
      rendered env (string_from_config node.config (codes "header" ∷ [])) r (λ header.
        rendered env (string_from_config node.config (codes "cta" ∷ [])) r
          (λ cta. send_form env node flow header body cta r))) in
    if not r.consumed && ltb 0 (length r.flow_response)
    then (merge_data r.flow_response (consume r), goes default_outcome)
    else if flow == []
    then (r, goes default_outcome)
    else sends

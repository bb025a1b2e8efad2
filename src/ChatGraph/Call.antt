-- ===== src/ChatGraph/Call.antt =====
-- internal/handlers: executeConfiguredAPI of chatbot_processor.go, and the api_call and webhook
-- nodes of chatbot_graph_runner.go.
use trt_whats.Common.{
  ℕ, Bool, ◌&&◌, [], ◌∷◌, ◌++◌, Option, none, some, if◌then◌else◌, ltb, leb, nat_eq, length, Text,
  codes, Map, lookup, insert, ◌==◌, text_eq_on, ◌>>=◌,
}
use trt_whats.Json.{Value, Data, as_map, or_null}
use trt_whats.TemplateEngine.Path.{extract_response_mapping}
use trt_whats.TemplateEngine.Render.{process_template}
use trt_whats.ChatGraph.{
  ChatNode, Env, Run, Reply, Request, text, goes, stops, rendered, set_data, default_outcome,
  with_session,
}
use trt_whats.ChatGraph.Config.{filled, string_from_config}
use trt_whats.ChatGraph.Send.{send_outgoing, log_session_message}

abbrev pub template : Env → Data → Text → Option Text
template env m t = process_template env.lang env.loop_rounds t m

-- The loop over the configured headers: those that are strings.
unfoldable pub set_headers : Env → Data → Map Text Text → Data → Option (Map Text Text)
set_headers env m set [] = some set
set_headers env m set ((key, Value.str v) ∷ rest) = do
  t ← template env m v
  set_headers env m (insert (env.header_key key) t set) rest
set_headers env m set ((key, v) ∷ rest) = set_headers env m set rest

abbrev pub method_of : Env → Data → Text
method_of env cfg = elim (filled (or_null (lookup (codes "method") cfg))) [
  | none ↦ codes "GET"
  | some t ↦ env.to_upper t
]

abbrev pub body_of : Env → Data → Data → Option (Option Text)
body_of env m cfg = elim (filled (or_null (lookup (codes "body") cfg))) [
  | none ↦ some none
  | some t ↦ do s ← template env m t; some (some s)
]

-- The request, for a config with a URL.
unfoldable pub build_request : Env → Data → Data → Text → Option Request
unfolding set_headers
build_request env m cfg raw = do
  url ← template env m raw
  body ← body_of env m cfg
  headers ←
      set_headers env m
        (insert (codes "Accept") (codes "application/json")
          (insert (codes "Content-Type") (codes "application/json") []))
        (as_map (or_null (lookup (codes "headers") cfg)))
  some (record { method = method_of env cfg; url = url; body = body; headers = headers })

-- The body and the status, or an error.
pub data Response : Type 0 where
  failed : Response
  answered : Text → ℕ → Response
  never : Response  -- a template of the request panics or is never done

abbrev pub answer : Option (Text × ℕ) → Response
answer none = failed
answer (some (body, status)) = answered body status

-- The config is the node's, and the templates read the session's data.
unfoldable pub execute_configured_api : Env → Data → Run → Run × Response
unfolding build_request
execute_configured_api env cfg r = elim (filled (or_null (lookup (codes "url") cfg))) [
  | none ↦ (r, failed)
  | some raw ↦ elim (build_request env r.session.session_data cfg raw) [
    | none ↦ (r, never)
    | some q ↦ (record r { requests = r.requests ++ q ∷ [] }, answer (env.http r.requests q))
  ]
]

-- The entries of response_mapping that are strings.
abbrev pub string_entries : Data → Map Text Text
string_entries [] = []
string_entries ((k, Value.str s) ∷ m) = (k, s) ∷ string_entries m
string_entries ((k, v) ∷ m) = string_entries m

-- maps.Copy
unfoldable pub copy_into : Data → Data → Data
copy_into m [] = m
copy_into m ((k, v) ∷ rest) = copy_into (insert k v m) rest

abbrev pub merge_data : Data → Run → Run
merge_data new = with_session (λ s. record s { session_data = copy_into s.session_data new })

-- The response_mapping of a 2xx response; none is a panic.
unfoldable pub map_response : Env → ChatNode → Text → Run → Option Run
unfolding copy_into
map_response env node body r =
    let mapping = as_map (or_null (lookup (codes "response_mapping") node.config)) in
    let mapped : Option Run = elim (env.parse_json body) [
      | none ↦ some r
      | some response ↦ do
        found ← extract_response_mapping response (string_entries mapping)
        some (merge_data found r)
    ] in
    if nat_eq (length mapping) 0 then some r else mapped

-- The message after a 2xx response; its failure is logged, and the node still goes on.
unfoldable pub send_rendered : Env → ChatNode → Text → Run → Run
unfolding send_outgoing log_session_message
send_rendered env node [] r = r
send_rendered env node (c ∷ s) r =
    let (r1, error) = send_outgoing env (text (c ∷ s)) r in
    elim error [ some e ↦ r1 | none ↦ log_session_message (c ∷ s) node r1 ]

unfoldable pub message_after : Env → ChatNode → Run → Run × Reply
unfolding send_rendered
message_after env node r =
    let tmpl = string_from_config node.config (codes "message_template" ∷ []) in
    let sends = rendered env tmpl r (λ t. (send_rendered env node t r, goes (codes "http:2xx"))) in
    if tmpl == [] then (r, goes (codes "http:2xx")) else sends

abbrev pub is_2xx : ℕ → Bool
is_2xx status = leb 200 status && ltb status 300

abbrev pub seeded : Run → Run
seeded r = set_data (codes "phone_number") (Value.str r.session.phone_number) r

-- What an api_call node makes of the response.
unfoldable pub after_call : Env → ChatNode → Run → Response → Run × Reply
unfolding map_response message_after
after_call env node r never = (r, stops)
after_call env node r failed = (r, goes (codes "http:non2xx"))
after_call env node r (answered body status) =
    let success : Run × Reply = elim (map_response env node body r) [
      | none ↦ (r, stops)
      | some r1 ↦ message_after env node r1
    ] in
    if is_2xx status then success else (r, goes (codes "http:non2xx"))

unfoldable pub exec_api_call : Env → ChatNode → Run → Run × Reply
unfolding execute_configured_api after_call
exec_api_call env node r =
    let (r1, response) = execute_configured_api env node.config (seeded r) in
    after_call env node r1 response

unfoldable pub exec_webhook : Env → ChatNode → Run → Run × Reply
unfolding execute_configured_api
exec_webhook env node r =
    let (r1, response) = execute_configured_api env node.config (seeded r) in
    elim response [ never ↦ (r1, stops) | other_response ↦ (r1, goes default_outcome) ]

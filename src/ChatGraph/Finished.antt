-- ===== src/ChatGraph/Finished.antt =====
-- internal/handlers/chatbot_graph_runner.go: the session after a run that reports no error.
use trt_whats.Common.{
  ℕ, zero, suc, true, [], Option, some, Text, codes, ◌==◌, text_eq_on, ◌≡◌, ◌⊎◌, refl, ap, ◌∙◌,
  Bool-cases, Option-cases, inl, inr, ◌>>=◌,
}
use trt_whats.FlowGraph.{node, resolve_edge}
use trt_whats.ChatGraph.{
  ChatNode, ChatGraph, ChatbotFlow, Env, Run, Reply, goes, fails, yields, stops, default_outcome,
}
use trt_whats.ChatGraph.Config.{append_chat_path}
use trt_whats.ChatGraph.Nodes.{flow_by_id}
use trt_whats.ChatGraph.Runner.{
  Ending, finished, bad_graph, bad_target, Round, continues, ends, is_completed,
  persist_chat_session, persist_and_return, persist_and_fail, advance, switch_flow, after_node,
  visit, run_loop, prepare, run_chat_graph, parse_chat_graph, ParsedGraph, absent, refused, parsed,
  execute_chat_node, skips, has_switched, completed_run, at_step, max_chat_graph_iterations,
}
use trt_whats.ChatGraph.Kept.{execute_chat_node-Kept}
use trt_whats.ChatGraph.Rests.{is_waiting, execute_chat_node-yields}

-- A graph that a run may have loaded: that of the flow it starts with, or of one of the flows.
abbrev pub IsLoaded : Env → ChatbotFlow → ChatbotFlow → ChatGraph → Type 0
IsLoaded env start f g =
    ((f ≡ start) ⊎ ((id : ℕ) × ((env.flows >>= λ fs. flow_by_id id fs) ≡ some f)))
    × (parse_chat_graph env f.graph ≡ parsed g)

-- The session stands at a node of such a graph that waits for the user.
abbrev pub Waits : Env → ChatbotFlow → Run → Type 0
Waits env start r =
    (f : ChatbotFlow) × (g : ChatGraph) × (n : ChatNode) × IsLoaded env start f g
    × (node g r.session.current_step ≡ some n)
    × (is_waiting n.type ≡ true)

abbrev pub Rests : Env → ChatbotFlow → Run → Type 0
Rests env start r = (is_completed r.session.status ≡ true) ⊎ Waits env start r

abbrev Settles : Env → ChatbotFlow → Round → Type 0
Settles env start (continues flow g r) = IsLoaded env start flow g
Settles env start (ends result) = result.1 ≡ finished → Rests env start result.0

persist_and_return-Rests :
    (env : Env) (start : ChatbotFlow) (r : Run)
    → Rests env start r
    → Settles env start (ends (persist_and_return env r))
unfolding persist_and_return persist_chat_session
persist_and_return-Rests env start r (inl done) h = inl done
persist_and_return-Rests env start r (inr w) h = inr w

advance-Settles :
    (env : Env) (start flow : ChatbotFlow) (g : ChatGraph) (n : ChatNode) (outcome : Text) (r : Run)
    → IsLoaded env start flow g
    → Settles env start (advance env flow g n outcome r)
unfolding advance
advance-Settles env start flow g n outcome r l =
    elim (Bool-cases (resolve_edge g n.id outcome == [])) [
      | inl last ↦
          rw (advance, last) (persist_and_return-Rests env start (completed_run r) (inl refl))
      | inr more ↦ rw (advance, more) l
    ]

switch_flow-Settles :
    (env : Env) (start : ChatbotFlow) (id : ℕ) (r : Run) → Settles env start (switch_flow env id r)
unfolding switch_flow persist_and_fail
switch_flow-Settles env start id r = elim (Option-cases (env.flows >>= λ fs. flow_by_id id fs)) [
  | inl e ↦ rw (switch_flow, e) (λ h. cc)
  | inr (target, e) ↦ rw (switch_flow, e) (into (parse_chat_graph env target.graph) target e refl)
]
  where
    into :
        (p : ParsedGraph) (target : ChatbotFlow)
        → (env.flows >>= λ fs. flow_by_id id fs) ≡ some target
        → parse_chat_graph env target.graph ≡ p
        → Settles env start (elim p [
          | absent ↦
              ends (persist_and_fail env (bad_target (codes "target flow has no v2 graph")) r)
          | refused e ↦ ends (persist_and_fail env (bad_target e) r)
          | parsed g ↦ continues target g (at_step g.entry_node r)
        ])
    into absent target found e = λ h. cc
    into (refused e) target found h = λ h. cc
    into (parsed g) target found e = (inr ((id, found)), e)

after_node-Settles :
    (env : Env) (start flow : ChatbotFlow) (g : ChatGraph) (n : ChatNode) (r : Run) (reply : Reply)
    → IsLoaded env start flow g
    → (reply ≡ yields → Rests env start r)
    → Settles env start (after_node env flow g n (r, reply))
unfolding after_node append_chat_path persist_and_fail
after_node-Settles env start flow g n r stops l w = λ h. cc
after_node-Settles env start flow g n r (fails e) l w = λ h. cc
after_node-Settles env start flow g n r yields l w =
    persist_and_return-Rests env start (append_chat_path n [] r) (kept (w refl))
  where
    kept : Rests env start r → Rests env start (append_chat_path n [] r)
    kept (inl done) = inl done
    kept (inr waits) = inr waits
after_node-Settles env start flow g n r (goes outcome) l w =
    elim (Option-cases (has_switched flow r)) [
      | inl e ↦
          rw (after_node, e)
            (advance-Settles env start flow g n outcome (append_chat_path n outcome r) l)
      | inr (id, e) ↦
          rw (after_node, e) (switch_flow-Settles env start id (append_chat_path n outcome r))
    ]

-- A node that is run where the session stands.
executed-Rests :
    (env : Env) (start flow : ChatbotFlow) (g : ChatGraph) (n : ChatNode) (r : Run)
    → IsLoaded env start flow g
    → node g r.session.current_step ≡ some n
    → (execute_chat_node env n r).1 ≡ yields
    → Rests env start (execute_chat_node env n r).0
executed-Rests env start flow g n r l e h = elim (execute_chat_node-yields env n r h) [
  | inl done ↦ inl done
  | inr waits ↦ inr ((flow, g, n, l, ap (node g) (execute_chat_node-Kept env n r).1 ∙ e, waits))
]

visit-Settles :
    (env : Env) (start flow : ChatbotFlow) (g : ChatGraph) (r : Run)
    → IsLoaded env start flow g
    → Settles env start (visit env flow g r)
unfolding visit
visit-Settles env start flow g r l = elim (Option-cases (node g r.session.current_step)) [
  | inl e ↦ rw (visit, e) (λ h. cc)
  | inr (n, e) ↦ elim (Bool-cases (skips env n r)) [
    | inl skipped ↦
        rw (visit, e, skipped)
          (advance-Settles env start flow g n default_outcome
            (append_chat_path n (codes "skipped") r) l)
    | inr run ↦
        rw (visit, e, run)
          (after_node-Settles env start flow g n (execute_chat_node env n r).0
            (execute_chat_node env n r).1 l (executed-Rests env start flow g n r l e))
  ]
]

run_loop-Rests :
    (env : Env) (start : ChatbotFlow) (left : ℕ) (flow : ChatbotFlow) (g : ChatGraph) (r : Run)
    → IsLoaded env start flow g
    → (run_loop env left flow g r).1 ≡ finished
    → Rests env start (run_loop env left flow g r).0
unfolding run_loop persist_and_fail
run_loop-Rests env start zero flow g r l = λ h. cc
run_loop-Rests env start (suc left) flow g r l =
    go (λ f g1 r1 k. run_loop-Rests env start left f g1 r1 k) (visit env flow g r)
      (visit-Settles env start flow g r l)
  where
    go :
        ((f : ChatbotFlow) (g1 : ChatGraph) (r1 : Run)
          → IsLoaded env start f g1
          → (run_loop env left f g1 r1).1 ≡ finished
          → Rests env start (run_loop env left f g1 r1).0)
        → (round : Round) → Settles env start round
        → let result : Run × Ending = elim round [
          | ends res ↦ res
          | continues flow1 g1 r1 ↦ run_loop env left flow1 g1 r1
        ] in
          result.1 ≡ finished → Rests env start result.0
    go later (ends res) w h = w h
    go later (continues flow1 g1 r1) w h = later flow1 g1 r1 w h

-- A run that reports no error leaves the session completed, or at a node that waits for the user: a
-- node of the graph of the flow that it was given, or of one of the flows that may be jumped to.
pub run_chat_graph-Rests :
    (env : Env) (contact : Option Text) (flow : ChatbotFlow) (r : Run)
    → (run_chat_graph env contact flow r).1 ≡ finished
    → Rests env flow (run_chat_graph env contact flow r).0
unfolding run_chat_graph
run_chat_graph-Rests env contact flow r = go (parse_chat_graph env flow.graph) refl
  where
    go :
        (p : ParsedGraph)
        → parse_chat_graph env flow.graph ≡ p
        → let result : Run × Ending = elim p [
          | absent ↦ (r, bad_graph)
          | refused e ↦ (r, bad_graph)
          | parsed g ↦ run_loop env max_chat_graph_iterations flow g (prepare contact g r)
        ] in
          result.1 ≡ finished → Rests env flow result.0
    go absent e h = cc
    go (refused e) k h = cc
    go (parsed g) e h =
        run_loop-Rests env flow max_chat_graph_iterations flow g (prepare contact g r) (inl refl, e)
          h

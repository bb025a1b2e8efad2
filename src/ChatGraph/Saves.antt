-- ===== src/ChatGraph/Saves.antt =====
-- internal/handlers/chatbot_graph_runner.go: what a run has saved when it ends.
use trt_whats.Common.{
  ℕ, zero, suc, true, List, [], ◌∷◌, ◌++◌, Option, none, some, Text, codes, ◌==◌, text_eq_on, ◌≡◌,
  ◌≢◌, refl, subst, arith, Bool-cases, Option-cases, inl, inr, ◌>>=◌,
}
use trt_whats.ChatGraph.{
  ChatNode, ChatGraph, ChatbotFlow, Env, Run, Reply, Session, goes, fails, yields, stops,
  default_outcome,
}
use trt_whats.FlowGraph.{node, resolve_edge}
use trt_whats.ChatGraph.Config.{append_chat_path}
use trt_whats.ChatGraph.Nodes.{flow_by_id}
use trt_whats.ChatGraph.Runner.{
  Ending, finished, bad_graph, node_not_found, crashed, bad_target, save_error, Round, continues,
  ends, is_completed, touched, persist_chat_session, persist_and_return, persist_and_fail, advance,
  switch_flow, after_node, visit, run_loop, prepare, run_chat_graph, parse_chat_graph, ParsedGraph,
  absent, refused, parsed, execute_chat_node, skips, has_switched, completed_run, at_step,
  max_chat_graph_iterations,
}
use trt_whats.ChatGraph.Kept.{execute_chat_node-Kept}

-- A completed session has the time of its completion.
abbrev pub IsStamped : Session → Type 0
IsStamped s = is_completed s.status ≡ true → s.completed_at ≢ none

-- The session is saved once more, as it is now.
abbrev pub SavedNow : List Session → Run → Type 0
SavedNow before r = (r.saved ≡ before ++ r.session ∷ []) × IsStamped r.session

-- What a run has saved, by its ending.
abbrev pub Saved : List Session → Run → Ending → Type 0
Saved before r bad_graph = r.saved ≡ before
Saved before r (node_not_found id) = r.saved ≡ before
Saved before r crashed = r.saved ≡ before
Saved before r _ = SavedNow before r

abbrev RoundSaved : List Session → Round → Type 0
RoundSaved before (continues flow g r) = r.saved ≡ before
RoundSaved before (ends result) = Saved before result.0 result.1

touched-IsStamped : (now : ℕ) (s : Session) → IsStamped (touched now s)
touched-IsStamped now s h = ground arith

persisted : (env : Env) (r : Run) → SavedNow r.saved (persist_chat_session env r).0
unfolding persist_chat_session
persisted env r = (refl, touched-IsStamped env.now r.session)

Saved-ending :
    (before : List Session) (r : Run) (error : Option Text)
    → SavedNow before r
    → Saved before r (elim error [ none ↦ finished | some e ↦ save_error e ])
Saved-ending before r none h = h
Saved-ending before r (some e) h = h

persist_and_return-Saved :
    (env : Env) (r : Run) → RoundSaved r.saved (ends (persist_and_return env r))
unfolding persist_and_return
persist_and_return-Saved env r =
    Saved-ending r.saved (persist_chat_session env r).0 (persist_chat_session env r).1
      (persisted env r)

advance-Saved :
    (env : Env) (flow : ChatbotFlow) (g : ChatGraph) (n : ChatNode) (outcome : Text) (r : Run)
    → RoundSaved r.saved (advance env flow g n outcome r)
unfolding advance
advance-Saved env flow g n outcome r = elim (Bool-cases (resolve_edge g n.id outcome == [])) [
  | inl last ↦ rw (advance, last) (persist_and_return-Saved env (completed_run r))
  | inr more ↦ rw (advance, more) refl
]

switch_flow-Saved : (env : Env) (id : ℕ) (r : Run) → RoundSaved r.saved (switch_flow env id r)
unfolding switch_flow persist_and_fail
switch_flow-Saved env id r = elim (Option-cases (env.flows >>= λ fs. flow_by_id id fs)) [
  | inl e ↦ rw (switch_flow, e) (persisted env r)
  | inr (target, e) ↦ rw (switch_flow, e) (into (parse_chat_graph env target.graph) target)
]
  where
    into :
        (p : ParsedGraph) (target : ChatbotFlow)
        → RoundSaved r.saved (elim p [
          | absent ↦
              ends (persist_and_fail env (bad_target (codes "target flow has no v2 graph")) r)
          | refused e ↦ ends (persist_and_fail env (bad_target e) r)
          | parsed g ↦ continues target g (at_step g.entry_node r)
        ])
    into absent target = persisted env r
    into (refused e) target = persisted env r
    into (parsed g) target = refl

after_node-Saved :
    (env : Env) (flow : ChatbotFlow) (g : ChatGraph) (n : ChatNode) (r : Run) (reply : Reply)
    → RoundSaved r.saved (after_node env flow g n (r, reply))
unfolding after_node append_chat_path
after_node-Saved env flow g n r stops = refl
after_node-Saved env flow g n r (fails e) = persisted env r
after_node-Saved env flow g n r yields = persist_and_return-Saved env (append_chat_path n [] r)
after_node-Saved env flow g n r (goes outcome) = elim (Option-cases (has_switched flow r)) [
  | inl e ↦ rw (after_node, e) (advance-Saved env flow g n outcome (append_chat_path n outcome r))
  | inr (id, e) ↦ rw (after_node, e) (switch_flow-Saved env id (append_chat_path n outcome r))
]

visit-Saved :
    (env : Env) (flow : ChatbotFlow) (g : ChatGraph) (r : Run)
    → RoundSaved r.saved (visit env flow g r)
unfolding visit append_chat_path
visit-Saved env flow g r = elim (Option-cases (node g r.session.current_step)) [
  | inl e ↦ rw (visit, e) refl
  | inr (n, e) ↦ elim (Bool-cases (skips env n r)) [
    | inl skipped ↦
        rw (visit, e, skipped)
          (advance-Saved env flow g n default_outcome (append_chat_path n (codes "skipped") r))
    | inr run ↦
        rw (visit, e, run)
          (subst (λ saved. RoundSaved saved (after_node env flow g n (execute_chat_node env n r)))
            (execute_chat_node-Kept env n r).0
            (after_node-Saved env flow g n (execute_chat_node env n r).0
              (execute_chat_node env n r).1))
  ]
]

run_loop-Saved :
    (env : Env) (left : ℕ) (flow : ChatbotFlow) (g : ChatGraph) (r : Run)
    → Saved r.saved (run_loop env left flow g r).0 (run_loop env left flow g r).1
unfolding run_loop persist_and_fail
run_loop-Saved env zero flow g r = persisted env r
run_loop-Saved env (suc left) flow g r =
    go (λ f g1 r1. run_loop-Saved env left f g1 r1) (visit env flow g r) (visit-Saved env flow g r)
  where
    go :
        ((f : ChatbotFlow) (g1 : ChatGraph) (r1 : Run)
          → Saved r1.saved (run_loop env left f g1 r1).0 (run_loop env left f g1 r1).1)
        → (round : Round) → RoundSaved r.saved round
        → let result : Run × Ending = elim round [
          | ends res ↦ res
          | continues flow1 g1 r1 ↦ run_loop env left flow1 g1 r1
        ] in
          Saved r.saved result.0 result.1
    go later (ends res) h = h
    go later (continues flow1 g1 r1) h =
        subst
          (λ saved. Saved saved (run_loop env left flow1 g1 r1).0 (run_loop env left flow1 g1 r1).1)
          h (later flow1 g1 r1)

prepare-Kept :
    (contact : Option Text) (g : ChatGraph) (r : Run) → (prepare contact g r).saved ≡ r.saved
unfolding prepare
prepare-Kept none g r = ground arith
prepare-Kept (some name) g r = ground arith

-- A run saves the session once, as the run leaves it, and with the time of its completion if it is
-- completed; but where it is given no usable graph, finds no node, or is broken off by a template,
-- it saves nothing.
pub run_chat_graph-Saved :
    (env : Env) (contact : Option Text) (flow : ChatbotFlow) (r : Run)
    → let result = run_chat_graph env contact flow r in Saved r.saved result.0 result.1
unfolding run_chat_graph prepare
run_chat_graph-Saved env contact flow r = go (parse_chat_graph env flow.graph)
  where
    go :
        (p : ParsedGraph)
        → let result : Run × Ending = elim p [
          | absent ↦ (r, bad_graph)
          | refused e ↦ (r, bad_graph)
          | parsed g ↦ run_loop env max_chat_graph_iterations flow g (prepare contact g r)
        ] in
          Saved r.saved result.0 result.1
    go absent = refl
    go (refused e) = refl
    go (parsed g) =
        subst
          (λ saved.
            Saved saved (run_loop env max_chat_graph_iterations flow g (prepare contact g r)).0
              (run_loop env max_chat_graph_iterations flow g (prepare contact g r)).1)
          (prepare-Kept contact g r)
          (run_loop-Saved env max_chat_graph_iterations flow g (prepare contact g r))

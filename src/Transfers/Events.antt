-- ===== src/Transfers/Events.antt =====
-- internal/handlers/agent_transfers.go, contacts.go and sla_processor.go: requests, chatbot and timer in any
-- order.
use trt_whats.Common.{ℕ, Bool, List, [], ◌∷◌, Option, Text, select}
use trt_whats.Transfers.{TransferSource, Contact, Settings, World, Env}
use trt_whats.Transfers.Create.{
  create_transfer_to_queue, create_transfer_from_keyword, create_transfer_to_team,
  ensure_agent_takeover_transfer,
}
use trt_whats.Transfers.Handlers.{
  is_agents, CreateRequest, create_agent_transfer, resume_from_transfer,
  return_agent_transfers_to_queue,
}
use trt_whats.Transfers.Queue.{assign_agent_transfer, pick_next_transfer}
use trt_whats.Transfers.Sla.{process_organization_sla}
use trt_whats.Transfers.Single.{IsSingle}
use trt_whats.Transfers.Changes.{
  return_loop-IsSingle, process_organization_sla-IsSingle, resume-IsSingle, assign-IsSingle,
  pick-IsSingle,
}
use trt_whats.Transfers.Creations.{
  create-IsSingle, to_queue-IsSingle, from_keyword-IsSingle, to_team-IsSingle, takeover-IsSingle,
}

pub data Event : Type 0 where
  to_queue : Text → TransferSource → Contact → Event
  from_keyword : Text → Contact → Event
  to_team : Text → ℕ → Text → TransferSource → Contact → Event
  create : ℕ → ℕ → CreateRequest → Event
  resumption : ℕ → ℕ → ℕ → Event
  assign : Bool → ℕ → ℕ → ℕ → Option Text → Option Text → Event
  pick : Bool → Bool → ℕ → ℕ → Text → Event
  agent_leaves : ℕ → ℕ → Event
  agent_sends : ℕ → Contact → Text → ℕ → Event
  tick : Settings → ℕ → Event

unfoldable pub step : Env → Event → World → World
step env (to_queue account source c) w = create_transfer_to_queue env account source c w
step env (from_keyword account c) w = create_transfer_from_keyword env account c w
step env (to_team account team notes source c) w =
    create_transfer_to_team env account team notes source c w
step env (create org user req) w = (create_agent_transfer env org user req w).0
step env (resumption org user id) w = (resume_from_transfer env org user id w).0
step env (assign may org user id agent team) w =
    (assign_agent_transfer env may org user id agent team w).0
step env (pick full may org user wanted) w = (pick_next_transfer env full may org user wanted w).0
step env (agent_leaves user org) w = return_agent_transfers_to_queue env user org w
step env (agent_sends org c account agent) w =
    ensure_agent_takeover_transfer env org c account agent w
step env (tick s org) w = process_organization_sla env s org w

unfoldable pub run : List (Env × Event) → World → World
unfolding step
run [] w = w
run ((env, e) ∷ es) w = run es (step env e w)

step-IsSingle :
    (env : Env) (e : Event) (w : World) → IsSingle w.transfers → IsSingle (step env e w).transfers
unfolding step return_agent_transfers_to_queue
step-IsSingle env (to_queue account source c) w h = to_queue-IsSingle env account source c w h
step-IsSingle env (from_keyword account c) w h = from_keyword-IsSingle env account c w h
step-IsSingle env (to_team account team notes source c) w h =
    to_team-IsSingle env account team notes source c w h
step-IsSingle env (create org user req) w h = create-IsSingle env org user req w h
step-IsSingle env (resumption org user id) w h = resume-IsSingle env org user id w h
step-IsSingle env (assign may org user id agent team) w h =
    assign-IsSingle env may org user id agent team w h
step-IsSingle env (pick full may org user wanted) w h =
    pick-IsSingle env full may org user wanted w h
step-IsSingle env (agent_leaves user org) w h =
    return_loop-IsSingle env w.contacts (select (is_agents user org) w.transfers) w h
step-IsSingle env (agent_sends org c account agent) w h =
    takeover-IsSingle env org c account agent w h
step-IsSingle env (tick s org) w h = process_organization_sla-IsSingle env s org w h

-- Whatever transfers the chatbot creates, agents ask for, resume, assign, pick, return by leaving or
-- open by sending a message, and whatever the SLA timer does, one after the other, and whether or
-- not the database takes their writes, no contact comes to hold two active transfers.
pub run-IsSingle :
    (es : List (Env × Event)) (w : World) → IsSingle w.transfers → IsSingle (run es w).transfers
unfolding run
run-IsSingle [] w h = h
run-IsSingle ((env, e) ∷ es) w h = run-IsSingle es (step env e w) (step-IsSingle env e w h)

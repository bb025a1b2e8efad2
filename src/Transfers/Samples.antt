-- ===== src/Transfers/Samples.antt =====
-- internal/handlers/agent_transfers.go: an organization with a queue, and the theorems at it.
use trt_whats.Common.{
  Option, ℕ, true, false, List, [], ◌∷◌, none, some, Text, codes, ◌≡◌, refl, pos, text_eq, Bool,
  ◌&&◌,
}
use trt_whats.Json.{FloatOps}
use trt_whats.Transfers.{
  AgentTransfer, Contact, TransferStatus, TransferSource, World, Env, has_active,
}
use trt_whats.Transfers.Create.{no_tracking}
use trt_whats.Transfers.Queue.{teams_of}
use trt_whats.Transfers.Single.{IsSingle}
use trt_whats.Transfers.Events.{Event, run, run-IsSingle}
use trt_whats.Transfers.Rights.{Assigned, assign_agent_transfer-Assigned}
use trt_whats.Transfers.Picks.{asks_for, waits}
use trt_whats.Transfers.Handlers.{find_transfer}
use trt_whats.Transfers.Queue.{assign_agent_transfer}

abbrev floats : FloatOps
floats = record {
  to_int = λ n. pos n;
  of_int = λ z. 0;
  is_zero = λ n. false;
  beq = λ a b. true;
  lt = λ a b. false;
  parse = λ t. none;
  format = λ n. [];
}

abbrev env : Env
env = record {
  now = 1000;
  fresh = 77;
  weekday = 1;
  clock = codes "10:00";
  float = floats;
  settings = λ org account. none;
  parse_id = λ t. none;
  org_of_user = λ u. none;
  org_of_team = λ t. none;
  write_fails = false;
}

abbrev client : ℕ → Contact
client id = record {
  id = id;
  org = 1;
  phone_number = [];
  assigned_user_id = none;
  chatbot_last_message_at = none;
  chatbot_reminder_sent = false;
}

-- Of contact 5, in the queue of team 9.
abbrev waiting : AgentTransfer
waiting = record {
  id = 3;
  org = 1;
  contact_id = 5;
  account = [];
  phone_number = [];
  status = TransferStatus.active;
  source = TransferSource.manual;
  agent_id = none;
  team_id = some 9;
  transferred_by = none;
  notes = [];
  transferred_at = 400;
  resumed_at = none;
  resumed_by = none;
  sla = no_tracking;
}

abbrev world : World
world = record {
  transfers = waiting ∷ [];
  contacts = client 5 ∷ client 6 ∷ [];
  sessions = [];
  messages = [];
  store = record { teams = []; members = []; users = []; cache = [] };
  notices = [];
  sent = [];
}

abbrev events : List (Env × Event)
events =
    (env, Event.to_queue [] TransferSource.flow (client 5))
    ∷ (env, Event.to_queue [] TransferSource.flow (client 6))
    ∷ (env, Event.pick true true 1 8 [])
    ∷ (env, Event.agent_leaves 8 1)
    ∷ (env, Event.agent_sends 1 (client 6) [] 8)
    ∷ []

run-IsSingle_example : IsSingle (run events world).transfers
unfolding has_active
run-IsSingle_example = run-IsSingle events world ((λ on. refl), tt)

-- User 8 is in no team, and names a team that is no id.
abbrev asked : AgentTransfer → Bool
asked u = waits 1 u && asks_for env (teams_of 8 world.store.members) (codes "x") u.team_id

-- The transfer goes to the queue.
abbrev to_nobody : Option Text
to_nobody = some []

abbrev same_team : Option Text
same_team = none

assign_agent_transfer-Assigned_example :
    (t : AgentTransfer) × (find_transfer 1 3 world.transfers ≡ some t)
    × Assigned to_nobody 8 t world
        (assign_agent_transfer env false 1 8 3 to_nobody same_team world).0
unfolding assign_agent_transfer text_eq
assign_agent_transfer-Assigned_example =
    assign_agent_transfer-Assigned env 1 8 3 to_nobody same_team world refl

-- ===== src/Transfers/Handlers.antt =====
-- internal/handlers/agent_transfers.go: the requests of agents. A request comes from a user of an
-- organization; HasPermission's answers are parameters.
use trt_whats.Common.{
  ℕ, Bool, true, false, not, ◌&&◌, List, [], ◌∷◌, Option, none, some, if◌then◌else◌, nat_eq, Text,
  codes, ◌==◌, text_eq_on, lookup, nat_eq_on, select,
}
use trt_whats.Transfers.{
  TransferStatus, TransferSource, AgentTransfer, Contact, Settings, World, Env, resumed_notice,
  assigned, has_active, update_transfer, update_contact, with_manager, notify, assign_team,
  find_user, is_active,
}
use trt_whats.Transfers.Create.{save_and_finalize_transfer, new_transfer, same_agent}

pub data Reply : Type 0 where
  ok : Reply
  bad_request : Text → Reply
  forbidden : Text → Reply
  not_found : Reply
  conflict : Reply
  server_error : Reply
  nothing_queued : Reply

abbrev pub find_transfer : ℕ → ℕ → List AgentTransfer → Option AgentTransfer
find_transfer org id [] = none
find_transfer org id (t ∷ ts) =
    let rest = find_transfer org id ts in
    if nat_eq t.id id && nat_eq t.org org then some t else rest

abbrev pub contact_by_org : ℕ → ℕ → List Contact → Option Contact
contact_by_org org id [] = none
contact_by_org org id (c ∷ cs) =
    let rest = contact_by_org org id cs in
    if nat_eq c.id id && nat_eq c.org org then some c else rest

-- An id of a request: absent, not one, or an id.
pub data Given : Type 0 where
  absent malformed : Given
  given : ℕ → Given

-- A nil or empty text is absent.
abbrev pub read_id : Env → Option Text → Given
read_id env none = absent
read_id env (some t) =
    let parsed : Given = elim (env.parse_id t) [ none ↦ malformed | some id ↦ given id ] in
    if t == [] then absent else parsed

abbrev pub belongs : ℕ → Option ℕ → Bool
belongs org none = false
belongs org (some o) = nat_eq o org

abbrev pub is_active_team : ℕ → World → Bool
is_active_team id w = elim (lookup id w.store.teams) [ none ↦ false | some t ↦ t.is_active ]

-- The agent that a request names, if the user exists and is available.
unfoldable pub named_agent : Env → ℕ → ℕ → World → Reply
named_agent env org id w =
    if not (belongs org (env.org_of_user id))
    then not_found
    else elim (find_user id w.store.users) [
      | none ↦ not_found
      | some u ↦ if u.is_available then ok else bad_request (codes "Agent is currently away")
    ]

pub record CreateRequest : Type 0 where
  pub contact_id : Text
  pub account : Text
  pub team_id : Option Text
  pub agent_id : Option Text
  pub notes : Text
  pub source : Option TransferSource

abbrev pub or_manual : Option TransferSource → TransferSource
or_manual none = TransferSource.manual
or_manual (some s) = s

-- The transfer of a request is created, with its agent and team.
unfoldable pub create_for :
    Env
    → ℕ
    → CreateRequest
    → Contact
    → Option Settings
    → Option ℕ
    → Option ℕ
    → World
    → World × Reply
unfolding save_and_finalize_transfer
create_for env user req c settings agent team w = (
  save_and_finalize_transfer env settings true c
      (new_transfer env c req.account (or_manual req.source) agent team (some user) req.notes) w,
  if env.write_fails then server_error else ok,
)

-- The agent: the one that is named, the team's, or the contact's own.
unfoldable pub choose_agent :
    Env
    → ℕ
    → CreateRequest
    → Contact
    → Option Settings
    → Option ℕ
    → World
    → Option ℕ × World × Reply
unfolding named_agent assign_team same_agent
choose_agent env org req c settings team w = elim (read_id env req.agent_id) [
  | malformed ↦ (none, w, bad_request (codes "Invalid agent_id"))
  | given id ↦ (some id, w, named_agent env org id w)
  | absent ↦ elim team [
    | some t ↦ let r = assign_team env org t w in (r.0, r.1, ok)
    | none ↦ (same_agent settings c w, w, ok)
  ]
]

abbrev pub then_create :
    Env
    → ℕ
    → CreateRequest
    → Contact
    → Option Settings
    → Option ℕ
    → Option ℕ × World × Reply
    → World × Reply
then_create env user req c settings team (agent, w, ok) =
    create_for env user req c settings agent team w
then_create env user req c settings team (agent, w, r) = (w, r)

unfoldable pub create_for_contact : Env → ℕ → ℕ → CreateRequest → Contact → World → World × Reply
unfolding create_for choose_agent
create_for_contact env org user req c w =
    let settings = env.settings org req.account in
    let with_team : Option ℕ → World × Reply = λ team.
      then_create env user req c settings team (choose_agent env org req c settings team w) in
    if has_active org c.id w.transfers then (w, conflict) else elim (read_id env req.team_id) [
      | absent ↦ with_team none
      | malformed ↦ (w, bad_request (codes "Invalid team_id"))
      | given id ↦
          if belongs org (env.org_of_team id) && is_active_team id w
          then with_team (some id)
          else (w, bad_request (codes "Team not found or inactive"))
    ]

unfoldable pub create_agent_transfer : Env → ℕ → ℕ → CreateRequest → World → World × Reply
unfolding create_for_contact
create_agent_transfer env org user req w = elim (read_id env (some req.contact_id)) [
  | absent ↦ (w, bad_request (codes "contact_id is required"))
  | malformed ↦ (w, bad_request (codes "Invalid contact_id"))
  | given id ↦ elim (contact_by_org org id w.contacts) [
    | none ↦ (w, not_found)
    | some c ↦ create_for_contact env org user req c w
  ]
]

abbrev pub resume : ℕ → ℕ → AgentTransfer → AgentTransfer
resume now user t = record t {
  status = TransferStatus.resumed;
  resumed_at = some now;
  resumed_by = some user;
}

-- ClearContactChatbotTracking
abbrev pub untracked : Contact → Contact
untracked c = record c { chatbot_last_message_at = none; chatbot_reminder_sent = false }

unfoldable pub resume_from_transfer : Env → ℕ → ℕ → ℕ → World → World × Reply
resume_from_transfer env org user id w = elim (find_transfer org id w.transfers) [
  | none ↦ (w, not_found)
  | some t ↦
      if not (is_active t.status)
      then (w, bad_request (codes "Transfer is not active"))
      else if env.write_fails
      then (w, server_error)
      else (
        notify (resumed_notice t.id) (
            update_contact t.contact_id untracked
              (record w { transfers = update_transfer t.id (resume env.now user) w.transfers })),
        ok,
      )
]

abbrev pub same_user : Option ℕ → Option ℕ → Bool
same_user none b = false
same_user (some a) none = false
same_user (some a) (some b) = nat_eq a b

-- A manager that was the agent removed from the contact's transfer goes with the agent.
unfoldable pub unpin_manager : Option ℕ → Contact → World → World
unpin_manager previous c w =
    if same_user previous c.assigned_user_id then update_contact c.id (with_manager none) w else w

-- ReturnAgentTransfersToQueue: the loop over the rows found at its beginning.
abbrev pub unassigned : AgentTransfer → AgentTransfer
unassigned t = record t { agent_id = none }

abbrev pub contact_of : ℕ → List Contact → Option Contact
contact_of id [] = none
contact_of id (c ∷ cs) = let rest = contact_of id cs in if nat_eq c.id id then some c else rest

-- A round of the loop; the contact is the one preloaded with the row.
unfoldable pub return_one : Env → List Contact → AgentTransfer → World → World
unfolding unpin_manager
return_one env loaded t w =
    let freed = record w { transfers = update_transfer t.id unassigned w.transfers } in
    let unpinned : World = elim (contact_of t.contact_id loaded) [
      | none ↦ freed
      | some c ↦ unpin_manager t.agent_id c freed
    ] in
    if env.write_fails then w else notify (assigned t.id) unpinned

unfoldable pub return_loop : Env → List Contact → List AgentTransfer → World → World
unfolding return_one
return_loop env loaded [] w = w
return_loop env loaded (t ∷ ts) w = return_loop env loaded ts (return_one env loaded t w)

abbrev pub is_agents : ℕ → ℕ → AgentTransfer → Bool
is_agents user org t = same_user (some user) t.agent_id && nat_eq t.org org && is_active t.status

unfoldable pub return_agent_transfers_to_queue : Env → ℕ → ℕ → World → World
unfolding return_loop
return_agent_transfers_to_queue env user org w =
    return_loop env w.contacts (select (is_agents user org) w.transfers) w

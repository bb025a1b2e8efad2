-- ===== src/Transfers/Create.antt =====
-- internal/handlers: agent_transfers.go, the transfers that the chatbot creates, and the deadlines
-- of sla_processor.go.
use trt_whats.Common.{
  ℕ, ◌+◌, ◌*◌, Bool, true, false, not, ◌&&◌, [], ◌∷◌, ◌++◌, map, Option, none, some, if◌then◌else◌,
  nat_eq, ltb, length, Text, ◌==◌, text_eq_on,
}
use trt_whats.Transfers.{
  TransferStatus, TransferSource, SlaTracking, AgentTransfer, Contact, ChatbotSession, Settings,
  World, Env, created, has_active, update_contact, with_manager, notify, assign_team,
  is_agent_available,
}
use trt_whats.ChatGraph.{SessionStatus}
use trt_whats.Transfers.Hours.{is_within_business_hours}

abbrev pub deadline : ℕ → ℕ → ℕ → Option ℕ → Option ℕ
deadline now unit amount old = if ltb 0 amount then some (now + amount * unit) else old

-- SetSLADeadlines
unfoldable pub set_sla_deadlines : ℕ → Settings → SlaTracking → SlaTracking
set_sla_deadlines now s sla = if not s.sla_enabled then sla else record sla {
  response_deadline = deadline now 60 s.response_minutes sla.response_deadline;
  resolution_deadline = deadline now 60 s.resolution_minutes sla.resolution_deadline;
  escalation_at = deadline now 60 s.escalation_minutes sla.escalation_at;
  expires_at = deadline now 3600 s.auto_close_hours sla.expires_at;
}

abbrev pub is_past : ℕ → Option ℕ → Bool
is_past now none = false
is_past now (some t) = ltb t now

-- UpdateSLAOnPickup
unfoldable pub update_sla_on_pickup : ℕ → SlaTracking → SlaTracking
update_sla_on_pickup now sla =
    let late = is_past now sla.response_deadline in
    record sla {
      picked_up_at = some now;
      breached = if late then true else sla.breached;
      breached_at = if late then some now else sla.breached_at;
    }

abbrev pub no_tracking : SlaTracking
no_tracking = record {
  response_deadline = none;
  resolution_deadline = none;
  escalation_at = none;
  expires_at = none;
  picked_up_at = none;
  first_response_at = none;
  escalation_level = 0;
  escalated_at = none;
  breached = false;
  breached_at = none;
}

abbrev pub new_transfer :
    Env → Contact → Text → TransferSource → Option ℕ → Option ℕ → Option ℕ → Text → AgentTransfer
new_transfer env c account source agent team by notes = record {
  id = env.fresh;
  org = c.org;
  contact_id = c.id;
  account = account;
  phone_number = c.phone_number;
  status = TransferStatus.active;
  source = source;
  agent_id = agent;
  team_id = team;
  transferred_by = by;
  notes = notes;
  transferred_at = env.now;
  resumed_at = none;
  resumed_by = none;
  sla = no_tracking;
}

-- The deadlines, and the pickup of a transfer that has an agent already.
unfoldable pub tracked : Env → Option Settings → AgentTransfer → AgentTransfer
unfolding set_sla_deadlines update_sla_on_pickup
tracked env settings t =
    let sla : SlaTracking = elim settings [
      | none ↦ t.sla
      | some s ↦ set_sla_deadlines env.now s t.sla
    ] in
    record t { sla = elim t.agent_id [ none ↦ sla | some a ↦ update_sla_on_pickup env.now sla ] }

abbrev pub keeps_agent : Option Settings → Bool
keeps_agent none = false
keeps_agent (some s) = s.assign_to_same_agent

-- The contact's manager, if there is none and the organization keeps agents.
unfoldable pub pin_manager : Option Settings → Option ℕ → Contact → World → World
pin_manager settings none c w = w
pin_manager settings (some agent) c w = elim c.assigned_user_id [
  | some m ↦ w
  | none ↦ if keeps_agent settings then update_contact c.id (with_manager (some agent)) w else w
]

abbrev pub is_running : SessionStatus → Bool
is_running SessionStatus.active = true
is_running _ = false

abbrev pub cancelled : ℕ → ℕ → ℕ → ChatbotSession → ChatbotSession
cancelled now org contact s =
    if nat_eq s.org org && nat_eq s.contact_id contact && is_running s.status
    then record s { status = SessionStatus.cancelled; completed_at = some now }
    else s

abbrev pub end_sessions : ℕ → ℕ → ℕ → World → World
end_sessions now org contact w = record w { sessions = map (cancelled now org contact) w.sessions }

unfoldable pub save_and_finalize_transfer :
    Env → Option Settings → Bool → Contact → AgentTransfer → World → World
unfolding tracked pin_manager
save_and_finalize_transfer env settings ends_session c t w =
    if env.write_fails
    then w
    else let w1 =
        pin_manager settings t.agent_id c
          (record w { transfers = tracked env settings t ∷ w.transfers }) in
      notify (created t.id) (if ends_session then end_sessions env.now c.org c.id w1 else w1)

-- Outside of its business hours an organization does not hand over.
unfoldable pub is_closed : Env → Option Settings → Bool
unfolding is_within_business_hours
is_closed env none = false
is_closed env (some s) =
    s.hours_enabled
    && ltb 0 (length s.hours)
    && not (is_within_business_hours env.float env.weekday env.clock s.hours)

abbrev pub closed_message : Option Settings → Text
closed_message none = []
closed_message (some s) = s.out_of_hours_message

-- The checks that the three transfers begin with.
unfoldable pub unless_held : Env → Option Settings → Contact → (World → World) → World → World
unfolding is_closed
unless_held env settings c go w =
    let told = record w { sent = w.sent ++ (c.id, closed_message settings) ∷ [] } in
    if has_active c.org c.id w.transfers
    then w
    else if is_closed env settings
    then (if closed_message settings == [] then w else told)
    else go w

unfoldable pub create_transfer_to_queue : Env → Text → TransferSource → Contact → World → World
unfolding unless_held save_and_finalize_transfer
create_transfer_to_queue env account source c w =
    let settings = env.settings c.org account in
    unless_held env settings c
      (save_and_finalize_transfer env settings false c
        (new_transfer env c account source none none none []))
      w

-- The contact's manager, if the organization keeps agents and the manager is available.
unfoldable pub same_agent : Option Settings → Contact → World → Option ℕ
same_agent settings c w = elim c.assigned_user_id [
  | none ↦ none
  | some m ↦ if keeps_agent settings && is_agent_available m w then some m else none
]

unfoldable pub create_transfer_from_keyword : Env → Text → Contact → World → World
unfolding unless_held save_and_finalize_transfer same_agent
create_transfer_from_keyword env account c w =
    let settings = env.settings c.org account in
    unless_held env settings c
      (save_and_finalize_transfer env settings true c
        (new_transfer env c account TransferSource.keyword (same_agent settings c w) none none []))
      w

unfoldable pub create_transfer_to_team :
    Env → Text → ℕ → Text → TransferSource → Contact → World → World
unfolding unless_held save_and_finalize_transfer assign_team
create_transfer_to_team env account team notes source c w =
    let settings = env.settings c.org account in
    unless_held env settings c
      (λ w0.
        let (agent, w1) = assign_team env c.org team w0 in
        save_and_finalize_transfer env settings true c
          (new_transfer env c account source agent (some team) none notes) w1)
      w

-- internal/handlers/contacts.go, ensureAgentTakeoverTransfer: what an agent's message does.
unfoldable pub ensure_agent_takeover_transfer : Env → ℕ → Contact → Text → ℕ → World → World
ensure_agent_takeover_transfer env org c account agent w =
    let t = new_transfer env c account TransferSource.manual (some agent) none none [] in
    if has_active org c.id w.transfers
    then w
    else if env.write_fails
    then w
    else record w { transfers = record t { org = org } ∷ w.transfers }

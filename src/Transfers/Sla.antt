-- ===== src/Transfers/Sla.antt =====
-- internal/handlers/sla_processor.go: a pass over the transfers of an organization.
use trt_whats.Common.{
  ℕ, suc, ◌+◌, ◌-◌, ◌*◌, Bool, true, false, not, ◌&&◌, List, [], ◌∷◌, ◌++◌, map, Option, none, some,
  if◌then◌else◌, nat_eq, ltb, Text, codes, ◌==◌, text_eq_on, any, select,
}
use trt_whats.Transfers.{
  TransferStatus, SlaTracking, AgentTransfer, Settings, Message, World, Env, expired_notice,
  escalated, update_transfer, notify, is_active,
}
use trt_whats.Transfers.Create.{is_past}
use trt_whats.Transfers.Handlers.{same_user}

-- agentRespondedSince
unfoldable pub agent_responded_since : ℕ → AgentTransfer → List Message → Bool
agent_responded_since since t messages = elim t.agent_id [
  | none ↦ false
  | some a ↦
      any
        (λ (m : Message).
          nat_eq m.contact_id t.contact_id
          && same_user (some a) m.sent_by
          && not m.is_incoming
          && ltb since m.created_at)
        messages
]

abbrev pub later : ℕ → ℕ → ℕ
later a b = if ltb a b then b else a

abbrev pub last_incoming : ℕ → List Message → ℕ
last_incoming contact [] = 0
last_incoming contact (m ∷ ms) =
    let rest = last_incoming contact ms in
    if nat_eq m.contact_id contact && m.is_incoming then later rest m.created_at else rest

-- customerLastSpokeAt
unfoldable pub customer_last_spoke_at : AgentTransfer → List Message → ℕ
customer_last_spoke_at t messages = later (last_incoming t.contact_id messages) t.transferred_at

-- UpdateSLAOnFirstResponse
abbrev pub responded : ℕ → SlaTracking → SlaTracking
responded now sla = record sla {
  first_response_at = elim sla.first_response_at [ none ↦ some now | some t ↦ some t ];
}

abbrev pub say : ℕ → Text → World → World
say contact t w = if t == [] then w else record w { sent = w.sent ++ (contact, t) ∷ [] }

abbrev pub write : ℕ → (AgentTransfer → AgentTransfer) → World → World
write id f w = record w { transfers = update_transfer id f w.transfers }

abbrev pub expiry_moved : ℕ → ℕ → AgentTransfer → AgentTransfer
expiry_moved now hours t = record t {
  sla = record (responded now t.sla) { expires_at = some (now + hours * 3600) };
}

abbrev pub auto_closed : ℕ → AgentTransfer → AgentTransfer
auto_closed now t = record t {
  status = TransferStatus.expired;
  resumed_at = some now;
  notes = t.notes ++ codes "\n[Auto-closed: No agent response within SLA]";
}

-- The row that autoCloseExpiredTransfers selects.
abbrev pub is_expired : ℕ → ℕ → AgentTransfer → Bool
is_expired now org t = nat_eq t.org org && is_active t.status && is_past now t.sla.expires_at

abbrev pub deadline_of : Option ℕ → ℕ
deadline_of none = 0
deadline_of (some d) = d

-- A round of the loop of autoCloseExpiredTransfers.
unfoldable pub auto_close : Env → Settings → AgentTransfer → World → World
unfolding agent_responded_since
auto_close env s t w =
    let since = deadline_of t.sla.expires_at - s.auto_close_hours * 3600 in
    let told = say t.contact_id s.auto_close_message w in
    if agent_responded_since since t w.messages
    then (if env.write_fails then w else write t.id (expiry_moved env.now s.auto_close_hours) w)
    else if env.write_fails
    then told
    else notify (expired_notice t.id) (write t.id (auto_closed env.now) told)

-- The loop, over the rows selected at its beginning.
unfoldable pub auto_close_loop : Env → Settings → List AgentTransfer → World → World
unfolding auto_close
auto_close_loop env s [] w = w
auto_close_loop env s (t ∷ ts) w = auto_close_loop env s ts (auto_close env s t w)

abbrev pub is_due : ℕ → ℕ → AgentTransfer → Bool
is_due now org t =
    nat_eq t.org org
    && is_active t.status
    && is_past now t.sla.escalation_at
    && ltb t.sla.escalation_level 2

abbrev pub escalation_moved : ℕ → ℕ → AgentTransfer → AgentTransfer
escalation_moved now minutes t = record t {
  sla = record (responded now t.sla) { escalation_at = some (now + minutes * 60) };
}

abbrev pub raised : ℕ → AgentTransfer → AgentTransfer
raised now t =
    let newly = not t.sla.breached && is_past now t.sla.response_deadline in
    record t {
      sla = record t.sla {
        escalation_level = suc t.sla.escalation_level;
        escalated_at = some now;
        breached = if newly then true else t.sla.breached;
        breached_at = if newly then some now else t.sla.breached_at;
      };
    }

-- A round of the loop of escalateTransfers. notifyEscalation only broadcasts.
unfoldable pub escalate : Env → Settings → AgentTransfer → World → World
unfolding agent_responded_since customer_last_spoke_at
escalate env s t w =
    let told = notify (escalated t.id) (write t.id (raised env.now) w) in
    if env.write_fails
    then w
    else if agent_responded_since (customer_last_spoke_at t w.messages) t w.messages
    then write t.id (escalation_moved env.now s.escalation_minutes) w
    else if nat_eq t.sla.escalation_level 0
    then say t.contact_id s.warning_message told
    else told

unfoldable pub escalate_loop : Env → Settings → List AgentTransfer → World → World
unfolding escalate
escalate_loop env s [] w = w
escalate_loop env s (t ∷ ts) w = escalate_loop env s ts (escalate env s t w)

abbrev pub is_unassigned : AgentTransfer → Bool
is_unassigned t = elim t.agent_id [ none ↦ true | some a ↦ false ]

-- The row that markSLABreached updates.
abbrev pub is_late : ℕ → ℕ → AgentTransfer → Bool
is_late now org t =
    nat_eq t.org org
    && is_active t.status
    && not t.sla.breached
    && is_past now t.sla.response_deadline
    && is_unassigned t

abbrev pub breach : ℕ → ℕ → AgentTransfer → AgentTransfer
breach now org t =
    if is_late now org t
    then record t { sla = record t.sla { breached = true; breached_at = some now } }
    else t

unfoldable pub mark_sla_breached : Env → ℕ → World → World
mark_sla_breached env org w =
    if env.write_fails then w else record w { transfers = map (breach env.now org) w.transfers }

-- processOrganizationSLA: its passes over the transfers.
unfoldable pub process_organization_sla : Env → Settings → ℕ → World → World
unfolding auto_close_loop escalate_loop mark_sla_breached
process_organization_sla env s org w =
    let w1 =
      if ltb 0 s.auto_close_hours
      then auto_close_loop env s (select (is_expired env.now org) w.transfers) w
      else w in
    let w2 =
      if ltb 0 s.escalation_minutes
      then escalate_loop env s (select (is_due env.now org) w1.transfers) w1
      else w1 in
    if ltb 0 s.response_minutes then mark_sla_breached env org w2 else w2

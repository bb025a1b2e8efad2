-- ===== src/Transfers/Picks.antt =====
-- internal/handlers/agent_transfers.go: which transfer a pick takes.
use trt_whats.Common.{
  ℕ, ◌≤◌, Bool, true, false, List, [], Option, none, some, Text, codes, ◌==◌, text_eq_on, contains,
  nat_eq_on, select, ◌≡◌, All, not, ◌&&◌, ◌||◌, nat_eq, if◌then◌else◌,
}
use trt_whats.Transfers.{AgentTransfer, World, Env, is_active}
use trt_whats.Transfers.Queue.{Scope, is_queued, has_agent}

-- Which queues a request without full access is for, from the queue's side. The general queue is
-- none. Without a team in the request, the general queue and those of the user's teams; with
-- "general", the general queue; with the id of a team, its queue, if the user is a member; and with
-- another text, any queue.
abbrev pub asks_for : Env → List ℕ → Text → Option ℕ → Bool
asks_for env teams wanted none =
    let names_team : Bool = elim (env.parse_id wanted) [ none ↦ false | some id ↦ true ] in
    wanted == [] || wanted == codes "general" || not names_team
asks_for env teams wanted (some t) =
    let names_other : Bool = elim (env.parse_id wanted) [
      | none ↦ false
      | some id ↦ not (nat_eq t id && contains t teams)
    ] in
    if wanted == [] then contains t teams else not (wanted == codes "general" || names_other)

abbrev pub waits : ℕ → AgentTransfer → Bool
waits org t = nat_eq t.org org && is_active t.status && not (has_agent t)

abbrev pub IsLeast : AgentTransfer → List AgentTransfer → Type 0
IsLeast t ts = All (λ (u : AgentTransfer). t.transferred_at ≤ u.transferred_at) ts

-- What a pick takes: of the transfers in a scope, one that has waited longest.
abbrev pub Takes : ℕ → Scope → World → AgentTransfer → Type 0
Takes org scope w t =
    (is_queued org scope t ≡ true)
    × All (λ (u : AgentTransfer). t.transferred_at ≤ u.transferred_at)
        (select (is_queued org scope) w.transfers)

-- A change of a transfer that gives it to an agent, or to none, and leaves its team and status.
abbrev pub Gives : Option ℕ → (AgentTransfer → AgentTransfer) → AgentTransfer → Type 0
Gives agent f t = ((f t).agent_id ≡ agent) × ((f t).team_id ≡ t.team_id) × ((f t).status ≡ t.status)

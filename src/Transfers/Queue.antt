-- ===== src/Transfers/Queue.antt =====
-- internal/handlers/agent_transfers.go: AssignAgentTransfer and PickNextTransfer.
use trt_whats.Common.{
  ℕ, Bool, true, false, not, ◌&&◌, ◌||◌, List, [], ◌∷◌, map, Option, none, some, if◌then◌else◌,
  nat_eq, ltb, Text, codes, ◌==◌, text_eq_on, contains, nat_eq_on, select,
}
use trt_whats.Assignment.{TeamMember}
use trt_whats.Transfers.{
  AgentTransfer, Contact, Settings, SlaTracking, World, Env, assigned, update_transfer, notify,
  is_active,
}
use trt_whats.Transfers.Create.{pin_manager, update_sla_on_pickup}
use trt_whats.Transfers.Handlers.{
  Reply, ok, bad_request, forbidden, not_found, server_error, nothing_queued, absent, malformed,
  given, read_id, belongs, named_agent, find_transfer, contact_of, unpin_manager,
}

-- The agent that an assignment names: none is the queue. A nil agent_id is the user, unless the
-- user may assign transfers to others.
unfoldable pub target_agent : Env → Bool → ℕ → ℕ → Option Text → World → Option ℕ × Reply
unfolding named_agent
target_agent env may_write org user none w = (if may_write then none else some user, ok)
target_agent env may_write org user (some t) w =
    let named : Option ℕ × Reply = elim (read_id env (some t)) [
      | absent ↦ (none, ok)
      | malformed ↦ (none, bad_request (codes "Invalid agent_id"))
      | given id ↦ (some id, named_agent env org id w)
    ] in
    if not (t == []) && not may_write
    then (none, forbidden (codes "You don't have permission to assign transfers to others"))
    else named

-- The team after the assignment, of a transfer that has one or not.
unfoldable pub target_team : Env → Bool → ℕ → Option Text → Option ℕ → Option ℕ × Reply
target_team env may_write org none old = (old, ok)
target_team env may_write org (some t) old =
    let named : Option ℕ × Reply = elim (read_id env (some t)) [
      | absent ↦ (none, ok)
      | malformed ↦ (old, bad_request (codes "Invalid team_id"))
      | given id ↦
          if belongs org (env.org_of_team id)
          then (some id, ok)
          else (old, bad_request (codes "Team not found"))
    ] in
    if may_write
    then named
    else (old, forbidden (codes "You don't have permission to change team assignment"))

abbrev pub has_pickup : SlaTracking → Bool
has_pickup sla = elim sla.picked_up_at [ none ↦ false | some t ↦ true ]

abbrev pub reassign : ℕ → Option ℕ → Option ℕ → AgentTransfer → AgentTransfer
reassign now agent team t = record t {
  agent_id = agent;
  team_id = team;
  sla = elim agent [
    | none ↦ t.sla
    | some a ↦ if has_pickup t.sla then t.sla else update_sla_on_pickup now t.sla
  ];
}

-- The contact's manager, after the transfer was given to an agent or to the queue.
unfoldable pub move_manager : Option Settings → Option ℕ → Option ℕ → Option Contact → World → World
unfolding pin_manager unpin_manager
move_manager settings previous agent none w = w
move_manager settings previous none (some c) w = unpin_manager previous c w
move_manager settings previous (some a) (some c) w = pin_manager settings (some a) c w

unfoldable pub assign_found :
    Env → ℕ → AgentTransfer → Option ℕ × Reply → Option ℕ × Reply → World → World × Reply
unfolding move_manager
assign_found env org t (agent, ok) (team, ok) w = if env.write_fails then (w, server_error) else (
  notify (assigned t.id) (
      move_manager (env.settings org []) t.agent_id agent (contact_of t.contact_id w.contacts)
        (record w { transfers = update_transfer t.id (reassign env.now agent team) w.transfers })),
  ok,
)
assign_found env org t (agent, ok) (team, refused) w = (w, refused)
assign_found env org t (agent, refused) team w = (w, refused)

-- The two ids are the request's; `may_write` is HasPermission(transfers, write).
unfoldable pub assign_agent_transfer :
    Env → Bool → ℕ → ℕ → ℕ → Option Text → Option Text → World → World × Reply
unfolding target_agent target_team assign_found
assign_agent_transfer env may_write org user id agent team w =
    elim (find_transfer org id w.transfers) [
      | none ↦ (w, not_found)
      | some t ↦
          if not (is_active t.status)
          then (w, bad_request (codes "Transfer is not active"))
          else assign_found env org t (target_agent env may_write org user agent w)
              (target_team env may_write org team t.team_id) w
    ]

-- The transfers that a pick may take.
pub data Scope : Type 0 where
  any_queue : Scope
  general : Scope
  one_team : ℕ → Scope
  own_teams : List ℕ → Scope

-- none is the refusal of a team that the user is no member of.
unfoldable pub pick_scope : Env → Bool → List ℕ → Text → Option Scope
pick_scope env full teams wanted =
    let named : Option Scope = elim (env.parse_id wanted) [
      | none ↦ some any_queue
      | some id ↦ if full || contains id teams then some (one_team id) else none
    ] in
    if wanted == []
    then some (if full then any_queue else own_teams teams)
    else if wanted == codes "general"
    then some general
    else named

abbrev pub in_scope : Scope → Option ℕ → Bool
in_scope any_queue team = true
in_scope general none = true
in_scope general (some t) = false
in_scope (one_team id) none = false
in_scope (one_team id) (some t) = nat_eq t id
in_scope (own_teams ids) none = true
in_scope (own_teams ids) (some t) = contains t ids

abbrev pub has_agent : AgentTransfer → Bool
has_agent t = elim t.agent_id [ none ↦ false | some a ↦ true ]

abbrev pub is_queued : ℕ → Scope → AgentTransfer → Bool
is_queued org scope t =
    nat_eq t.org org && is_active t.status && not (has_agent t) && in_scope scope t.team_id

abbrev pub is_older : AgentTransfer → AgentTransfer → Bool
is_older a b =
    ltb a.transferred_at b.transferred_at
    || (nat_eq a.transferred_at b.transferred_at && ltb a.id b.id)

-- ORDER BY transferred_at ASC, of which the first.
unfoldable pub oldest : List AgentTransfer → Option AgentTransfer
oldest [] = none
oldest (t ∷ ts) = elim (oldest ts) [
  | none ↦ some t
  | some u ↦ if is_older u t then some u else some t
]

abbrev pub or_user : ℕ → Option ℕ → Option ℕ
or_user user none = some user
or_user user (some u) = some u

abbrev pub picked : ℕ → ℕ → AgentTransfer → AgentTransfer
picked now user t = record t {
  agent_id = some user;
  transferred_by = or_user user t.transferred_by;
  sla = update_sla_on_pickup now t.sla;
}

unfoldable pub pick_from : Env → ℕ → ℕ → Option Settings → Scope → World → World × Reply
unfolding oldest pin_manager
pick_from env org user settings scope w = elim (oldest (select (is_queued org scope) w.transfers)) [
  | none ↦ (w, nothing_queued)
  | some t ↦
      let taken = record w { transfers = update_transfer t.id (picked env.now user) w.transfers } in
      let pinned : World = elim (contact_of t.contact_id w.contacts) [
        | none ↦ taken
        | some c ↦ pin_manager settings (some user) c taken
      ] in
      if env.write_fails then (w, server_error) else (notify (assigned t.id) pinned, ok)
]

abbrev pub teams_of : ℕ → List TeamMember → List ℕ
teams_of user ms =
    map (λ (m : TeamMember). m.team_id)
      (select (λ (m : TeamMember). nat_eq m.user_id user && not m.deleted) ms)

abbrev pub allows_pickup : Option Settings → Bool
allows_pickup none = true
allows_pickup (some s) = s.allow_queue_pickup

-- `full` and `may_pick` are HasPermission(transfers, write) and (transfers, pickup).
unfoldable pub pick_next_transfer : Env → Bool → Bool → ℕ → ℕ → Text → World → World × Reply
unfolding pick_scope pick_from
pick_next_transfer env full may_pick org user wanted w =
    let settings = env.settings org [] in
    let picks : World × Reply = elim (pick_scope env full (teams_of user w.store.members) wanted) [
      | none ↦ (w, forbidden (codes "You are not a member of this team"))
      | some scope ↦ pick_from env org user settings scope w
    ] in
    if not full && not (allows_pickup settings)
    then (w, forbidden (codes "Queue pickup is not allowed"))
    else if not full && not may_pick
    then (w, forbidden (codes "You don't have permission to pick up transfers"))
    else picks

-- ===== src/Assignment.antt =====
-- internal/assignment: assigner.go, cache.go and counters.go over the tables they query, whose rows
-- stand in the lists in the order in which the database returns them. The Redis cache is a map from
-- teams to the configurations stored (as JSON); an entry that expires is deleted like one that is
-- invalidated.
pub mod Available
pub mod RoundRobin
pub mod LoadBalanced
pub mod Cache
pub mod Dispatch
mod Samples
use trt_whats.Common.{
  ℕ, suc, ◌+◌, ◌≡◌, refl, Bool, true, false, not, ◌&&◌, ◌||◌, List, [], ◌∷◌, ◌++◌, map, Option,
  none, some, if◌then◌else◌, nat_eq, ltb, Map, lookup, insert, delete, select, contains, length,
  nat_eq_on, ℤ, pos, negsuc, ltb_ℤ, ◌==◌,
}

pub data AssignmentStrategy : Type 0 where
  round_robin load_balanced manual : AssignmentStrategy
  other : ℕ → AssignmentStrategy

pub data TeamRole : Type 0 where
  agent manager : TeamRole

pub record Team : Type 0 where
  pub is_active : Bool
  pub strategy : AssignmentStrategy
  pub per_agent_timeout_secs : ℤ

pub record TeamMember : Type 0 where
  pub id : ℕ
  pub team_id : ℕ
  pub user_id : ℕ
  pub role : TeamRole
  pub last_assigned_at : Option ℕ
  pub deleted : Bool

pub record User : Type 0 where
  pub id : ℕ
  pub is_available : Bool
  pub is_active : Bool
  pub deleted : Bool

pub record TeamConfig : Type 0 where
  pub strategy : AssignmentStrategy
  pub per_agent_timeout_secs : ℤ
  pub member_ids : List ℕ

pub record Store : Type 0 where
  pub teams : Map ℕ Team  -- those not soft-deleted
  pub members : List TeamMember
  pub users : List User
  pub cache : Map ℕ TeamConfig

abbrev pub is_agent : TeamRole → Bool
is_agent agent = true
is_agent manager = false

abbrev pub is_member_of : ℕ → TeamMember → Bool
is_member_of team m = nat_eq m.team_id team && not m.deleted

-- GetTeamConfig past the cache: what the tables say.
unfoldable pub load_config : ℕ → Store → Option TeamConfig
load_config team s = elim (lookup team s.teams) [
  | none ↦ none
  | some t ↦
      if t.is_active
      then some (record {
        strategy = t.strategy;
        per_agent_timeout_secs = t.per_agent_timeout_secs;
        member_ids =
            map (λ (m : TeamMember). m.user_id)
              (select (λ (m : TeamMember). is_member_of team m && is_agent m.role) s.members);
      })
      else none
]

unfoldable pub get_team_config : ℕ → Store → Option TeamConfig × Store
get_team_config team s = elim (lookup team s.cache) [
  | some cfg ↦ (some cfg, s)
  | none ↦ elim (load_config team s) [
    | none ↦ (none, s)
    | some cfg ↦ (some cfg, record s { cache = insert team cfg s.cache })
  ]
]

unfoldable pub invalidate_team_cache : ℕ → Store → Store
invalidate_team_cache team s = record s { cache = delete team s.cache }

abbrev pub is_ready : List ℕ → User → Bool
is_ready candidates u = not u.deleted && contains u.id candidates && u.is_available && u.is_active

-- filterAvailable
unfoldable pub filter_available : List ℕ → List ℕ → List User → List ℕ
filter_available members excluded users =
    let candidates = select (λ id. not (contains id excluded)) members in
    map (λ (u : User). u.id) (select (is_ready candidates) users)

-- ORDER BY last_assigned_at ASC NULLS FIRST
abbrev pub is_before : Option ℕ → Option ℕ → Bool
is_before none _ = true
is_before (some a) none = false
is_before (some a) (some b) = not (ltb b a)

unfoldable pub insert_member : TeamMember → List TeamMember → List TeamMember
insert_member m [] = m ∷ []
insert_member m (n ∷ ns) =
    let rest = insert_member m ns in
    if is_before m.last_assigned_at n.last_assigned_at then m ∷ n ∷ ns else n ∷ rest

unfoldable pub order_members : List TeamMember → List TeamMember
unfolding insert_member
order_members [] = []
order_members (m ∷ ms) = insert_member m (order_members ms)

abbrev pub stamp : ℕ → ℕ → TeamMember → TeamMember
stamp now id m = if nat_eq m.id id then record m { last_assigned_at = some now } else m

-- assignRoundRobin: the user, and the table with the member's time.
unfoldable pub assign_round_robin :
    ℕ → ℕ → List ℕ → List ℕ → List User → List TeamMember → Option ℕ × List TeamMember
unfolding order_members filter_available
assign_round_robin now team ids excluded users table =
    let available = filter_available ids excluded users in
    elim (order_members
      (select (λ (m : TeamMember). is_member_of team m && contains m.user_id available) table)) [
        | [] ↦ (none, table)
        | m ∷ ms ↦ (some m.user_id, map (stamp now m.id) table)
      ]

-- The loop of assignLoadBalanced. -1 stands for no count so far.
unfoldable pub lowest_loop : (ℕ → ℤ) → List ℕ → Option ℕ → ℤ → Option ℕ
lowest_loop load [] lowest count = lowest
lowest_loop load (id ∷ ids) lowest count =
    if ltb_ℤ count (pos 0) || ltb_ℤ (load id) count
    then lowest_loop load ids (some id) (load id)
    else lowest_loop load ids lowest count

-- loadMap[uid]
abbrev pub load_of : Map ℕ ℤ → ℕ → ℤ
load_of m id = elim (lookup id m) [ none ↦ pos 0 | some n ↦ n ]

unfoldable pub assign_load_balanced : List ℕ → List ℕ → List User → (List ℕ → Map ℕ ℤ) → Option ℕ
unfolding lowest_loop filter_available
assign_load_balanced ids excluded users counter =
    let available = filter_available ids excluded users in
    lowest_loop (load_of (counter available)) available none (negsuc 0)

-- The dispatch on the strategy, for the members of a configuration.
unfoldable pub assign_by :
    ℕ → ℕ → List ℕ → (List ℕ → Map ℕ ℤ) → List ℕ → AssignmentStrategy → Store → Option ℕ × Store
unfolding assign_round_robin assign_load_balanced
assign_by now team excluded counter ids load_balanced s =
    (assign_load_balanced ids excluded s.users counter, s)
assign_by now team excluded counter ids manual s = (none, s)
assign_by now team excluded counter ids _ s =
    let r = assign_round_robin now team ids excluded s.users s.members in
    (r.0, record s { members = r.1 })

unfoldable pub assign_to_team : ℕ → ℕ → List ℕ → (List ℕ → Map ℕ ℤ) → Store → Option ℕ × Store
unfolding get_team_config assign_by
assign_to_team now team excluded counter s =
    let (found, s1) = get_team_config team s in
    elim found [
      | none ↦ (none, s1)
      | some cfg ↦ assign_by now team excluded counter cfg.member_ids cfg.strategy s1
    ]

unfoldable pub get_available_agents : ℕ → List ℕ → Store → List ℕ × Store
unfolding get_team_config filter_available
get_available_agents team excluded s =
    let (found, s1) = get_team_config team s in
    elim found [
      | none ↦ ([], s1)
      | some cfg ↦ (filter_available cfg.member_ids excluded s1.users, s1)
    ]

unfoldable pub resolve_per_agent_timeout : ℤ → ℤ → ℤ → ℤ
resolve_per_agent_timeout team unused global =
    if ltb_ℤ (pos 0) team then team else if ltb_ℤ (pos 0) global then global else pos 15

-- A row of agent_transfers: the organization, the agent, and whether the transfer is active; or of
-- call_transfers, and whether it is waiting or connected.
pub record Transfer : Type 0 where
  pub org : ℕ
  pub agent_id : Option ℕ
  pub counts : Bool

abbrev pub is_load : ℕ → List ℕ → ℕ → Transfer → Bool
is_load org agents id t =
    nat_eq t.org org
    && t.counts
    && elim t.agent_id [ none ↦ false | some a ↦ contains a agents && nat_eq a id ]

abbrev pub count_load : ℕ → List Transfer → List ℕ → ℕ → ℕ
count_load org table agents id = length (select (is_load org agents id) table)

-- The rows of SELECT agent_id, COUNT(*) ... GROUP BY agent_id, in the map that the loop over them
-- makes: an agent without rows has no entry.
unfoldable pub load_rows : ℕ → List Transfer → List ℕ → List ℕ → Map ℕ ℤ
load_rows org table agents [] = []
load_rows org table agents (id ∷ ids) =
    let n = count_load org table agents id in
    let rest = load_rows org table agents ids in if nat_eq n 0 then rest else insert id (pos n) rest

-- ChatLoadCounter, CallLoadCounter
unfoldable pub load_counter : ℕ → List Transfer → List ℕ → Map ℕ ℤ
unfolding load_rows
load_counter org table agents = load_rows org table agents agents

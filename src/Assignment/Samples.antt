-- ===== src/Assignment/Samples.antt =====
-- internal/assignment: a team of three, and the theorems at it.
use trt_whats.Common.{
  ℕ, ◌≡◌, ◌≤◌, refl, Bool, true, false, List, [], ◌∷◌, Option, none, some, All, pos, nat_eq_on,
  lookup, insert,
}
use trt_whats.Assignment.{
  AssignmentStrategy, TeamRole, Team, TeamMember, TeamConfig, User, Store, Transfer, load_config,
  get_team_config, filter_available, insert_member, order_members, assign_round_robin, lowest_loop,
  assign_load_balanced, count_load, load_rows, load_counter, assign_by, assign_to_team,
}
use trt_whats.Assignment.Available.{IsEligible}
use trt_whats.Assignment.LoadBalanced.{assign_load_balanced_least}
use trt_whats.Assignment.Cache.{IsFresh, get_team_config-Answers, Describes}
use trt_whats.Assignment.Dispatch.{assign_to_team-IsEligible}

abbrev member : ℕ → ℕ → Option ℕ → TeamMember
member id user last = record {
  id = id;
  team_id = 9;
  user_id = user;
  role = TeamRole.agent;
  last_assigned_at = last;
  deleted = false;
}

abbrev user : ℕ → Bool → User
user id on = record { id = id; is_available = on; is_active = true; deleted = false }

abbrev members : List TeamMember
members = member 1 11 (some 50) ∷ member 2 12 none ∷ member 3 13 (some 20) ∷ []

-- User 12, who was never assigned, is away.
abbrev users : List User
users = user 11 true ∷ user 12 false ∷ user 13 true ∷ []

abbrev transfer : ℕ → Transfer
transfer agent = record { org = 1; agent_id = some agent; counts = true }

abbrev transfers : List Transfer
transfers = transfer 11 ∷ transfer 13 ∷ transfer 11 ∷ []

abbrev config : TeamConfig
config = record {
  strategy = AssignmentStrategy.round_robin;
  per_agent_timeout_secs = pos 0;
  member_ids = 11 ∷ 12 ∷ 13 ∷ [];
}

abbrev team : Team
team = record {
  is_active = true;
  strategy = AssignmentStrategy.round_robin;
  per_agent_timeout_secs = pos 0;
}

abbrev store : Store
store = record { teams = (9, team) ∷ []; members = members; users = users; cache = [] }

abbrev old_config : TeamConfig
old_config = record config { member_ids = 77 ∷ [] }

-- The cache holds an old configuration.
abbrev stale : Store
stale = record store { cache = (9, old_config) ∷ [] }

assign_load_balanced_least_example :
    All
      (λ u. count_load 1 transfers (11 ∷ 13 ∷ []) 13 ≤ count_load 1 transfers (11 ∷ 13 ∷ []) u)
      (11 ∷ 13 ∷ [])
unfolding assign_load_balanced lowest_loop load_counter load_rows filter_available lookup insert
assign_load_balanced_least_example =
    assign_load_balanced_least 1 transfers (11 ∷ 12 ∷ 13 ∷ []) [] users refl

assign_to_team-IsEligible_example :
    (cfg : TeamConfig) × ((get_team_config 9 store).0 ≡ some cfg)
    × IsEligible cfg.member_ids (13 ∷ []) users 11
unfolding assign_to_team assign_by assign_round_robin order_members insert_member filter_available
    get_team_config load_config lookup
assign_to_team-IsEligible_example = assign_to_team-IsEligible 100 9 (13 ∷ []) (λ ids. []) store refl

empty-IsFresh : IsFresh store
unfolding lookup
empty-IsFresh team cfg h = cc

-- The store with the configuration of team 9 in its cache.
abbrev warm : Store
warm = record store { cache = (9, config) ∷ [] }

warm-IsFresh : IsFresh warm
unfolding load_config lookup get_team_config insert
warm-IsFresh = (get_team_config-Answers 9 store empty-IsFresh).1

get_team_config-Answers_example : Describes 9 warm config × IsFresh (get_team_config 9 warm).1
unfolding lookup get_team_config
get_team_config-Answers_example = get_team_config-Answers 9 warm warm-IsFresh

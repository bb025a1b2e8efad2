-- ===== src/Assignment/Cache.antt =====
-- internal/assignment/cache.go: what the cache does to a team's configuration.
use trt_whats.Common.{
  ℕ, ◌≡◌, refl, sym, ◌∙◌, inl, inr, none, some, nat_eq, nat_eq_iff, lookup, insert, delete,
  lookup-insert, lookup-delete, nat_eq_on, ==_refl, arith, Bool-cases, Option-cases, subst,
  contains, any, select, map, not, ◌&&◌, List, [], ◌∷◌, Option, ◌⊎◌, true, false,
}
use trt_whats.Assignment.{
  Team, TeamMember, TeamConfig, Store, is_agent, is_member_of, load_config, get_team_config,
  invalidate_team_cache,
}

-- After an invalidation, the configuration is what the tables say.
pub get_team_config-invalidate_team_cache :
    (team : ℕ) (s : Store)
    → (get_team_config team (invalidate_team_cache team s)).0 ≡ load_config team s
unfolding get_team_config invalidate_team_cache load_config
get_team_config-invalidate_team_cache team s =
    let gone : lookup team (delete team s.cache) ≡ none =
      lookup-delete team team s.cache ∙ rw (==_refl team) refl in
    rw (gone, get_team_config) (ground arith)

get_team_config_hit :
    (team : ℕ) (s : Store) {cfg : TeamConfig}
    → lookup team s.cache ≡ some cfg
    → get_team_config team s ≡ (some cfg, s)
unfolding get_team_config
get_team_config_hit team s e = rw (e, get_team_config) refl

get_team_config_miss :
    (team : ℕ) (s : Store) {cfg : TeamConfig}
    → lookup team s.cache ≡ none
    → load_config team s ≡ some cfg
    → get_team_config team s ≡ (some cfg, record s { cache = insert team cfg s.cache })
unfolding get_team_config
get_team_config_miss team s e h = rw (e, get_team_config) (rw (h, get_team_config) refl)

get_team_config-absent :
    (team : ℕ) (s : Store)
    → lookup team s.cache ≡ none
    → load_config team s ≡ none
    → get_team_config team s ≡ (none, s)
unfolding get_team_config
get_team_config-absent team s e h = rw (e, get_team_config) (rw (h, get_team_config) refl)

-- What a configuration is to say of a team, row by row: the team is active, and its members are the
-- users of the live rows of its agents.
abbrev pub Describes : ℕ → Store → TeamConfig → Type 0
Describes team s cfg =
    (t : Team) × (lookup team s.teams ≡ some t)
    × (t.is_active ≡ true)
    × (cfg.strategy ≡ t.strategy)
    × (cfg.per_agent_timeout_secs ≡ t.per_agent_timeout_secs)
    × ((user : ℕ)
        → contains user cfg.member_ids
          ≡ any
              (λ (m : TeamMember).
                nat_eq m.team_id team && not m.deleted && is_agent m.role && nat_eq m.user_id user)
              s.members)

-- What the answer for a team is to say: none is for a team that does not exist or is not active.
abbrev pub Answers : ℕ → Store → Option TeamConfig → Type 0
Answers team s none =
    (lookup team s.teams ≡ none)
    ⊎ ((t : Team) × (lookup team s.teams ≡ some t) × (t.is_active ≡ false))
Answers team s (some cfg) = Describes team s cfg

-- Every entry of the cache describes its team.
abbrev pub IsFresh : Store → Type 0
IsFresh s = (team : ℕ) (cfg : TeamConfig) → lookup team s.cache ≡ some cfg → Describes team s cfg

contains-agents :
    (team user : ℕ) (ms : List TeamMember)
    → contains user (
        map
          (λ (m : TeamMember). m.user_id)
          (select (λ (m : TeamMember). is_member_of team m && is_agent m.role) ms))
      ≡ any
          (λ (m : TeamMember).
            nat_eq m.team_id team && not m.deleted && is_agent m.role && nat_eq m.user_id user)
          ms
contains-agents team user [] = refl
contains-agents team user (m ∷ ms) = ground (arith, contains-agents team user ms)

load_config-Answers : (team : ℕ) (s : Store) → Answers team s (load_config team s)
unfolding load_config
load_config-Answers team s = elim (Option-cases (lookup team s.teams)) [
  | inl e ↦ rw (load_config, e) (inl e)
  | inr (t, e) ↦ elim (Bool-cases t.is_active) [
    | inl on ↦
        rw (load_config, e, on) (t, e, on, refl, refl, λ user. contains-agents team user s.members)
    | inr off ↦ rw (load_config, e, off) (inr (t, e, off))
  ]
]

insert-IsFresh :
    (team : ℕ) (s : Store) (cfg : TeamConfig)
    → Describes team s cfg
    → IsFresh s
    → IsFresh (record s { cache = insert team cfg s.cache })
insert-IsFresh team s cfg d fresh t c h = elim (Bool-cases (nat_eq team t)) [
  | inl same ↦
      let here : some cfg ≡ some c =
        sym (rw same refl) ∙ sym (lookup-insert team t cfg s.cache) ∙ h in
      subst (λ i. Describes i s c) ((nat_eq_iff team t).0 same)
        (subst (Describes team s) (ground (arith, here)) d)
  | inr other ↦ fresh t c (sym (rw other refl) ∙ sym (lookup-insert team t cfg s.cache) ∙ h)
]

-- Over a cache whose entries describe their teams, the answer describes the team (its strategy, its
-- timeout, and as members exactly the users of the live rows of its agents), or is none for a team
-- that does not exist or is not active; and the entries of the cache describe their teams still.
pub get_team_config-Answers :
    (team : ℕ) (s : Store)
    → IsFresh s
    → Answers team s (get_team_config team s).0 × IsFresh (get_team_config team s).1
get_team_config-Answers team s fresh = elim (Option-cases (lookup team s.cache)) [
  | inr (cfg, e) ↦ rw (get_team_config_hit team s e) (fresh team cfg e, fresh)
  | inl e ↦ elim (Option-cases (load_config team s)) [
    | inl h ↦
        rw (get_team_config-absent team s e h)
          (subst (Answers team s) h (load_config-Answers team s), fresh)
    | inr (cfg, h) ↦
        let d : Describes team s cfg = subst (Answers team s) h (load_config-Answers team s) in
        rw (get_team_config_miss team s e h) (d, insert-IsFresh team s cfg d fresh)
  ]
]

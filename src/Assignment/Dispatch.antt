-- ===== src/Assignment/Dispatch.antt =====
-- internal/assignment/assigner.go, AssignToTeam: whom it assigns, by any strategy.
use trt_whats.Common.{
  ℕ, ◌≡◌, refl, ap, sym, ◌∙◌, subst, inl, inr, true, List, [], ◌∷◌, Option, none, some, All,
  nat_eq_on, arith, Bool-cases, Option-cases, ℤ, pos, negsuc, ltb_ℤ, contains, ◌||◌, Map,
}
use trt_whats.Assignment.{
  AssignmentStrategy, round_robin, load_balanced, manual, other, TeamConfig, Store, get_team_config,
  filter_available, assign_round_robin, lowest_loop, load_of, assign_load_balanced, assign_by,
  assign_to_team,
}
use trt_whats.Assignment.Available.{IsEligible, filter_available-IsEligible}
use trt_whats.Assignment.RoundRobin.{assign_round_robin-IsNext}
use trt_whats.Assignment.LoadBalanced.{All-contains}

lowest_loop-All :
    (load : ℕ → ℤ) (P : ℕ → Type 0) (ids : List ℕ) (o : Option ℕ) (c : ℤ) {v : ℕ}
    → All P ids
    → ((u : ℕ) → o ≡ some u → P u)
    → lowest_loop load ids o c ≡ some v
    → P v
unfolding lowest_loop
lowest_loop-All load P [] o c {v} h k e = k v e
lowest_loop-All load P (i ∷ is) o c h k e =
    elim (Bool-cases (ltb_ℤ c (pos 0) || ltb_ℤ (load i) c)) [
      | inl t ↦
          let step : lowest_loop load (i ∷ is) o c ≡ lowest_loop load is (some i) (load i) =
            rw t refl in
          lowest_loop-All load P is (some i) (load i) h.1
            (λ u q. let same : i ≡ u = cc q in subst P same h.0) (sym step ∙ e)
      | inr f ↦
          let step : lowest_loop load (i ∷ is) o c ≡ lowest_loop load is o c = rw f refl in
          lowest_loop-All load P is o c h.1 k (sym step ∙ e)
    ]

module _ (now team : ℕ) (excluded : List ℕ) (counter : List ℕ → Map ℕ ℤ) where
  round_robin-IsEligible :
      (ids : List ℕ) (s : Store) {id : ℕ}
      → (assign_round_robin now team ids excluded s.users s.members).0 ≡ some id
      → IsEligible ids excluded s.users id
  round_robin-IsEligible ids s {id} e =
      let next = assign_round_robin-IsNext now team ids excluded s.users s.members e in
      let available = filter_available ids excluded s.users in
      filter_available-IsEligible id ids excluded s.users
        (ap (λ (u : ℕ). contains u available) (sym next.1) ∙ ground (arith, next.2))

  load_balanced-IsEligible :
      (ids : List ℕ) (s : Store) {id : ℕ}
      → assign_load_balanced ids excluded s.users counter ≡ some id
      → IsEligible ids excluded s.users id
  unfolding assign_load_balanced
  load_balanced-IsEligible ids s {id} e =
      let available = filter_available ids excluded s.users in
      filter_available-IsEligible id ids excluded s.users (
        lowest_loop-All (load_of (counter available)) (λ u. contains u available ≡ true) available
          none (negsuc 0) (All-contains available) (λ u q. cc) e)

  assign_by-IsEligible :
      (ids : List ℕ) (strategy : AssignmentStrategy) (s : Store) {id : ℕ}
      → (assign_by now team excluded counter ids strategy s).0 ≡ some id
      → IsEligible ids excluded s.users id
  unfolding assign_by
  assign_by-IsEligible ids round_robin s e = round_robin-IsEligible ids s e
  assign_by-IsEligible ids load_balanced s e = load_balanced-IsEligible ids s e
  assign_by-IsEligible ids manual s e = cc
  assign_by-IsEligible ids (other n) s e = round_robin-IsEligible ids s e

  get_team_config-users : (s : Store) → (get_team_config team s).1.users ≡ s.users
  unfolding get_team_config
  get_team_config-users s = ground arith

  -- Whatever the strategy, a user that is assigned is a member of the team's configuration, is not
  -- excluded, and is a live, active and available user.
  pub assign_to_team-IsEligible :
      (s : Store) {id : ℕ}
      → (assign_to_team now team excluded counter s).0 ≡ some id
      → (cfg : TeamConfig) × ((get_team_config team s).0 ≡ some cfg)
        × IsEligible cfg.member_ids excluded s.users id
  unfolding assign_to_team
  assign_to_team-IsEligible s {id} e = elim (Option-cases (get_team_config team s).0) [
    | inl h ↦
        let step : (assign_to_team now team excluded counter s).0 ≡ none =
          rw (h, assign_to_team) refl in
        cc (step, e)
    | inr (cfg, h) ↦
        let after = (get_team_config team s).1 in
        let step : (assign_to_team now team excluded counter s).0
            ≡ (assign_by now team excluded counter cfg.member_ids cfg.strategy after).0 =
          rw (h, assign_to_team) refl in
        (
          cfg,
          h,
          subst (λ us. IsEligible cfg.member_ids excluded us id) (get_team_config-users s)
              (assign_by-IsEligible cfg.member_ids cfg.strategy after (sym step ∙ e)),
        )
  ]

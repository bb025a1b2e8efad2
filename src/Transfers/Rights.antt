-- ===== src/Transfers/Rights.antt =====
-- internal/handlers/agent_transfers.go: what an assignment without the permission to write can do.
use trt_whats.Common.{
  ℕ, false, [], ◌∷◌, Option, none, some, Text, text_eq, text_eq_on, nat_eq_on, ◌≡◌, ◌⊎◌, inl, inr,
  refl, arith, Bool-cases, Option-cases,
}
use trt_whats.Transfers.{AgentTransfer, World, Env, update_transfer, is_active}
use trt_whats.Transfers.Create.{pin_manager}
use trt_whats.Transfers.Handlers.{Reply, ok, find_transfer, unpin_manager}
use trt_whats.Transfers.Queue.{
  target_agent, target_team, assign_found, move_manager, reassign, assign_agent_transfer,
}
use trt_whats.Transfers.Picks.{Gives}

-- What an assignment has made of a transfer that it found.
abbrev pub Assigned : Option Text → ℕ → AgentTransfer → World → World → Type 0
Assigned agent user t w w' =
    (f : AgentTransfer → AgentTransfer) × (w'.transfers ≡ update_transfer t.id f w.transfers)
    × (((agent ≡ none) × Gives (some user) f t) ⊎ ((agent ≡ some []) × Gives none f t))

assign_found_ok :
    (env : Env) (org : ℕ) (t : AgentTransfer) (agent : Option ℕ) (w : World)
    → (assign_found env org t (agent, ok) (t.team_id, ok) w).1 ≡ ok
    → (assign_found env org t (agent, ok) (t.team_id, ok) w).0.transfers
      ≡ update_transfer t.id (reassign env.now agent t.team_id) w.transfers
unfolding assign_found move_manager pin_manager unpin_manager
assign_found_ok env org t agent w h = ground arith

assign_found-Assigned :
    (env : Env) (org user : ℕ) (agent team : Option Text) (t : AgentTransfer) (w : World)
    → let result : World × Reply =
        assign_found env org t
          (target_agent env false org user agent w)
          (target_team env false org team t.team_id)
          w in
      result.1 ≡ ok → Assigned agent user t w result.0
unfolding target_agent target_team assign_found text_eq
assign_found-Assigned env org user agent (some x) t w h = absurd (ground arith)
assign_found-Assigned env org user none none t w h = (
  reassign env.now (some user) t.team_id,
  assign_found_ok env org t (some user) w h,
  inl (refl, (refl, refl, refl)),
)
assign_found-Assigned env org user (some []) none t w h = (
  reassign env.now none t.team_id,
  assign_found_ok env org t none w h,
  inr (refl, (refl, refl, refl)),
)
assign_found-Assigned env org user (some (c ∷ s)) none t w h = absurd (ground arith)

-- Without the permission to write, a request that succeeds leaves the transfer's team and status,
-- and gives it to its user, if it names no agent, or to nobody, if it names the empty text; no other
-- request succeeds.
pub assign_agent_transfer-Assigned :
    (env : Env) (org user id : ℕ) (agent team : Option Text) (w : World)
    → (assign_agent_transfer env false org user id agent team w).1 ≡ ok
    → (t : AgentTransfer) × (find_transfer org id w.transfers ≡ some t)
      × Assigned agent user t w (assign_agent_transfer env false org user id agent team w).0
unfolding assign_agent_transfer
assign_agent_transfer-Assigned env org user id agent team w =
    elim (Option-cases (find_transfer org id w.transfers)) [
      | inl e ↦ rw (assign_agent_transfer, e) (λ h. cc)
      | inr (t, e) ↦ elim (Bool-cases (is_active t.status)) [
        | inl on ↦
            rw (assign_agent_transfer, e, on)
              (λ h. (t, refl, assign_found-Assigned env org user agent team t w h))
        | inr off ↦ rw (assign_agent_transfer, e, off) (λ h. cc)
      ]
    ]

-- ===== src/Transfers/Changes.antt =====
-- internal/handlers/agent_transfers.go and sla_processor.go: what each operation does to the table
-- of transfers, for the contacts that hold them.
use trt_whats.Common.{
  ℕ, Bool, true, false, not, List, [], ◌∷◌, Option, if◌then◌else◌, ltb, Text, ◌-◌, ◌*◌, text_eq_on,
  refl, arith, Bool-cases, Option-cases, inl, inr, select, codes,
}
use trt_whats.Transfers.{AgentTransfer, Contact, Settings, World, Env, is_active}
use trt_whats.Transfers.Create.{pin_manager}
use trt_whats.Transfers.Handlers.{
  Reply, bad_request, find_transfer, resume_from_transfer, resume, return_one, return_loop,
  unpin_manager, unassigned,
}
use trt_whats.Transfers.Queue.{
  assign_agent_transfer, assign_found, reassign, move_manager, pick_next_transfer, target_agent,
  target_team, Scope, oldest, is_queued, pick_scope, teams_of, pick_from, picked,
}
use trt_whats.Transfers.Sla.{
  auto_close, escalate, deadline_of, agent_responded_since, customer_last_spoke_at, auto_close_loop,
  escalate_loop, mark_sla_breached, is_expired, is_due, breach, process_organization_sla,
  expiry_moved, auto_closed, escalation_moved, raised,
}
use trt_whats.Transfers.Single.{IsSingle, Steps, Steps-IsSingle, writes}

auto_close-Steps :
    (env : Env) (s : Settings) (t : AgentTransfer) (w : World) → Steps w (auto_close env s t w)
unfolding auto_close
auto_close-Steps env s t w =
    elim (Bool-cases (
      agent_responded_since (deadline_of t.sla.expires_at - s.auto_close_hours * 3600) t
        w.messages)) [
          | inl busy ↦
              writes t.id (expiry_moved env.now s.auto_close_hours) w (auto_close env s t w)
                (λ u. (refl, refl, λ on. on)) (ground arith)
          | inr idle ↦
              writes t.id (auto_closed env.now) w (auto_close env s t w)
                (λ u. (refl, refl, λ on. cc)) (ground arith)
        ]

escalate-Steps :
    (env : Env) (s : Settings) (t : AgentTransfer) (w : World) → Steps w (escalate env s t w)
unfolding escalate
escalate-Steps env s t w =
    elim (Bool-cases (agent_responded_since (customer_last_spoke_at t w.messages) t w.messages)) [
      | inl busy ↦
          writes t.id (escalation_moved env.now s.escalation_minutes) w (escalate env s t w)
            (λ u. (refl, refl, λ on. on)) (ground arith)
      | inr idle ↦
          writes t.id (raised env.now) w (escalate env s t w) (λ u. (refl, refl, λ on. on))
            (ground arith)
    ]

return_one-Steps :
    (env : Env) (loaded : List Contact) (t : AgentTransfer) (w : World)
    → Steps w (return_one env loaded t w)
unfolding return_one unpin_manager
return_one-Steps env loaded t w =
    writes t.id unassigned w (return_one env loaded t w) (λ u. (refl, refl, λ on. on))
      (ground arith)

mark-Steps : (env : Env) (org : ℕ) (w : World) → Steps w (mark_sla_breached env org w)
unfolding mark_sla_breached
mark-Steps env org w = elim (Bool-cases env.write_fails) [
  | inl fails ↦ inl (ground arith)
  | inr works ↦ inr ((breach env.now org, ground arith, λ u. ground arith))
]

assign_found-Steps :
    (env : Env) (org : ℕ) (t : AgentTransfer) (a b : Option ℕ × Reply) (w : World)
    → Steps w (assign_found env org t a b w).0
unfolding assign_found move_manager pin_manager unpin_manager
assign_found-Steps env org t (agent, ra) (team, rb) w =
    writes t.id (reassign env.now agent team) w (assign_found env org t (agent, ra) (team, rb) w).0
      (λ u. (refl, refl, λ on. on)) (ground arith)

module _ (env : Env) where
  pub return_loop-IsSingle :
      (loaded : List Contact) (ts : List AgentTransfer) (w : World)
      → IsSingle w.transfers
      → IsSingle (return_loop env loaded ts w).transfers
  unfolding return_loop
  return_loop-IsSingle loaded [] w h = h
  return_loop-IsSingle loaded (t ∷ ts) w h =
      return_loop-IsSingle loaded ts (return_one env loaded t w)
        (Steps-IsSingle w (return_one env loaded t w) (return_one-Steps env loaded t w) h)

  auto_close_loop-IsSingle :
      (s : Settings) (ts : List AgentTransfer) (w : World)
      → IsSingle w.transfers
      → IsSingle (auto_close_loop env s ts w).transfers
  unfolding auto_close_loop
  auto_close_loop-IsSingle s [] w h = h
  auto_close_loop-IsSingle s (t ∷ ts) w h =
      auto_close_loop-IsSingle s ts (auto_close env s t w)
        (Steps-IsSingle w (auto_close env s t w) (auto_close-Steps env s t w) h)

  escalate_loop-IsSingle :
      (s : Settings) (ts : List AgentTransfer) (w : World)
      → IsSingle w.transfers
      → IsSingle (escalate_loop env s ts w).transfers
  unfolding escalate_loop
  escalate_loop-IsSingle s [] w h = h
  escalate_loop-IsSingle s (t ∷ ts) w h =
      escalate_loop-IsSingle s ts (escalate env s t w)
        (Steps-IsSingle w (escalate env s t w) (escalate-Steps env s t w) h)

  if-IsSingle :
      (b : Bool) (x y : World)
      → IsSingle x.transfers
      → IsSingle y.transfers
      → IsSingle (if b then x else y).transfers
  if-IsSingle true x y h k = h
  if-IsSingle false x y h k = k

  pub process_organization_sla-IsSingle :
      (s : Settings) (org : ℕ) (w : World)
      → IsSingle w.transfers
      → IsSingle (process_organization_sla env s org w).transfers
  unfolding process_organization_sla
  process_organization_sla-IsSingle s org w h =
      let closed = auto_close_loop env s (select (is_expired env.now org) w.transfers) w in
      let w1 = if ltb 0 s.auto_close_hours then closed else w in
      let raised_rows = escalate_loop env s (select (is_due env.now org) w1.transfers) w1 in
      let w2 = if ltb 0 s.escalation_minutes then raised_rows else w1 in
      let h1 : IsSingle w1.transfers =
        if-IsSingle (ltb 0 s.auto_close_hours) closed w
          (auto_close_loop-IsSingle s (select (is_expired env.now org) w.transfers) w h) h in
      let h2 : IsSingle w2.transfers =
        if-IsSingle (ltb 0 s.escalation_minutes) raised_rows w1
          (escalate_loop-IsSingle s (select (is_due env.now org) w1.transfers) w1 h1) h1 in
      if-IsSingle (ltb 0 s.response_minutes) (mark_sla_breached env org w2) w2
        (Steps-IsSingle w2 (mark_sla_breached env org w2) (mark-Steps env org w2) h2) h2

  pub resume-IsSingle :
      (org user id : ℕ) (w : World)
      → IsSingle w.transfers
      → IsSingle (resume_from_transfer env org user id w).0.transfers
  unfolding resume_from_transfer
  resume-IsSingle org user id w h = elim (Option-cases (find_transfer org id w.transfers)) [
    | inl e ↦ rw (resume_from_transfer, e) h
    | inr (t, e) ↦
        Steps-IsSingle w (resume_from_transfer env org user id w).0
          (writes t.id (resume env.now user) w (resume_from_transfer env org user id w).0
            (λ u. (refl, refl, λ on. cc)) (ground arith))
          h
  ]

  pub assign-IsSingle :
      (may_write : Bool) (org user id : ℕ) (agent team : Option Text) (w : World)
      → IsSingle w.transfers
      → IsSingle (assign_agent_transfer env may_write org user id agent team w).0.transfers
  unfolding assign_agent_transfer
  assign-IsSingle may_write org user id agent team w h =
      elim (Option-cases (find_transfer org id w.transfers)) [
        | inl e ↦ rw (assign_agent_transfer, e) h
        | inr (t, e) ↦
            rw (assign_agent_transfer, e)
              (kept t (not (is_active t.status)) (target_agent env may_write org user agent w)
                (target_team env may_write org team t.team_id))
      ]
    where
      kept :
          (t : AgentTransfer) (b : Bool) (a1 a2 : Option ℕ × Reply)
          → IsSingle
              (if b
                then (w, bad_request (codes "Transfer is not active"))
                else assign_found env org t a1 a2 w).0.transfers
      kept t true a1 a2 = h
      kept t false a1 a2 =
          Steps-IsSingle w (assign_found env org t a1 a2 w).0 (assign_found-Steps env org t a1 a2 w)
            h

  pick_from-Steps :
      (org user : ℕ) (settings : Option Settings) (scope : Scope) (w : World)
      → Steps w (pick_from env org user settings scope w).0
  unfolding pick_from pin_manager
  pick_from-Steps org user settings scope w =
      elim (Option-cases (oldest (select (is_queued org scope) w.transfers))) [
        | inl e ↦ inl (ground arith)
        | inr (t, e) ↦
            writes t.id (picked env.now user) w (pick_from env org user settings scope w).0
              (λ u. (refl, refl, λ on. on)) (ground arith)
      ]

  pub pick-IsSingle :
      (full may_pick : Bool) (org user : ℕ) (wanted : Text) (w : World)
      → IsSingle w.transfers
      → IsSingle (pick_next_transfer env full may_pick org user wanted w).0.transfers
  unfolding pick_next_transfer
  pick-IsSingle full may_pick org user wanted w h =
      elim (Option-cases (pick_scope env full (teams_of user w.store.members) wanted)) [
        | inl e ↦ ground arith
        | inr (scope, e) ↦
            let picks = pick_from env org user (env.settings org []) scope w in
            ground (
              arith,
              Steps-IsSingle w picks.0 (pick_from-Steps org user (env.settings org []) scope w) h,
            )
      ]

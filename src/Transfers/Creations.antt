-- ===== src/Transfers/Creations.antt =====
-- internal/handlers/agent_transfers.go: a new transfer in the table of transfers.
use trt_whats.Common.{
  ℕ, true, false, ◌&&◌, List, [], ◌∷◌, Option, none, some, if◌then◌else◌, Text, ◌≡◌, text_eq_on,
  subst, arith, Bool-cases, Option-cases, inl, inr, codes,
}
use trt_whats.Transfers.{
  TransferSource, AgentTransfer, Contact, Settings, World, Env, has_active, assign_team,
}
use trt_whats.Transfers.Create.{
  save_and_finalize_transfer, create_transfer_to_queue, create_transfer_from_keyword,
  create_transfer_to_team, ensure_agent_takeover_transfer, same_agent, new_transfer,
}
use trt_whats.Transfers.Handlers.{
  Reply, bad_request, not_found, Given, absent, malformed, given, or_manual, read_id, belongs,
  is_active_team, contact_by_org, CreateRequest, create_agent_transfer, create_for_contact,
  create_for, then_create, choose_agent,
}
use trt_whats.Transfers.Single.{IsSingle, save-IsSingle, unless_held-IsSingle}

module _ (env : Env) where
  choose_agent-transfers :
      (org : ℕ) (req : CreateRequest) (c : Contact) (settings : Option Settings) (team : Option ℕ)
      (w : World)
      → (choose_agent env org req c settings team w).1.transfers ≡ w.transfers
  unfolding choose_agent assign_team
  choose_agent-transfers org req c settings team w = ground arith

  then_create-IsSingle :
      (user : ℕ) (req : CreateRequest) (c : Contact) (settings : Option Settings)
      (team agent : Option ℕ) (w : World) (r : Reply)
      → has_active c.org c.id w.transfers ≡ false
      → IsSingle w.transfers
      → IsSingle (then_create env user req c settings team (agent, w, r)).0.transfers
  unfolding create_for
  then_create-IsSingle user req c settings team agent w Reply.ok free h =
      save-IsSingle env settings true c
        (new_transfer env c req.account (or_manual req.source) agent team (some user) req.notes) w
        free h
  then_create-IsSingle user req c settings team agent w (Reply.bad_request t) free h = h
  then_create-IsSingle user req c settings team agent w (Reply.forbidden t) free h = h
  then_create-IsSingle user req c settings team agent w Reply.not_found free h = h
  then_create-IsSingle user req c settings team agent w Reply.conflict free h = h
  then_create-IsSingle user req c settings team agent w Reply.server_error free h = h
  then_create-IsSingle user req c settings team agent w Reply.nothing_queued free h = h

  create_for_contact-IsSingle :
      (user : ℕ) (req : CreateRequest) (c : Contact) (w : World)
      → IsSingle w.transfers
      → IsSingle (create_for_contact env c.org user req c w).0.transfers
  unfolding create_for_contact
  create_for_contact-IsSingle user req c w h =
      elim (Bool-cases (has_active c.org c.id w.transfers)) [
        | inl held ↦ rw (create_for_contact, held) h
        | inr free ↦ rw (create_for_contact, free) (go free (read_id env req.team_id))
      ]
    where
      with_team :
          (team : Option ℕ)
          → has_active c.org c.id w.transfers ≡ false
          → IsSingle
              (then_create env user req c
                (env.settings c.org req.account)
                team
                (choose_agent env c.org req c (env.settings c.org req.account) team w)).0.transfers
      with_team team free =
          let settings = env.settings c.org req.account in
          let choice = choose_agent env c.org req c settings team w in
          let same = choose_agent-transfers c.org req c settings team w in
          then_create-IsSingle user req c settings team choice.0 choice.1 choice.2 (rw same free)
            (rw same h)

      go :
          has_active c.org c.id w.transfers ≡ false
          → (g : Given)
          → IsSingle
              (elim g as (λ x. World × Reply) [
                | absent ↦
                    then_create env user req c
                      (env.settings c.org req.account)
                      none
                      (choose_agent env c.org req c (env.settings c.org req.account) none w)
                | malformed ↦ (w, bad_request (codes "Invalid team_id"))
                | given id ↦
                    if belongs c.org (env.org_of_team id) && is_active_team id w
                    then then_create env user req c
                        (env.settings c.org req.account)
                        (some id)
                        (choose_agent env c.org req c (env.settings c.org req.account) (some id) w)
                    else (w, bad_request (codes "Team not found or inactive"))
              ]).0.transfers
      go free absent = with_team none free
      go free malformed = h
      go free (given id) = ground (arith, with_team (some id) free)

  contact_by_org-org :
      (org id : ℕ) (cs : List Contact) (c : Contact)
      → contact_by_org org id cs ≡ some c
      → c.org ≡ org
  contact_by_org-org org id [] c e = cc
  contact_by_org-org org id (d ∷ cs) c e = ground (arith, contact_by_org-org org id cs c)

  pub create-IsSingle :
      (org user : ℕ) (req : CreateRequest) (w : World)
      → IsSingle w.transfers
      → IsSingle (create_agent_transfer env org user req w).0.transfers
  unfolding create_agent_transfer
  create-IsSingle org user req w h = go (read_id env (some req.contact_id))
    where
      go :
          (g : Given)
          → IsSingle
              (elim g as (λ x. World × Reply) [
                | absent ↦ (w, bad_request (codes "contact_id is required"))
                | malformed ↦ (w, bad_request (codes "Invalid contact_id"))
                | given id ↦ elim (contact_by_org org id w.contacts) [
                  | none ↦ (w, not_found)
                  | some c ↦ create_for_contact env org user req c w
                ]
              ]).0.transfers
      go absent = h
      go malformed = h
      go (given id) = elim (Option-cases (contact_by_org org id w.contacts)) [
        | inl e ↦ ground arith
        | inr (c, e) ↦ rw e (
            subst (λ o. IsSingle (create_for_contact env o user req c w).0.transfers)
              (contact_by_org-org org id w.contacts c e)
              (create_for_contact-IsSingle user req c w h))
      ]

  pub to_queue-IsSingle :
      (account : Text) (source : TransferSource) (c : Contact) (w : World)
      → IsSingle w.transfers
      → IsSingle (create_transfer_to_queue env account source c w).transfers
  unfolding create_transfer_to_queue
  to_queue-IsSingle account source c w h =
      let t = new_transfer env c account source none none none [] in
      unless_held-IsSingle env (env.settings c.org account) c
        (save_and_finalize_transfer env (env.settings c.org account) false c t) w
        (λ free. save-IsSingle env (env.settings c.org account) false c t w free h) h

  pub from_keyword-IsSingle :
      (account : Text) (c : Contact) (w : World)
      → IsSingle w.transfers
      → IsSingle (create_transfer_from_keyword env account c w).transfers
  unfolding create_transfer_from_keyword
  from_keyword-IsSingle account c w h =
      let settings = env.settings c.org account in
      let t =
        new_transfer env c account TransferSource.keyword (same_agent settings c w) none none [] in
      unless_held-IsSingle env settings c (save_and_finalize_transfer env settings true c t) w
        (λ free. save-IsSingle env settings true c t w free h) h

  pub to_team-IsSingle :
      (account : Text) (team : ℕ) (notes : Text) (source : TransferSource) (c : Contact) (w : World)
      → IsSingle w.transfers
      → IsSingle (create_transfer_to_team env account team notes source c w).transfers
  unfolding create_transfer_to_team assign_team
  to_team-IsSingle account team notes source c w h =
      let settings = env.settings c.org account in
      let t : Option ℕ → AgentTransfer =
        λ a. new_transfer env c account source a (some team) none notes in
      unless_held-IsSingle env settings c
        (λ w0.
          save_and_finalize_transfer env settings true c (t (assign_team env c.org team w0).0)
            (assign_team env c.org team w0).1)
        w
        (λ free.
          save-IsSingle env settings true c (t (assign_team env c.org team w).0)
            (assign_team env c.org team w).1 free h)
        h

  pub takeover-IsSingle :
      (org : ℕ) (c : Contact) (account : Text) (agent : ℕ) (w : World)
      → IsSingle w.transfers
      → IsSingle (ensure_agent_takeover_transfer env org c account agent w).transfers
  unfolding ensure_agent_takeover_transfer
  takeover-IsSingle org c account agent w h = elim (Bool-cases (has_active org c.id w.transfers)) [
    | inl held ↦ rw (ensure_agent_takeover_transfer, held) h
    | inr free ↦ elim (Bool-cases env.write_fails) [
      | inl fails ↦ rw (ensure_agent_takeover_transfer, free, fails) h
      | inr works ↦ rw (ensure_agent_takeover_transfer, free, works) ((λ on. free), h)
    ]
  ]

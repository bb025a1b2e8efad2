-- ===== src/Campaign/Cancelled.antt =====
-- internal/handlers/campaigns.go and internal/worker/worker.go together: cancelled campaigns.
use trt_whats.Common.{
  ℕ, ◌≡◌, refl, ap, ◌∙◌, inl, inr, true, false, List, [], ◌∷◌, map, some, nat_eq, nat_eq_iff,
  lookup, nat_eq_on, arith, Bool-cases, Option-cases, text_eq_on,
}
use trt_whats.Contacts.{Insert}
use trt_whats.Campaign.{
  CampaignStatus, Campaign, Job, World, Env, adjust, lookup-adjust, pending_of, failed_of,
  Recipient, set_status,
}
use trt_whats.Campaign.Handlers.{
  Faults, Reply, find_campaign, with_campaign, started, recount, reset_message, launch,
  start_campaign_found, start_campaign, pause_campaign_found, pause_campaign, cancel_campaign_found,
  cancel_campaign, retry_all, retry_failed_found, retry_failed,
}
use trt_whats.Campaign.Worker.{is_stopped, process_job, handle_recipient_job}
use trt_whats.Campaign.Events.{starts, pauses, cancels, retries, works, Event, step, run, sends_of}
use trt_whats.Campaign.Kept.{Keeps, process_job-Keeps}

find_campaign-lookup :
    (org k : ℕ) (w : World) {d : Campaign}
    → find_campaign org k w ≡ some d
    → lookup k w.campaigns ≡ some d
unfolding find_campaign
find_campaign-lookup org k w e = ground arith

handle_stopped :
    (env : Env) (now fresh : ℕ) (insert : Insert) (job : Job) (w : World) {d : Campaign}
    → lookup job.campaign_id w.campaigns ≡ some d
    → is_stopped d.status ≡ true
    → (handle_recipient_job env now fresh insert job w).0 ≡ w
unfolding handle_recipient_job
handle_stopped env now fresh insert job w e h =
    rw (e, handle_recipient_job) (rw (h, process_job) refl)

module _ (id : ℕ) (c : Campaign) (sends : List Job) where
  module _ (cancelled : c.status ≡ CampaignStatus.cancelled) where
    is_cancelled :
        (org k : ℕ) (w : World) (d : Campaign)
        → find_campaign org k w ≡ some d
        → nat_eq k id ≡ true
        → lookup id w.campaigns ≡ some c
        → d.status ≡ CampaignStatus.cancelled
    is_cancelled org k w d e here h =
        let same : k ≡ id = (nat_eq_iff k id).0 here in
        let row : d ≡ c =
          cc (find_campaign-lookup org k w e, ap (λ i. lookup i w.campaigns) same) in
        ap (λ (d : Campaign). d.status) row ∙ cancelled

    with_campaign-Keeps :
        (org k : ℕ) (f : Campaign → World × Reply) (w : World)
        → Keeps id c sends w
        → ((d : Campaign) → d.status ≡ CampaignStatus.cancelled → (f d).0 ≡ w)
        → ((d : Campaign) → nat_eq k id ≡ false → Keeps id c sends (f d).0)
        → Keeps id c sends (with_campaign org k f w).0
    unfolding with_campaign
    with_campaign-Keeps org k f w h same other = elim (Option-cases (find_campaign org k w)) [
      | inl e ↦ rw (e, with_campaign) h
      | inr (d, e) ↦
          rw (e, with_campaign)
            (elim (Bool-cases (nat_eq k id)) [
              | inl here ↦ rw (same d (is_cancelled org k w d e here h.0)) h
              | inr there ↦ other d there
            ])
    ]

    launch-Keeps :
        (faults : Faults) (now org k : ℕ) (rs : List Recipient) (w : World)
        → nat_eq k id ≡ false
        → Keeps id c sends w
        → Keeps id c sends (launch faults now org k rs w).0
    unfolding launch
    launch-Keeps faults now org k rs w other h = ground (
      arith,
      lookup-adjust k id (started now) w.campaigns,
      lookup-adjust k id (set_status CampaignStatus.draft) (adjust k (started now) w.campaigns),
    )

    start_campaign-Keeps :
        (env : Env) (faults : Faults) (now org k : ℕ) (w : World)
        → Keeps id c sends w
        → Keeps id c sends (start_campaign env faults now org k w).0
    unfolding start_campaign start_campaign_found
    start_campaign-Keeps env faults now org k w h =
        with_campaign-Keeps org k (start_campaign_found env faults now org k w) w h
          (λ d e. rw e refl)
          (λ d other.
            ground (arith, launch-Keeps faults now org k (pending_of k w.recipients) w other h))

    pause_campaign-Keeps :
        (faults : Faults) (org k : ℕ) (w : World)
        → Keeps id c sends w
        → Keeps id c sends (pause_campaign faults org k w).0
    unfolding pause_campaign pause_campaign_found
    pause_campaign-Keeps faults org k w h =
        with_campaign-Keeps org k (pause_campaign_found faults k w) w h (λ d e. rw e refl)
          (λ d other.
            ground (arith, lookup-adjust k id (set_status CampaignStatus.paused) w.campaigns))

    cancel_campaign-Keeps :
        (faults : Faults) (org k : ℕ) (w : World)
        → Keeps id c sends w
        → Keeps id c sends (cancel_campaign faults org k w).0
    unfolding cancel_campaign cancel_campaign_found
    cancel_campaign-Keeps faults org k w h =
        with_campaign-Keeps org k (cancel_campaign_found faults k w) w h (λ d e. rw e refl)
          (λ d other.
            ground (arith, lookup-adjust k id (set_status CampaignStatus.cancelled) w.campaigns))

    retry_all-Keeps :
        (faults : Faults) (org k : ℕ) (rs : List Recipient) (w : World)
        → nat_eq k id ≡ false
        → Keeps id c sends w
        → Keeps id c sends (retry_all faults org k rs w).0
    unfolding retry_all
    retry_all-Keeps faults org k rs w other h =
        let f = recount k (map (reset_message k) w.messages) in
        ground (
          arith,
          lookup-adjust k id f w.campaigns,
          lookup-adjust k id (set_status CampaignStatus.processing) (adjust k f w.campaigns),
        )

    retry_failed-Keeps :
        (faults : Faults) (org k : ℕ) (w : World)
        → Keeps id c sends w
        → Keeps id c sends (retry_failed faults org k w).0
    unfolding retry_failed retry_failed_found
    retry_failed-Keeps faults org k w h =
        with_campaign-Keeps org k (retry_failed_found faults org k w) w h (λ d e. rw e refl)
          (λ d other.
            ground (arith, retry_all-Keeps faults org k (failed_of k w.recipients) w other h))

    handle_recipient_job-Keeps :
        (env : Env) (now fresh : ℕ) (insert : Insert) (job : Job) (w : World)
        → Keeps id c sends w
        → Keeps id c sends (handle_recipient_job env now fresh insert job w).0
    unfolding handle_recipient_job
    handle_recipient_job-Keeps env now fresh insert job w h =
        elim (Bool-cases (nat_eq job.campaign_id id)) [
          | inl here ↦
              let same : job.campaign_id ≡ id = (nat_eq_iff job.campaign_id id).0 here in
              rw
                (handle_stopped env now fresh insert job w
                  (ap (λ i. lookup i w.campaigns) same ∙ h.0) (ap is_stopped cancelled))
                h
          | inr other ↦ elim (Option-cases (lookup job.campaign_id w.campaigns)) [
            | inl e ↦ rw (e, handle_recipient_job) h
            | inr (d, e) ↦
                rw (e, handle_recipient_job)
                  (process_job-Keeps id c sends env now fresh insert job d w other h)
          ]
        ]

    step-Keeps :
        (env : Env) (w : World) (e : Event) → Keeps id c sends w → Keeps id c sends (step env w e)
    unfolding step
    step-Keeps env w (starts faults now org k) h = start_campaign-Keeps env faults now org k w h
    step-Keeps env w (pauses faults org k) h = pause_campaign-Keeps faults org k w h
    step-Keeps env w (cancels faults org k) h = cancel_campaign-Keeps faults org k w h
    step-Keeps env w (retries faults org k) h = retry_failed-Keeps faults org k w h
    step-Keeps env w (works now fresh insert job) h =
        handle_recipient_job-Keeps env now fresh insert job w h

    run-Keeps :
        (env : Env) (w : World) (es : List Event)
        → Keeps id c sends w
        → Keeps id c sends (run env w es)
    unfolding run
    run-Keeps env w [] h = h
    run-Keeps env w (e ∷ es) h = run-Keeps env (step env w e) es (step-Keeps env w e h)

-- Whatever requests to start, pause, cancel and retry and jobs of the worker follow, one after the
-- other and in whatever order, a cancelled campaign's row stays as it is, and no message of the
-- campaign is sent any more.
pub run-cancelled :
    (env : Env) (w : World) (es : List Event) (id : ℕ) (c : Campaign)
    → lookup id w.campaigns ≡ some c
    → c.status ≡ CampaignStatus.cancelled
    → (lookup id (run env w es).campaigns ≡ some c) × (sends_of id (run env w es) ≡ sends_of id w)
run-cancelled env w es id c e cancelled =
    run-Keeps id c (sends_of id w) cancelled env w es (e, refl)

-- ===== src/Campaign/Launch.antt =====
-- internal/handlers/campaigns.go, StartCampaign: what a start that fails leaves behind.
use trt_whats.Common.{
  ℕ, ◌++◌, ◌≡◌, ◌≢◌, refl, ◌∙◌, ◌⊎◌, true, map, Option, none, some, if◌then◌else◌, lookup, select,
  arith, nat_eq_on, ==_refl,
}
use trt_whats.Campaign.{
  CampaignStatus, Campaign, World, Env, adjust, map_option, lookup-adjust, pending_of, job_of,
  set_status,
}
use trt_whats.Campaign.Handlers.{
  Faults, ok, with_campaign, started, launch, start_campaign_found, start_campaign,
}

-- A row that was started and is a draft again.
abbrev pub drafted : ℕ → Campaign → Campaign
drafted now c = record c { status = CampaignStatus.draft; started_at = some now }

lookup_here :
    (id : ℕ) (f : Campaign → Campaign) (w : World)
    → lookup id (adjust id f w.campaigns) ≡ map_option f (lookup id w.campaigns)
lookup_here id f w = lookup-adjust id id f w.campaigns ∙ rw (==_refl id) refl

map_option-drafted :
    (now : ℕ) (o : Option Campaign)
    → map_option (set_status CampaignStatus.draft) (map_option (started now) o)
      ≡ map_option (drafted now) o
map_option-drafted now none = refl
map_option-drafted now (some c) = refl

module _ (env : Env) (faults : Faults) (now org id : ℕ) (w : World) where
  -- A start that fails changes nothing, except where the queue refuses the jobs: then some of them
  -- may be queued all the same, each at most once and in order, and the campaign is a draft, whatever
  -- it was before, or is processing if the update back to a draft fails too.
  pub start_campaign_error :
      (start_campaign env faults now org id w).1 ≢ ok
      → ((start_campaign env faults now org id w).0 ≡ w)
        ⊎ ((faults.enqueue_fails ≡ true)
            × ((start_campaign env faults now org id w).0.queue
                ≡ w.queue
                  ++ select faults.enqueued (map (job_of id org) (pending_of id w.recipients)))
            × (lookup id (start_campaign env faults now org id w).0.campaigns
                ≡ map_option
                    (if faults.revert_fails then started now else drafted now)
                    (lookup id w.campaigns))
            × ((start_campaign env faults now org id w).0.recipients ≡ w.recipients))
  unfolding start_campaign with_campaign start_campaign_found launch
  start_campaign_error h = ground (
    arith,
    lookup_here id (started now) w,
    lookup_here id (set_status CampaignStatus.draft)
        (record w { campaigns = adjust id (started now) w.campaigns }),
    map_option-drafted now (lookup id w.campaigns),
  )

-- ===== src/Campaign/Events.antt =====
-- internal/handlers/campaigns.go and internal/worker/worker.go together: the requests and the jobs
-- as events, one after the other in any order. The deletion of a campaign and the platform's reports
-- are no events here.
use trt_whats.Common.{ℕ, List, [], ◌∷◌, nat_eq, select, nat_eq_on, text_eq_on}
use trt_whats.Contacts.{Insert}
use trt_whats.Campaign.{Job, World, Env}
use trt_whats.Campaign.Handlers.{
  Faults, start_campaign, pause_campaign, cancel_campaign, retry_failed,
}
use trt_whats.Campaign.Worker.{handle_recipient_job}

-- A request of an organization for a campaign, with what the environment makes of it, or a job
-- that the queue hands to a worker.
pub data Event : Type 0 where
  starts : Faults → ℕ → ℕ → ℕ → Event
  pauses cancels retries : Faults → ℕ → ℕ → Event
  works : ℕ → ℕ → Insert → Job → Event

unfoldable pub step : Env → World → Event → World
step env w (starts faults now org id) = (start_campaign env faults now org id w).0
step env w (pauses faults org id) = (pause_campaign faults org id w).0
step env w (cancels faults org id) = (cancel_campaign faults org id w).0
step env w (retries faults org id) = (retry_failed faults org id w).0
step env w (works now fresh insert job) = (handle_recipient_job env now fresh insert job w).0

unfoldable pub run : Env → World → List Event → World
run env w [] = w
run env w (e ∷ es) = run env (step env w e) es

-- The calls of the Cloud API for a campaign.
abbrev pub sends_of : ℕ → World → List Job
sends_of id w = select (λ (j : Job). nat_eq j.campaign_id id) w.sends

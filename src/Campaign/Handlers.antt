-- ===== src/Campaign/Handlers.antt =====
-- internal/handlers/campaigns.go: the handlers that start, pause, cancel and retry a campaign, past
-- authentication and the parsing of the id, and the recount of a campaign's statistics. The updates
-- whose failure is only logged (the messages that RetryFailed resets, and the recount) are taken to
-- succeed.
use trt_whats.Common.{
  ℕ, ◌++◌, Bool, true, false, not, ◌&&◌, List, [], map, Option, none, some, if◌then◌else◌, nat_eq,
  lookup, select, length, nat_eq_on,
}
use trt_whats.Campaign.{
  CampaignStatus, MessageStatus, Campaign, Recipient, Message, Job, World, Env, adjust, is_failed,
  pending_of, failed_of, job_of, set_status,
}
use trt_whats.Campaign.Guard.{GuardError, guardrails}

-- What the environment makes of the calls of a handler. The pipeline that queues the jobs is no
-- transaction: `enqueued` are the jobs that are in the queue although it has failed.
pub record Faults : Type 0 where
  pub load_fails : Bool
  pub update_fails : Bool
  pub reset_fails : Bool
  pub enqueue_fails : Bool
  pub enqueued : Job → Bool
  pub revert_fails : Bool

pub data Reply : Type 0 where
  ok : Reply
  not_found : Reply
  wrong_state : Reply
  no_recipients : Reply
  refused : GuardError → Reply
  internal_error : Reply

-- findByIDAndOrg
unfoldable pub find_campaign : ℕ → ℕ → World → Option Campaign
find_campaign org id w = elim (lookup id w.campaigns) [
  | none ↦ none
  | some c ↦ if nat_eq c.org org then some c else none
]

unfoldable pub with_campaign : ℕ → ℕ → (Campaign → World × Reply) → World → World × Reply
unfolding find_campaign
with_campaign org id f w = elim (find_campaign org id w) [ none ↦ (w, not_found) | some c ↦ f c ]

abbrev pub update_campaign : ℕ → (Campaign → Campaign) → World → World
update_campaign id f w = record w { campaigns = adjust id f w.campaigns }

abbrev pub may_start : CampaignStatus → Bool
may_start CampaignStatus.draft = true
may_start CampaignStatus.scheduled = true
may_start CampaignStatus.paused = true
may_start _ = false

abbrev pub started : ℕ → Campaign → Campaign
started now c = record c { status = CampaignStatus.processing; started_at = some now }

abbrev pub enqueue : List Job → World → World
enqueue jobs w = record w { queue = w.queue ++ jobs }

-- Back to a draft; an error of the update is ignored.
abbrev pub reverted : Faults → ℕ → World → World
reverted faults id w =
    if faults.revert_fails then w else update_campaign id (set_status CampaignStatus.draft) w

-- The end of StartCampaign: the update, and a job for each recipient.
unfoldable pub launch : Faults → ℕ → ℕ → ℕ → List Recipient → World → World × Reply
launch faults now org id rs w =
    if faults.update_fails
    then (w, internal_error)
    else let w' = update_campaign id (started now) w in
      if faults.enqueue_fails
      then (
        reverted faults id (enqueue (select faults.enqueued (map (job_of id org) rs)) w'),
        internal_error,
      )
      else (enqueue (map (job_of id org) rs) w', ok)

unfoldable pub start_campaign_found : Env → Faults → ℕ → ℕ → ℕ → World → Campaign → World × Reply
unfolding launch
start_campaign_found env faults now org id w c =
    let rs = pending_of id w.recipients in
    if not (may_start c.status)
    then (w, wrong_state)
    else if faults.load_fails
    then (w, internal_error)
    else if nat_eq (length rs) 0
    then (w, no_recipients)
    else elim (guardrails env org c.template_id c.account w.templates rs) [
      | some e ↦ (w, refused e)
      | none ↦ launch faults now org id rs w
    ]

unfoldable pub start_campaign : Env → Faults → ℕ → ℕ → ℕ → World → World × Reply
unfolding with_campaign
start_campaign env faults now org id w =
    with_campaign org id (start_campaign_found env faults now org id w) w

abbrev pub may_pause : CampaignStatus → Bool
may_pause CampaignStatus.processing = true
may_pause CampaignStatus.queued = true
may_pause _ = false

unfoldable pub pause_campaign_found : Faults → ℕ → World → Campaign → World × Reply
pause_campaign_found faults id w c =
    if not (may_pause c.status)
    then (w, wrong_state)
    else if faults.update_fails
    then (w, internal_error)
    else (update_campaign id (set_status CampaignStatus.paused) w, ok)

unfoldable pub pause_campaign : Faults → ℕ → ℕ → World → World × Reply
unfolding with_campaign
pause_campaign faults org id w = with_campaign org id (pause_campaign_found faults id w) w

abbrev pub is_finished : CampaignStatus → Bool
is_finished CampaignStatus.completed = true
is_finished CampaignStatus.cancelled = true
is_finished _ = false

unfoldable pub cancel_campaign_found : Faults → ℕ → World → Campaign → World × Reply
cancel_campaign_found faults id w c =
    if is_finished c.status
    then (w, wrong_state)
    else if faults.update_fails
    then (w, internal_error)
    else (update_campaign id (set_status CampaignStatus.cancelled) w, ok)

unfoldable pub cancel_campaign : Faults → ℕ → ℕ → World → World × Reply
unfolding with_campaign
cancel_campaign faults org id w = with_campaign org id (cancel_campaign_found faults id w) w

-- The columns of the recount.
abbrev pub counts_sent : MessageStatus → Bool
counts_sent MessageStatus.sent = true
counts_sent MessageStatus.delivered = true
counts_sent MessageStatus.read = true
counts_sent _ = false

abbrev pub counts_delivered : MessageStatus → Bool
counts_delivered MessageStatus.delivered = true
counts_delivered MessageStatus.read = true
counts_delivered _ = false

abbrev pub counts_read : MessageStatus → Bool
counts_read MessageStatus.read = true
counts_read _ = false

abbrev pub count_messages : ℕ → (MessageStatus → Bool) → List Message → ℕ
count_messages id p ms = length (select (λ (m : Message). nat_eq m.campaign_id id && p m.status) ms)

abbrev pub recount : ℕ → List Message → Campaign → Campaign
recount id ms c = record c {
  sent_count = count_messages id counts_sent ms;
  delivered_count = count_messages id counts_delivered ms;
  read_count = count_messages id counts_read ms;
  failed_count = count_messages id is_failed ms;
}

unfoldable pub recalculate_campaign_stats : ℕ → World → World
recalculate_campaign_stats id w = update_campaign id (recount id w.messages) w

abbrev pub may_retry : CampaignStatus → Bool
may_retry CampaignStatus.completed = true
may_retry CampaignStatus.paused = true
may_retry CampaignStatus.failed = true
may_retry _ = false

abbrev pub reset_recipient : ℕ → Recipient → Recipient
reset_recipient id r =
    if nat_eq r.campaign_id id && is_failed r.status
    then record r { status = MessageStatus.pending; error_message = [] }
    else r

abbrev pub reset_message : ℕ → Message → Message
reset_message id m =
    if nat_eq m.campaign_id id && is_failed m.status
    then record m { status = MessageStatus.pending; error_message = [] }
    else m

-- RetryFailed past its checks: `rs` are the failed recipients.
unfoldable pub retry_all : Faults → ℕ → ℕ → List Recipient → World → World × Reply
unfolding recalculate_campaign_stats
retry_all faults org id rs w =
    if faults.reset_fails
    then (w, internal_error)
    else let w1 = recalculate_campaign_stats id (record w {
      recipients = map (reset_recipient id) w.recipients;
      messages = map (reset_message id) w.messages;
    }) in
      if faults.update_fails
      then (w1, internal_error)
      else let w2 = update_campaign id (set_status CampaignStatus.processing) w1 in
        if faults.enqueue_fails
        then (enqueue (select faults.enqueued (map (job_of id org) rs)) w2, internal_error)
        else (enqueue (map (job_of id org) rs) w2, ok)

unfoldable pub retry_failed_found : Faults → ℕ → ℕ → World → Campaign → World × Reply
unfolding retry_all
retry_failed_found faults org id w c =
    let rs = failed_of id w.recipients in
    if not (may_retry c.status)
    then (w, wrong_state)
    else if faults.load_fails
    then (w, internal_error)
    else if nat_eq (length rs) 0
    then (w, no_recipients)
    else retry_all faults org id rs w

unfoldable pub retry_failed : Faults → ℕ → ℕ → World → World × Reply
unfolding with_campaign
retry_failed faults org id w = with_campaign org id (retry_failed_found faults org id w) w

-- ===== src/Campaign/Samples.antt =====
-- internal/handlers/campaigns.go and internal/worker/worker.go: two small campaigns, and the
-- theorems at them.
use trt_whats.Common.{
  ℕ, ◌≡◌, refl, true, false, List, [], ◌∷◌, none, some, Text, codes, Map, lookup, text_eq, insert,
  All, nat_eq_on, ◌≢◌, ◌⊎◌,
}
use trt_whats.Strconv.Trim.{trim_space}
use trt_whats.TemplateUtil.{
  ext_param_names, ext_loop, find_all, param_at, capture, resolve_from, resolve_params_from_map,
  resolve_params,
}
use trt_whats.Json.{Value, null, str}
use trt_whats.Contacts.{Contact, get_or_create_contact}
use trt_whats.Contacts.Find.{updates}
use trt_whats.Campaign.{
  CampaignStatus, MessageStatus, Template, Campaign, Recipient, Job, Message, World, Env, job_of,
  adjust,
}
use trt_whats.Campaign.Guard.{
  check_template, check_variables, count_missing, is_incomplete, body_incomplete, header_incomplete,
  header_name, header_value, guardrails, guardrails_pass, guardrails_missing_header, IsFilled,
}
use trt_whats.Campaign.Handlers.{
  Faults, ok, internal_error, start_campaign, start_campaign_found, launch, started,
}
use trt_whats.Campaign.Worker.{handle_recipient_job, settle}
use trt_whats.Campaign.Launch.{start_campaign_error}
use trt_whats.Campaign.Events.{Event, run, sends_of}
use trt_whats.Campaign.Cancelled.{run-cancelled}
use trt_whats.Campaign.Delivery.{
  handle_recipient_job_refused, handle_recipient_job_sends, settle_row,
}

abbrev print : Value → Text
print null = codes "<nil>"
print (str s) = s
print _ = []

abbrev env : Env
env = record {
  sprint = print;
  equal_fold = text_eq;
  to_upper = λ s. s;
  send = λ now t job. (codes "wamid", []);
}

abbrev no_faults : Faults
no_faults = record {
  load_fails = false;
  update_fails = false;
  reset_fails = false;
  enqueue_fails = false;
  enqueued = λ j. true;
  revert_fails = false;
}

abbrev full_queue : Faults
full_queue = record no_faults { enqueue_fails = true; enqueued = λ j. false; revert_fails = true }

abbrev template : Template
template = record {
  org = 1;
  name = codes "hello";
  status = codes "APPROVED";
  account = codes "main";
  category = codes "MARKETING";
  body_content = codes "Hi {{1}}";
  header_type = codes "TEXT";
  header_content = [];
}

-- A template whose only variable is in its header.
abbrev headed : Template
headed = record template { body_content = codes "Hi"; header_content = codes "Dear {{1}}" }

abbrev templates : Map ℕ Template
templates = (4, template) ∷ (5, headed) ∷ []

abbrev campaign : ℕ → CampaignStatus → Campaign
campaign t s = record {
  org = 1;
  account = codes "main";
  template_id = t;
  status = s;
  sent_count = 0;
  delivered_count = 0;
  read_count = 0;
  failed_count = 0;
  started_at = none;
  completed_at = none;
}

abbrev recipient : ℕ → MessageStatus → Recipient
recipient n s = record {
  id = n;
  campaign_id = 7;
  phone_number = codes "+491";
  recipient_name = codes "Ann";
  template_params = (codes "1", str (codes "Ann")) ∷ [];
  header_params = [];
  status = s;
  whatsapp_message_id = [];
  error_message = [];
  sent_at = none;
}

abbrev bare : Recipient
bare = record (recipient 20 MessageStatus.pending) { template_params = [] }

abbrev ann : Contact
ann = record {
  id = 3;
  org = 1;
  phone_number = codes "491";
  profile_name = codes "Ann";
  deleted = false;
  marketing_opt_out = false;
}

abbrev world : CampaignStatus → World
world s = record {
  campaigns = (7, campaign 4 s) ∷ [];
  templates = templates;
  accounts = (codes "main", 1) ∷ [];
  contacts = ann ∷ [];
  recipients = recipient 20 MessageStatus.pending ∷ recipient 21 MessageStatus.sent ∷ [];
  messages = [];
  queue = [];
  published = [];
  sends = [];
}

abbrev job : Job
job = job_of 7 1 (recipient 20 MessageStatus.pending)

-- A job for a recipient whose message was sent.
abbrev second_job : Job
second_job = job_of 7 1 (recipient 21 MessageStatus.sent)

abbrev message : Message
message = record {
  org = 1;
  account = codes "main";
  contact_id = 3;
  campaign_id = 7;
  recipient_name = codes "Ann";
  whatsapp_message_id = codes "wamid";
  template_name = codes "hello";
  content = codes "Hi Ann";
  status = MessageStatus.sent;
  error_message = [];
}

guardrails_pass_example :
    (env.equal_fold template.status (codes "APPROVED") ≡ true)
    × (env.equal_fold template.account (codes "main") ≡ true)
    × All (IsFilled env template) (recipient 20 MessageStatus.pending ∷ [])
unfolding lookup text_eq ext_param_names ext_loop find_all param_at capture trim_space guardrails
    resolve_params resolve_params_from_map resolve_from check_template check_variables count_missing
    is_incomplete body_incomplete header_incomplete header_name
guardrails_pass_example =
    guardrails_pass env 1 4 (codes "main") templates (recipient 20 MessageStatus.pending ∷ []) refl
      refl refl refl

guardrails_missing_header_example : guardrails env 1 5 (codes "main") templates (bare ∷ []) ≡ none
unfolding lookup text_eq ext_param_names ext_loop find_all param_at capture trim_space header_value
guardrails_missing_header_example =
    guardrails_missing_header env 1 5 (codes "main") templates (bare ∷ []) refl refl refl refl refl
      refl (refl, tt)

not_ok : internal_error ≢ ok
not_ok h = cc

start_campaign_error_example :
    ((start_campaign env full_queue 100 1 7 (world CampaignStatus.paused)).0
      ≡ world CampaignStatus.paused)
    ⊎ ((true ≡ true)
        × ((start_campaign env full_queue 100 1 7 (world CampaignStatus.paused)).0.queue ≡ [])
        × (lookup 7
              (start_campaign env full_queue 100 1 7 (world CampaignStatus.paused)).0.campaigns
            ≡ some (started 100 (campaign 4 CampaignStatus.paused)))
        × ((start_campaign env full_queue 100 1 7 (world CampaignStatus.paused)).0.recipients
            ≡ (world CampaignStatus.paused).recipients))
unfolding lookup text_eq ext_param_names ext_loop find_all param_at capture trim_space
    resolve_params resolve_params_from_map resolve_from start_campaign start_campaign_found
    guardrails check_template check_variables count_missing is_incomplete body_incomplete
    header_incomplete header_name header_value launch adjust insert
start_campaign_error_example =
    start_campaign_error env full_queue 100 1 7 (world CampaignStatus.paused) not_ok

abbrev events : List Event
events =
    Event.starts no_faults 100 1 7
    ∷ Event.works 101 0 (updates none) job
    ∷ Event.retries no_faults 1 7
    ∷ Event.pauses no_faults 1 7
    ∷ []

run-cancelled_example :
    (lookup 7 (run env (world CampaignStatus.cancelled) events).campaigns
      ≡ some (campaign 4 CampaignStatus.cancelled))
    × (sends_of 7 (run env (world CampaignStatus.cancelled) events) ≡ [])
unfolding lookup
run-cancelled_example =
    run-cancelled env (world CampaignStatus.cancelled) events 7
      (campaign 4 CampaignStatus.cancelled) refl refl

-- Recipient 20 stays pending here, as the attempt was for recipient 21.
settle_row_example :
    lookup 7 (settle 100 second_job message (world CampaignStatus.processing)).campaigns
    ≡ some (record (campaign 4 CampaignStatus.processing) { sent_count = 1 })
unfolding lookup text_eq ext_param_names ext_loop find_all param_at capture trim_space settle adjust
    insert
settle_row_example =
    settle_row env 100 0 (updates none) second_job (world CampaignStatus.processing) message
      (campaign 4 CampaignStatus.processing) refl

handle_recipient_job_sends_example :
    (handle_recipient_job env 100 0
      (updates none)
      second_job
      (world CampaignStatus.processing)).0.sends
    ≡ second_job ∷ []
unfolding lookup text_eq ext_param_names ext_loop find_all param_at capture trim_space
    get_or_create_contact trt_whats.Contacts.first_unscoped
handle_recipient_job_sends_example =
    handle_recipient_job_sends env 100 0 (updates none) second_job (world CampaignStatus.processing)
      (campaign 4 CampaignStatus.processing) template refl refl refl refl refl

-- The only pending recipient's contact has opted out: nothing is pending afterwards.
abbrev opted_out : World
opted_out = record (world CampaignStatus.processing) {
  contacts = record ann { marketing_opt_out = true } ∷ [];
}

handle_recipient_job_refused_example :
    lookup 7 (handle_recipient_job env 100 0 (updates none) job opted_out).0.campaigns
    ≡ some (record (campaign 4 CampaignStatus.processing) { failed_count = 1 })
unfolding lookup text_eq ext_param_names ext_loop find_all param_at capture trim_space
    get_or_create_contact trt_whats.Contacts.first_unscoped
handle_recipient_job_refused_example =
    handle_recipient_job_refused env 100 0 (updates none) job opted_out
      (campaign 4 CampaignStatus.processing) refl refl refl

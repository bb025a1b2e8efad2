-- ===== src/Campaign/Worker.antt =====
-- internal/worker/worker.go: the handling of one job. Of sendTemplateMessage (with
-- pkg/whatsapp/message.go, HeaderTextParamsComponent and BuildTemplateComponents) the refusal of a
-- header with several variables is here, and the call of the Cloud API is the parameter `send`;
-- the media columns of the message row are left out. Updates of the tables are taken to succeed.
use trt_whats.Common.{
  ℕ, suc, ◌++◌, Bool, true, false, not, ◌&&◌, List, [], ◌∷◌, map, Option, none, some, if◌then◌else◌,
  nat_eq, ltb, Text, codes, lookup, any, length, ◌==◌, nat_eq_on, text_eq_on,
}
use trt_whats.TemplateUtil.{ext_param_names, replace_with_jsonb_params}
use trt_whats.Contacts.{Contact, Found, Insert, get_or_create_contact}
use trt_whats.Campaign.{
  CampaignStatus, MessageStatus, Template, Campaign, Recipient, Message, Job, Stats, World, Env,
  pending_of,
}
use trt_whats.Campaign.Handlers.{update_campaign}

pub data Outcome : Type 0 where
  done : Outcome
  load_error : Outcome  -- returned to the queue
  panics : Outcome  -- a nil template is dereferenced

abbrev pub is_stopped : CampaignStatus → Bool
is_stopped CampaignStatus.paused = true
is_stopped CampaignStatus.cancelled = true
is_stopped _ = false

-- updateRecipientStatus
abbrev pub with_status : ℕ → MessageStatus → Text → Text → Recipient → Recipient
with_status now s wid err r = record r {
  status = s;
  whatsapp_message_id = wid;
  error_message = if err == [] then r.error_message else err;
  sent_at = elim s [ MessageStatus.sent ↦ some now | _ ↦ r.sent_at ];
}

unfoldable pub update_recipient_status : ℕ → ℕ → MessageStatus → Text → Text → World → World
update_recipient_status now id s wid err w = record w {
  recipients = map (λ r. if nat_eq r.id id then with_status now s wid err r else r) w.recipients;
}

-- incrementCampaignCount, of the two columns that the worker counts in
abbrev pub count_failed : Campaign → Campaign
count_failed c = record c { failed_count = suc c.failed_count }

abbrev pub count_sent : Campaign → Campaign
count_sent c = record c { sent_count = suc c.sent_count }

-- A recipient that is given up before anything is sent.
unfoldable pub give_up : ℕ → Job → Text → World → World
unfolding update_recipient_status
give_up now job err w =
    update_campaign job.campaign_id count_failed
      (update_recipient_status now job.recipient_id MessageStatus.failed [] err w)

abbrev stats_of : Job → CampaignStatus → Campaign → Stats
stats_of job s c = record {
  campaign_id = job.campaign_id;
  org = job.org;
  status = s;
  sent_count = c.sent_count;
  delivered_count = c.delivered_count;
  read_count = c.read_count;
  failed_count = c.failed_count;
}

abbrev pub publish : Stats → World → World
publish s w = record w { published = w.published ++ s ∷ [] }

abbrev pub completed : ℕ → Campaign → Campaign
completed now c = record c { status = CampaignStatus.completed; completed_at = some now }

abbrev pub is_processing : CampaignStatus → Bool
is_processing CampaignStatus.processing = true
is_processing _ = false

-- publishCampaignStats
unfoldable pub publish_campaign_stats : Job → World → World
publish_campaign_stats job w = elim (lookup job.campaign_id w.campaigns) [
  | none ↦ w
  | some c ↦ publish (stats_of job c.status c) w
]

unfoldable pub complete : ℕ → Job → World → World
complete now job w = elim (lookup job.campaign_id w.campaigns) [
  | none ↦ w
  | some c ↦
      if not (is_processing c.status)
      then w
      else publish (stats_of job CampaignStatus.completed c)
          (update_campaign job.campaign_id (completed now) w)
]

-- checkCampaignCompletion
unfoldable pub check_campaign_completion : ℕ → Job → World → World
unfolding publish_campaign_stats complete
check_campaign_completion now job w =
    if nat_eq (length (pending_of job.campaign_id w.recipients)) 0
    then complete now job w
    else publish_campaign_stats job w

-- sendTemplateMessage: the message id, the error unless it is empty, and the calls made.
unfoldable pub send_template_message : Env → ℕ → Template → Job → World → Text × Text × World
send_template_message env now t job w =
    if (env.to_upper t.header_type == codes "TEXT")
      && ltb 1 (length (ext_param_names t.header_content))
    then ([], codes "failed to build template components", w)
    else let reply = env.send now t job in
      (reply.0, reply.1, record w { sends = w.sends ++ job ∷ [] })

abbrev message_row : Env → Template → Campaign → Contact → Job → Text → Text → Message
message_row env t c contact job wid err = record {
  org = job.org;
  account = c.account;
  contact_id = contact.id;
  campaign_id = job.campaign_id;
  recipient_name = job.recipient_name;
  whatsapp_message_id = wid;
  template_name = t.name;
  content = replace_with_jsonb_params env.sprint t.body_content t.body_content job.template_params;
  status = if err == [] then MessageStatus.sent else MessageStatus.failed;
  error_message = err;
}

-- What follows the attempt: the recipient's status, the counter, the message row.
unfoldable pub attempted : ℕ → Job → Message → World → World
unfolding update_recipient_status
attempted now job m w =
    let w1 =
      if m.error_message == []
      then update_campaign job.campaign_id count_sent (
          update_recipient_status now job.recipient_id MessageStatus.sent m.whatsapp_message_id []
            w)
      else update_campaign job.campaign_id count_failed (
          update_recipient_status now job.recipient_id MessageStatus.failed [] m.error_message w) in
    record w1 { messages = w1.messages ++ m ∷ [] }

unfoldable pub settle : ℕ → Job → Message → World → World
unfolding attempted check_campaign_completion
settle now job m w = check_campaign_completion now job (attempted now job m w)

unfoldable pub deliver :
    Env → ℕ → Campaign → Option Template → Contact → Job → World → World × Outcome
unfolding send_template_message settle
deliver env now c none contact job w = (w, panics)
deliver env now c (some t) contact job w =
    let (wid, err, w1) = send_template_message env now t job w in
    (settle now job (message_row env t c contact job wid err) w1, done)

abbrev pub is_marketing : Env → Option Template → Bool
is_marketing env none = false
is_marketing env (some t) = env.equal_fold t.category (codes "MARKETING")

abbrev pub has_account : Text → ℕ → List (Text × ℕ) → Bool
has_account name org = any (λ a. (a.0 == name) && nat_eq a.1 org)

-- The contact is found or created, and the message is sent unless the contact has opted out.
unfoldable pub process_contact :
    Env → ℕ → Campaign → Option Template → Job → Option Found → World → World × Outcome
unfolding give_up deliver
process_contact env now c t job none w =
    (give_up now job (codes "Failed to create contact") w, done)
process_contact env now c t job (some f) w =
    if f.contact.marketing_opt_out && is_marketing env t
    then (give_up now job (codes "Contact opted out of marketing messages") w, done)
    else deliver env now c t f.contact job w

-- HandleRecipientJob past the loading of the campaign. `fresh` is a new contact's id, and `insert`
-- what becomes of its insertion.
unfoldable pub process_job : Env → ℕ → ℕ → Insert → Job → Campaign → World → World × Outcome
unfolding process_contact
process_job env now fresh insert job c w =
    if is_stopped c.status
    then (w, done)
    else if not (has_account c.account job.org w.accounts)
    then (give_up now job (codes "WhatsApp account not found") w, done)
    else let (found, contacts) =
        get_or_create_contact fresh insert job.org job.phone_number job.recipient_name w.contacts in
      process_contact env now c (lookup c.template_id w.templates) job found
        (record w { contacts = contacts })

unfoldable pub handle_recipient_job : Env → ℕ → ℕ → Insert → Job → World → World × Outcome
unfolding process_job
handle_recipient_job env now fresh insert job w = elim (lookup job.campaign_id w.campaigns) [
  | none ↦ (w, load_error)
  | some c ↦ process_job env now fresh insert job c w
]

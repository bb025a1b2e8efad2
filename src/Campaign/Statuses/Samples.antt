-- ===== src/Campaign/Statuses/Samples.antt =====
-- internal/handlers/webhook.go: the theorems at a few reports of two messages.
use trt_whats.Common.{
  ℕ, ◌≡◌, ◌≢◌, refl, false, true, List, [], ◌∷◌, none, some, Text, codes, Map, lookup, arith,
  text_eq, text_eq_on, nat_eq_on,
}
use trt_whats.Campaign.{World, Message, Campaign, CampaignStatus, MessageStatus}
use trt_whats.Campaign.Statuses.{StatusEnv, update_message_status}
use trt_whats.Campaign.Progress.{
  AllRise, Report, run_reports, run_reports-AllRise, update_message_status_recounts,
}

abbrev env : StatusEnv
env = record { update_fails = false; stat_fails = false; recipients_fail = false; has_hub = true }

abbrev campaign : Campaign
campaign = record {
  org = 1;
  account = codes "main";
  template_id = 4;
  status = CampaignStatus.processing;
  sent_count = 2;
  delivered_count = 0;
  read_count = 0;
  failed_count = 1;
  started_at = none;
  completed_at = none;
}

abbrev message : Text → MessageStatus → Message
message id s = record {
  org = 1;
  account = codes "main";
  contact_id = 3;
  campaign_id = 7;
  recipient_name = codes "Ann";
  whatsapp_message_id = id;
  template_name = codes "hello";
  content = codes "Hi Ann";
  status = s;
  error_message = [];
}

abbrev world : MessageStatus → MessageStatus → World
world s t = record {
  campaigns = (7, campaign) ∷ [];
  templates = [];
  accounts = [];
  contacts = [];
  recipients = [];
  messages = message (codes "a") s ∷ message (codes "b") t ∷ [];
  queue = [];
  published = [];
  sends = [];
}

abbrev report : Text → Text → Report
report id value = record { env = env; id = id; value = value; errors = [] }

abbrev reports : List Report
reports =
    report (codes "a") (codes "read")
    ∷ report (codes "a") (codes "delivered")
    ∷ report (codes "b") (codes "failed")
    ∷ []

-- A report of the delivery that comes after that of the reading is ignored.
late_delivery :
    (run_reports reports (world MessageStatus.sent MessageStatus.sent)).messages
    ≡ message (codes "a") MessageStatus.read ∷ message (codes "b") MessageStatus.failed ∷ []
unfolding update_message_status trt_whats.Common.text_eq lookup trt_whats.Campaign.adjust
    trt_whats.Common.insert
late_delivery = refl

run_reports-AllRise_example :
    AllRise
      (world MessageStatus.sent MessageStatus.sent).messages
      (run_reports reports (world MessageStatus.sent MessageStatus.sent)).messages
run_reports-AllRise_example =
    run_reports-AllRise reports (world MessageStatus.sent MessageStatus.sent)

seven : ◌≢◌ {A = ℕ} 7 0
seven h = ground arith

-- The message has failed before, and is counted as one more failure.
update_message_status_recounts_example :
    lookup 7
      (update_message_status env
        (codes "b")
        (codes "failed")
        []
        (world MessageStatus.sent MessageStatus.failed)).0.campaigns
    ≡ some (record campaign { failed_count = 2 })
unfolding text_eq lookup
update_message_status_recounts_example =
    update_message_status_recounts env (codes "b") []
      (world MessageStatus.sent MessageStatus.failed) (message (codes "b") MessageStatus.failed)
      campaign refl seven refl refl refl

-- ===== src/Campaign.antt =====
-- internal/models/bulk.go, and the tables that internal/handlers/campaigns.go and
-- internal/worker/worker.go work on. A table with a primary key that is looked up is a map; rows
-- that are only selected and updated together are lists. Times are numbers.
pub mod Guard
pub mod Handlers
pub mod Worker
pub mod Launch
pub mod Delivery
pub mod Events
pub mod Kept
pub mod Cancelled
pub mod Statuses
pub mod Progress
mod Samples
use trt_whats.Common.{
  ℕ, suc, ◌+◌, ◌++◌, ◌≡◌, refl, Bool, true, false, not, ◌&&◌, List, [], ◌∷◌, map, Option, none,
  some, if◌then◌else◌, nat_eq, Text, Map, lookup, insert, lookup-insert, select, length, ◌==◌,
  nat_eq_on, nat_eq_iff, arith, Option-cases, inl, inr, contains,
}
use trt_whats.Json.{Value, Data}
use trt_whats.Contacts.{Contact}

pub data CampaignStatus : Type 0 where
  draft scheduled queued processing paused completed cancelled failed : CampaignStatus

pub data MessageStatus : Type 0 where
  pending sent delivered read failed received : MessageStatus

-- uuid.Nil is 0.
pub record Template : Type 0 where
  pub org : ℕ
  pub name : Text
  pub status : Text
  pub account : Text
  pub category : Text
  pub body_content : Text
  pub header_type : Text
  pub header_content : Text

pub record Campaign : Type 0 where
  pub org : ℕ
  pub account : Text
  pub template_id : ℕ
  pub status : CampaignStatus
  pub sent_count : ℕ
  pub delivered_count : ℕ
  pub read_count : ℕ
  pub failed_count : ℕ
  pub started_at : Option ℕ
  pub completed_at : Option ℕ

pub record Recipient : Type 0 where
  pub id : ℕ
  pub campaign_id : ℕ
  pub phone_number : Text
  pub recipient_name : Text
  pub template_params : Data
  pub header_params : Data
  pub status : MessageStatus
  pub whatsapp_message_id : Text
  pub error_message : Text
  pub sent_at : Option ℕ

-- queue.RecipientJob
pub record Job : Type 0 where
  pub campaign_id : ℕ
  pub recipient_id : ℕ
  pub org : ℕ
  pub phone_number : Text
  pub recipient_name : Text
  pub template_params : Data
  pub header_params : Data

-- A row of the messages table, with the campaign that its metadata names.
pub record Message : Type 0 where
  pub org : ℕ
  pub account : Text
  pub contact_id : ℕ
  pub campaign_id : ℕ
  pub recipient_name : Text
  pub whatsapp_message_id : Text
  pub template_name : Text
  pub content : Text
  pub status : MessageStatus
  pub error_message : Text

-- queue.CampaignStatsUpdate
pub record Stats : Type 0 where
  pub campaign_id : ℕ
  pub org : ℕ
  pub status : CampaignStatus
  pub sent_count : ℕ
  pub delivered_count : ℕ
  pub read_count : ℕ
  pub failed_count : ℕ

pub record World : Type 0 where
  pub campaigns : Map ℕ Campaign
  pub templates : Map ℕ Template
  pub accounts : List (Text × ℕ)  -- name, organization
  pub contacts : List Contact
  pub recipients : List Recipient
  pub messages : List Message
  pub queue : List Job
  pub published : List Stats
  pub sends : List Job  -- the calls of the Cloud API so far

-- What is not under the repository's control.
pub record Env : Type 0 where
  pub sprint : Value → Text  -- fmt.Sprintf("%v", v)
  pub equal_fold : Text → Text → Bool  -- strings.EqualFold
  pub to_upper : Text → Text  -- strings.ToUpper
  pub send : ℕ → Template → Job → Text × Text  -- the Cloud API: a message id, and an error unless it is empty

-- An update of the row with a primary key: nothing where there is no row.
unfoldable pub adjust {ℓ} : {A : Type ℓ} → ℕ → (A → A) → Map ℕ A → Map ℕ A
adjust k f m = elim (lookup k m) [ none ↦ m | some a ↦ insert k (f a) m ]

abbrev pub map_option {ℓ κ} : {A : Type ℓ} {B : Type κ} → (A → B) → Option A → Option B
map_option f none = none
map_option f (some a) = some (f a)

pub lookup-adjust {ℓ} :
    {A : Type ℓ} (k j : ℕ) (f : A → A) (m : Map ℕ A)
    → lookup j (adjust k f m) ≡ (if k == j then map_option f (lookup j m) else lookup j m)
unfolding adjust
lookup-adjust k j f m = elim (Option-cases (lookup k m)) [
  | inl e ↦ rw (e, adjust) (ground (arith, nat_eq_iff k j))
  | inr (a, e) ↦ rw (e, adjust) (ground (arith, nat_eq_iff k j, lookup-insert k j (f a) m))
]

abbrev pub is_pending : MessageStatus → Bool
is_pending pending = true
is_pending _ = false

abbrev pub is_failed : MessageStatus → Bool
is_failed MessageStatus.failed = true
is_failed _ = false

-- The rows of a campaign with a status.
abbrev pub pending_of : ℕ → List Recipient → List Recipient
pending_of id = select (λ r. nat_eq r.campaign_id id && is_pending r.status)

abbrev pub failed_of : ℕ → List Recipient → List Recipient
failed_of id = select (λ r. nat_eq r.campaign_id id && is_failed r.status)

abbrev pub job_of : ℕ → ℕ → Recipient → Job
job_of id org r = record {
  campaign_id = id;
  recipient_id = r.id;
  org = org;
  phone_number = r.phone_number;
  recipient_name = r.recipient_name;
  template_params = r.template_params;
  header_params = r.header_params;
}

abbrev pub set_status : CampaignStatus → Campaign → Campaign
set_status s c = record c { status = s }

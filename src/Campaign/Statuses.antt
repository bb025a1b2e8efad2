-- ===== src/Campaign/Statuses.antt =====
-- internal/handlers/webhook.go, updateMessageStatus, with incrementCampaignStat of
-- internal/handlers/campaigns.go: what the platform reports of a message that was sent. Of a
-- recipient, the times of delivery and reading are left out. A row that is updated by its primary
-- key is the first one with the platform's id, as found. Logging is left out.
-- A report is one step: its read and its write are not separated.
mod Samples
use trt_whats.Common.{
  ℕ, suc, Bool, true, false, not, ◌||◌, ◌&&◌, List, [], ◌∷◌, ◌++◌, map, Option, none, some,
  if◌then◌else◌, nat_eq, Text, codes, lookup, ℤ, pos, negsuc, leb_ℤ, ◌==◌, text_eq_on, nat_eq_on,
}
use trt_whats.Campaign.{
  World, Message, Recipient, Campaign, MessageStatus, pending, sent, delivered, read, received,
  is_failed,
}
use trt_whats.Campaign.Handlers.{update_campaign}

-- One of a report's errors.
pub record StatusError : Type 0 where
  pub title : Text
  pub message : Text
  pub details : Text

-- What the environment makes of the calls, and whether there is a hub to tell.
pub record StatusEnv : Type 0 where
  pub update_fails : Bool
  pub stat_fails : Bool
  pub recipients_fail : Bool
  pub has_hub : Bool

-- What is told to the organization of the row that it holds.
pub data StatusNotice : Type 0 where
  stats_update : ℕ → Campaign → StatusNotice
  status_update : Message → Text → Text → StatusNotice

-- A status by its text; `none` is any other text.
unfoldable pub status_of : Text → Option MessageStatus
status_of t =
    if t == codes "pending"
    then some pending
    else if t == codes "sent"
    then some sent
    else if t == codes "delivered"
    then some delivered
    else if t == codes "read"
    then some read
    else if t == codes "failed"
    then some MessageStatus.failed
    else if t == codes "received"
    then some received
    else none

abbrev pub status_priority : Option MessageStatus → ℤ
status_priority (some pending) = pos 0
status_priority (some sent) = pos 1
status_priority (some delivered) = pos 2
status_priority (some read) = pos 3
status_priority (some MessageStatus.failed) = pos 4
status_priority _ = negsuc 0

abbrev pub has_failed : Option MessageStatus → Bool
has_failed none = false
has_failed (some s) = is_failed s

abbrev pub is_ignored : MessageStatus → Option MessageStatus → Bool
is_ignored current new =
    leb_ℤ (status_priority new) (status_priority (some current)) && not (has_failed new)

-- The statuses that a report can set.
abbrev pub settable : Option MessageStatus → Option MessageStatus
settable (some sent) = some sent
settable (some delivered) = some delivered
settable (some read) = some read
settable (some MessageStatus.failed) = some MessageStatus.failed
settable _ = none

abbrev pub error_text : StatusError → Text
error_text e =
    let text = if e.details == [] then e.message else e.details in
    if text == [] || text == e.title then e.title else text

-- updates["error_message"], where it is set.
abbrev pub error_of : MessageStatus → List StatusError → Option Text
error_of MessageStatus.failed (e ∷ es) = some (error_text e)
error_of _ _ = none

abbrev pub or_old : Text → Option Text → Text
or_old old none = old
or_old old (some t) = t

abbrev pub find_message : Text → List Message → Option Message
find_message id [] = none
find_message id (m ∷ ms) =
    let rest = find_message id ms in if m.whatsapp_message_id == id then some m else rest

abbrev pub write_status : Text → MessageStatus → Option Text → List Message → List Message
write_status id s error [] = []
write_status id s error (m ∷ ms) =
    let rest = write_status id s error ms in
    if m.whatsapp_message_id == id
    then record m { status = s; error_message = or_old m.error_message error } ∷ ms
    else m ∷ rest

-- The counter of a status: a message that is sent has been counted by the worker.
abbrev pub with_counter : MessageStatus → Campaign → Option Campaign
with_counter delivered c = some (record c { delivered_count = suc c.delivered_count })
with_counter read c = some (record c { read_count = suc c.read_count })
with_counter MessageStatus.failed c = some (record c { failed_count = suc c.failed_count })
with_counter _ c = none

unfoldable pub increment_campaign_stat :
    StatusEnv → ℕ → MessageStatus → World → World × List StatusNotice
increment_campaign_stat env id s w = elim (lookup id w.campaigns) [
  | none ↦ (w, [])
  | some c ↦ elim (with_counter s c) [
    | none ↦ (w, [])
    | some c' ↦
        if env.stat_fails
        then (w, [])
        else (update_campaign id (λ _. c') w, if env.has_hub then stats_update id c' ∷ [] else [])
  ]
]

-- An empty error is not written.
abbrev pub nonempty_or : Text → Option Text → Text
nonempty_or old none = old
nonempty_or old (some t) = if t == [] then old else t

abbrev pub write_recipient : Text → MessageStatus → Option Text → Recipient → Recipient
write_recipient id s error r =
    if r.whatsapp_message_id == id
    then record r { status = s; error_message = nonempty_or r.error_message error }
    else r

unfoldable pub update_recipients : StatusEnv → Text → MessageStatus → Option Text → World → World
update_recipients env id s error w =
    if env.recipients_fail
    then w
    else record w { recipients = map (write_recipient id s error) w.recipients }

-- The campaign and the recipient of a message that names a campaign.
unfoldable pub update_of_campaign :
    StatusEnv → Text → MessageStatus → Option Text → Message → World → World × List StatusNotice
unfolding increment_campaign_stat update_recipients
update_of_campaign env id s error m w =
    if nat_eq m.campaign_id 0
    then (w, [])
    else let (w', told) = increment_campaign_stat env m.campaign_id s w in
      (update_recipients env id s error w', told)

-- The update of the row m that was found, past its checks.
unfoldable pub set_message_status :
    StatusEnv
    → Text
    → Text
    → MessageStatus
    → Option Text
    → Message
    → World
    → World × List StatusNotice
unfolding update_of_campaign
set_message_status env id value s error m w =
    if env.update_fails
    then (w, [])
    else let (w', told) =
        update_of_campaign env id s error m
          (record w { messages = write_status id s error w.messages }) in
      (w', told ++ (if env.has_hub then status_update m value (nonempty_or [] error) ∷ [] else []))

unfoldable pub update_message_status :
    StatusEnv → Text → Text → List StatusError → World → World × List StatusNotice
unfolding set_message_status status_of
update_message_status env id value errors w = elim (find_message id w.messages) [
  | none ↦ (w, [])
  | some m ↦
      let new = status_of value in
      if is_ignored m.status new then (w, []) else elim (settable new) [
        | none ↦ (w, [])
        | some s ↦ set_message_status env id value s (error_of s errors) m w
      ]
]

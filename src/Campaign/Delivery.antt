-- ===== src/Campaign/Delivery.antt =====
-- internal/worker/worker.go: when a job sends, what it leaves of the campaign, and when the
-- campaign is completed.
use trt_whats.Common.{
  ℕ, ◌++◌, ◌≡◌, refl, ap, ◌∙◌, inl, inr, Bool, true, false, not, ◌&&◌, [], ◌∷◌, Option, none, some,
  if◌then◌else◌, nat_eq, ltb, Text, codes, lookup, length, ◌==◌, ==_refl, nat_eq_on, text_eq_on,
  arith, Bool-cases,
}
use trt_whats.TemplateUtil.{ext_param_names}
use trt_whats.Contacts.{Found, Insert, get_or_create_contact}
use trt_whats.Campaign.{
  MessageStatus, Template, Campaign, Message, Job, World, Env, lookup-adjust, map_option,
  pending_of,
}
use trt_whats.Campaign.Handlers.{update_campaign}
use trt_whats.Campaign.Worker.{
  is_stopped, has_account, is_marketing, is_processing, count_failed, count_sent, completed,
  give_up, update_recipient_status, complete, publish_campaign_stats, check_campaign_completion,
  attempted, send_template_message, settle, deliver, process_contact, process_job,
  handle_recipient_job,
}

-- Whether a contact may be sent a template.
abbrev pub accepts : Env → Option Template → Option Found → Bool
accepts env t none = false
accepts env t (some f) = not (f.contact.marketing_opt_out && is_marketing env t)

module _ (env : Env) (now fresh : ℕ) (insert : Insert) (job : Job) (w : World) where
  abbrev pub contact_found : Option Found
  contact_found =
      (get_or_create_contact fresh insert job.org job.phone_number job.recipient_name w.contacts).0

  true_of_not : (b : Bool) → not b ≡ false → b ≡ true
  true_of_not b h = ground arith

  false_of_not : (b : Bool) → not b ≡ true → b ≡ false
  false_of_not b h = ground arith

  and_false : (b : Bool) → (b && false) ≡ false
  and_false b = ground arith

  -- Whether a job of a campaign comes as far as sending.
  abbrev pub reaches_send : Campaign → Bool
  reaches_send c =
      has_account c.account job.org w.accounts
      && accepts env (lookup c.template_id w.templates) contact_found

  lookup-give_up :
      (err : Text) (v : World) {c : Campaign}
      → lookup job.campaign_id v.campaigns ≡ some c
      → lookup job.campaign_id (give_up now job err v).campaigns ≡ some (count_failed c)
  unfolding give_up update_recipient_status
  lookup-give_up err v e =
      lookup-adjust job.campaign_id job.campaign_id count_failed v.campaigns
      ∙ rw (==_refl job.campaign_id) (ap (map_option count_failed) e)

  process_contact_refused :
      (c : Campaign) (t : Option Template) (found : Option Found) (v : World)
      → lookup job.campaign_id v.campaigns ≡ some c
      → accepts env t found ≡ false
      → lookup job.campaign_id (process_contact env now c t job found v).0.campaigns
        ≡ some (count_failed c)
  unfolding process_contact
  process_contact_refused c t none v e r = lookup-give_up (codes "Failed to create contact") v e
  process_contact_refused c t (some f) v e r =
      rw (true_of_not (f.contact.marketing_opt_out && is_marketing env t) r)
        (lookup-give_up (codes "Contact opted out of marketing messages") v e)

  -- A job of a campaign that is neither paused nor cancelled, whose account is missing, whose contact
  -- is neither found nor created, or whose contact has opted out of a marketing template, counts a
  -- failure and leaves the rest of the campaign's row as it is, also where
  -- no recipient is pending any more.
  pub handle_recipient_job_refused :
      (c : Campaign)
      → lookup job.campaign_id w.campaigns ≡ some c
      → is_stopped c.status ≡ false
      → reaches_send c ≡ false
      → lookup job.campaign_id (handle_recipient_job env now fresh insert job w).0.campaigns
        ≡ some (count_failed c)
  unfolding handle_recipient_job process_job
  handle_recipient_job_refused c e s r =
      rw (e, handle_recipient_job)
        (rw (s, process_job)
          (elim (Bool-cases (has_account c.account job.org w.accounts)) [
            | inr n ↦ rw (n, process_job) (lookup-give_up (codes "WhatsApp account not found") w e)
            | inl y ↦
                rw (y, process_job)
                  (process_contact_refused c (lookup c.template_id w.templates) contact_found _ e
                    (ground (arith, y)))
          ]))

  check_campaign_completion_sends :
      (v : World) → (check_campaign_completion now job v).sends ≡ v.sends
  unfolding check_campaign_completion complete publish_campaign_stats
  check_campaign_completion_sends v = ground arith

  attempted_sends : (m : Message) (v : World) → (attempted now job m v).sends ≡ v.sends
  unfolding attempted update_recipient_status
  attempted_sends m v = ground arith

  settle_sends : (m : Message) (v : World) → (settle now job m v).sends ≡ v.sends
  unfolding settle
  settle_sends m v = check_campaign_completion_sends (attempted now job m v) ∙ attempted_sends m v

  process_contact_sends :
      (c : Campaign) (t : Template) (found : Option Found) (v : World)
      → ltb 1 (length (ext_param_names t.header_content)) ≡ false
      → accepts env (some t) found ≡ true
      → (process_contact env now c (some t) job found v).0.sends ≡ v.sends ++ job ∷ []
  unfolding process_contact deliver send_template_message
  process_contact_sends c t none v k a = cc
  process_contact_sends c t (some f) v k a =
      rw (false_of_not (f.contact.marketing_opt_out && is_marketing env (some t)) a) (
        settle_sends _ (send_template_message env now t job v).2
        ∙ rw (k, and_false (env.to_upper t.header_type == codes "TEXT")) refl)

  -- A job of a campaign that is neither paused nor cancelled, with its account, a contact that may
  -- be sent to, and a template with at most one variable in its header, calls the Cloud API once,
  -- whatever the status of its recipient.
  pub handle_recipient_job_sends :
      (c : Campaign) (t : Template)
      → lookup job.campaign_id w.campaigns ≡ some c
      → is_stopped c.status ≡ false
      → reaches_send c ≡ true
      → lookup c.template_id w.templates ≡ some t
      → ltb 1 (length (ext_param_names t.header_content)) ≡ false
      → (handle_recipient_job env now fresh insert job w).0.sends ≡ w.sends ++ job ∷ []
  unfolding handle_recipient_job process_job
  handle_recipient_job_sends c t e s r h k =
      let known : has_account c.account job.org w.accounts ≡ true = ground (arith, r) in
      let fine : accepts env (lookup c.template_id w.templates) contact_found ≡ true =
        ground (arith, r) in
      rw (e, handle_recipient_job)
        (rw (s, process_job)
          (rw (known, h) (process_contact_sends c t contact_found _ k (rw (← h) fine))))

  abbrev pub counted : Message → Campaign → Campaign
  counted m c = if m.error_message == [] then count_sent c else count_failed c

  -- What the campaign becomes after an attempt to send.
  abbrev pub after : Message → Campaign → Campaign
  after m c =
      if nat_eq (length (pending_of job.campaign_id (settle now job m w).recipients)) 0
        && is_processing c.status
      then completed now (counted m c)
      else counted m c

  check_campaign_completion_row :
      (v : World) {c : Campaign}
      → lookup job.campaign_id v.campaigns ≡ some c
      → lookup job.campaign_id (check_campaign_completion now job v).campaigns
        ≡ some (
            if nat_eq (length (pending_of job.campaign_id v.recipients)) 0 && is_processing c.status
            then completed now c
            else c)
  unfolding check_campaign_completion complete publish_campaign_stats
  check_campaign_completion_row v e = ground (
    arith,
    lookup-adjust job.campaign_id job.campaign_id (completed now) v.campaigns,
    ==_refl job.campaign_id,
  )

  check_campaign_completion_recipients :
      (v : World) → (check_campaign_completion now job v).recipients ≡ v.recipients
  unfolding check_campaign_completion complete publish_campaign_stats
  check_campaign_completion_recipients v = ground arith

  counted_row :
      (f : Campaign → Campaign) (v : World) {c : Campaign}
      → lookup job.campaign_id v.campaigns ≡ some c
      → lookup job.campaign_id (update_campaign job.campaign_id f v).campaigns ≡ some (f c)
  counted_row f v e =
      lookup-adjust job.campaign_id job.campaign_id f v.campaigns
      ∙ rw (==_refl job.campaign_id) (ap (map_option f) e)

  is_processing-counted :
      (m : Message) (c : Campaign) → is_processing (counted m c).status ≡ is_processing c.status
  is_processing-counted m c = ground arith

  attempted_row :
      (m : Message) (c : Campaign)
      → lookup job.campaign_id w.campaigns ≡ some c
      → lookup job.campaign_id (attempted now job m w).campaigns ≡ some (counted m c)
  unfolding attempted update_recipient_status
  attempted_row m c e = elim (Bool-cases (m.error_message == [])) [
    | inl h ↦ rw h (
        counted_row count_sent
          (update_recipient_status now job.recipient_id MessageStatus.sent m.whatsapp_message_id []
            w)
          e)
    | inr h ↦ rw h (
        counted_row count_failed
          (update_recipient_status now job.recipient_id MessageStatus.failed [] m.error_message w)
          e)
  ]

  -- After an attempt to send, successful or not, the campaign has one message more sent or failed,
  -- and it is completed exactly if it was processing and none of its recipients is pending.
  pub settle_row :
      (m : Message) (c : Campaign)
      → lookup job.campaign_id w.campaigns ≡ some c
      → lookup job.campaign_id (settle now job m w).campaigns ≡ some (after m c)
  unfolding settle
  settle_row m c e =
      check_campaign_completion_row (attempted now job m w) (attempted_row m c e)
      ∙ rw (check_campaign_completion_recipients (attempted now job m w), is_processing-counted m c)
          refl

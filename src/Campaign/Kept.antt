-- ===== src/Campaign/Kept.antt =====
-- internal/worker/worker.go: a job, seen from another campaign than its own.
use trt_whats.Common.{
  ℕ, ◌++◌, ◌≡◌, ◌∙◌, inl, inr, false, ◌&&◌, List, [], ◌∷◌, Option, none, some, nat_eq, Map, lookup,
  select, ◌==◌, nat_eq_on, arith, Bool-cases, Text, codes, text_eq_on,
}
use trt_whats.Contacts.{Contact, Insert, Found}
use trt_whats.Campaign.{Campaign, Job, World, Env, adjust, lookup-adjust, Template, Message}
use trt_whats.Campaign.Worker.{
  count_failed, count_sent, completed, is_stopped, has_account, is_marketing, give_up,
  check_campaign_completion, send_template_message, attempted, settle, deliver, process_contact,
  process_job,
}
use trt_whats.Campaign.Events.{sends_of}

module _ (id : ℕ) (c : Campaign) (sends : List Job) where
  -- The campaign's row and its sends are these.
  abbrev pub Keeps : World → Type 0
  Keeps w = (lookup id w.campaigns ≡ some c) × (sends_of id w ≡ sends)

  adjust_other :
      (k : ℕ) (f : Campaign → Campaign) (m : Map ℕ Campaign)
      → nat_eq k id ≡ false
      → lookup id m ≡ some c
      → lookup id (adjust k f m) ≡ some c
  adjust_other k f m other h = lookup-adjust k id f m ∙ rw other h

  sends_of-append :
      (job : Job) (js : List Job)
      → nat_eq job.campaign_id id ≡ false
      → select (λ (j : Job). nat_eq j.campaign_id id) (js ++ job ∷ [])
        ≡ select (λ (j : Job). nat_eq j.campaign_id id) js
  sends_of-append job [] other = rw other
  sends_of-append job (j ∷ js) other = ground (arith, sends_of-append job js other)

  give_up-Keeps :
      (now : ℕ) (job : Job) (err : Text) (w : World)
      → nat_eq job.campaign_id id ≡ false
      → Keeps w
      → Keeps (give_up now job err w)
  unfolding give_up
  give_up-Keeps now job err w other h =
      ground (arith, lookup-adjust job.campaign_id id count_failed w.campaigns)

  check_campaign_completion-Keeps :
      (now : ℕ) (job : Job) (w : World)
      → nat_eq job.campaign_id id ≡ false
      → Keeps w
      → Keeps (check_campaign_completion now job w)
  unfolding check_campaign_completion
  check_campaign_completion-Keeps now job w other h =
      ground (arith, lookup-adjust job.campaign_id id (completed now) w.campaigns)

  settle-Keeps :
      (now : ℕ) (job : Job) (m : Message) (w : World)
      → nat_eq job.campaign_id id ≡ false
      → Keeps w
      → Keeps (settle now job m w)
  unfolding settle attempted
  settle-Keeps now job m w other h = elim (Bool-cases (m.error_message == [])) [
    | inl e ↦ rw e (
        check_campaign_completion-Keeps now job _ other
          (adjust_other job.campaign_id count_sent w.campaigns other h.0, h.1))
    | inr e ↦ rw e (
        check_campaign_completion-Keeps now job _ other
          (adjust_other job.campaign_id count_failed w.campaigns other h.0, h.1))
  ]

  send-Keeps :
      (env : Env) (now : ℕ) (t : Template) (job : Job) (w : World)
      → nat_eq job.campaign_id id ≡ false
      → Keeps w
      → Keeps (send_template_message env now t job w).2
  unfolding send_template_message
  send-Keeps env now t job w other h = ground (arith, sends_of-append job w.sends other)

  deliver-Keeps :
      (env : Env) (now : ℕ) (d : Campaign) (t : Option Template) (contact : Contact) (job : Job)
      (w : World)
      → nat_eq job.campaign_id id ≡ false
      → Keeps w
      → Keeps (deliver env now d t contact job w).0
  unfolding deliver
  deliver-Keeps env now d none contact job w other h = h
  deliver-Keeps env now d (some t) contact job w other h =
      settle-Keeps now job _ (send_template_message env now t job w).2 other
        (send-Keeps env now t job w other h)

  process_contact-Keeps :
      (env : Env) (now : ℕ) (d : Campaign) (t : Option Template) (job : Job) (f : Option Found)
      (w : World)
      → nat_eq job.campaign_id id ≡ false
      → Keeps w
      → Keeps (process_contact env now d t job f w).0
  unfolding process_contact
  process_contact-Keeps env now d t job none w other h =
      give_up-Keeps now job (codes "Failed to create contact") w other h
  process_contact-Keeps env now d t job (some f) w other h =
      elim (Bool-cases (f.contact.marketing_opt_out && is_marketing env t)) [
        | inl e ↦
            rw e (give_up-Keeps now job (codes "Contact opted out of marketing messages") w other h)
        | inr e ↦ rw e (deliver-Keeps env now d t f.contact job w other h)
      ]

  pub process_job-Keeps :
      (env : Env) (now fresh : ℕ) (insert : Insert) (job : Job) (d : Campaign) (w : World)
      → nat_eq job.campaign_id id ≡ false
      → Keeps w
      → Keeps (process_job env now fresh insert job d w).0
  unfolding process_job
  process_job-Keeps env now fresh insert job d w other h = elim (Bool-cases (is_stopped d.status)) [
    | inl e ↦ rw e h
    | inr e ↦ elim (Bool-cases (has_account d.account job.org w.accounts)) [
      | inl known ↦
          rw (e, known)
            (process_contact-Keeps env now d (lookup d.template_id w.templates) job _ _ other h)
      | inr unknown ↦
          rw (e, unknown) (give_up-Keeps now job (codes "WhatsApp account not found") w other h)
    ]
  ]

-- ===== src/Campaign/Progress.antt =====
-- internal/handlers/webhook.go: the order of a message's statuses under reports that are handled
-- one after the other, and what the counters of its campaign make of them.
use trt_whats.Common.{
  ℕ, suc, ◌≡◌, ◌≢◌, refl, sym, ◌∙◌, subst, inl, inr, false, List, [], ◌∷◌, Option, none, some,
  nat_eq, nat_eq_iff, Text, codes, lookup, ◌≤ℤ◌, ◌==◌, text_eq_on, nat_eq_on, arith, Bool-cases,
  Option-cases, text_eq, ==_refl,
}
use trt_whats.Campaign.{
  World, Message, Campaign, MessageStatus, pending, sent, delivered, read, received, lookup-adjust,
}
use trt_whats.Campaign.Statuses.{
  StatusError, StatusEnv, status_of, status_priority, is_ignored, settable, error_of, find_message,
  write_status, increment_campaign_stat, update_recipients, update_of_campaign, set_message_status,
  update_message_status,
}

-- Where a row may stand after reports: at the same message, no earlier among the statuses.
abbrev pub Rises : Message → Message → Type 0
Rises m m' =
    (status_priority (some m.status) ≤ℤ status_priority (some m'.status))
    × (m.whatsapp_message_id ≡ m'.whatsapp_message_id)
    × (m.campaign_id ≡ m'.campaign_id)

abbrev pub AllRise : List Message → List Message → Type 0
AllRise [] [] = Unit
AllRise (m ∷ ms) (m' ∷ ms') = Rises m m' × AllRise ms ms'
AllRise _ _ = ⊥

AllRise-refl : (ms : List Message) → AllRise ms ms
AllRise-refl [] = tt
AllRise-refl (m ∷ ms) = ((omega arith, refl, refl), AllRise-refl ms)

AllRise-trans : (xs ys zs : List Message) → AllRise xs ys → AllRise ys zs → AllRise xs zs
AllRise-trans [] [] [] h k = tt
AllRise-trans [] [] (c ∷ zs) h k = absurd k
AllRise-trans [] (b ∷ ys) zs h k = absurd h
AllRise-trans (a ∷ xs) [] cs h k = absurd h
AllRise-trans (a ∷ xs) (b ∷ ys) [] h k = absurd k
AllRise-trans (a ∷ xs) (b ∷ ys) (c ∷ zs) ((p, q, r), h) ((p', q', r'), k) =
    ((omega arith, q ∙ q', r ∙ r'), AllRise-trans xs ys zs h k)

below_failed :
    (s : MessageStatus) → status_priority (some s) ≤ℤ status_priority (some MessageStatus.failed)
below_failed pending = ground arith
below_failed sent = ground arith
below_failed delivered = ground arith
below_failed read = ground arith
below_failed MessageStatus.failed = ground arith
below_failed received = ground arith

settable_same :
    (new : Option MessageStatus) (s : MessageStatus) → settable new ≡ some s → new ≡ some s
settable_same none s h = cc
settable_same (some pending) s h = cc
settable_same (some sent) s h = h
settable_same (some delivered) s h = h
settable_same (some read) s h = h
settable_same (some MessageStatus.failed) s h = h
settable_same (some received) s h = cc

status_rises :
    (old s : MessageStatus)
    → is_ignored old (some s) ≡ false
    → status_priority (some old) ≤ℤ status_priority (some s)
status_rises old MessageStatus.failed h = below_failed old
status_rises old pending h = ground arith
status_rises old sent h = ground arith
status_rises old delivered h = ground arith
status_rises old read h = ground arith
status_rises old received h = ground arith

write_status-AllRise :
    (id : Text) (s : MessageStatus) (error : Option Text) (ms : List Message) (m : Message)
    → find_message id ms ≡ some m
    → status_priority (some m.status) ≤ℤ status_priority (some s)
    → AllRise ms (write_status id s error ms)
write_status-AllRise id s error [] m e h = tt
write_status-AllRise id s error (n ∷ ms) m e h = elim (Bool-cases (n.whatsapp_message_id == id)) [
  | inl found ↦
      let same : n ≡ m = ground arith in
      rw found (
        (
          subst (λ k. status_priority (some k.status) ≤ℤ status_priority (some s)) (sym same) h,
          refl,
          refl,
        ),
        AllRise-refl ms,
      )
  | inr other ↦
      rw other ((omega arith, refl, refl), write_status-AllRise id s error ms m (ground arith) h)
]

messages-update_of_campaign :
    (env : StatusEnv) (id : Text) (s : MessageStatus) (error : Option Text) (m : Message)
    → (w : World) → (update_of_campaign env id s error m w).0.messages ≡ w.messages
unfolding update_of_campaign increment_campaign_stat update_recipients
messages-update_of_campaign env id s error m w = ground arith

set_message_status-AllRise :
    (env : StatusEnv) (id value : Text) (s : MessageStatus) (error : Option Text) (m : Message)
    → (w : World) → find_message id w.messages ≡ some m
    → status_priority (some m.status) ≤ℤ status_priority (some s)
    → AllRise w.messages (set_message_status env id value s error m w).0.messages
unfolding set_message_status
set_message_status-AllRise env id value s error m w e h = elim (Bool-cases env.update_fails) [
  | inl fails ↦ rw (set_message_status, fails) (AllRise-refl w.messages)
  | inr works ↦
      let w' : World = record w { messages = write_status id s error w.messages } in
      rw (set_message_status, works)
        (subst (AllRise w.messages) (sym (messages-update_of_campaign env id s error m w'))
          (write_status-AllRise id s error w.messages m e h))
]

update_message_status-AllRise :
    (env : StatusEnv) (id value : Text) (errors : List StatusError) (w : World)
    → AllRise w.messages (update_message_status env id value errors w).0.messages
unfolding update_message_status
update_message_status-AllRise env id value errors w =
    elim (Option-cases (find_message id w.messages)) [
      | inl e ↦ rw (update_message_status, e) (AllRise-refl w.messages)
      | inr (m, e) ↦ elim (Bool-cases (is_ignored m.status (status_of value))) [
        | inl i ↦ rw (update_message_status, e, i) (AllRise-refl w.messages)
        | inr i ↦ elim (Option-cases (settable (status_of value))) [
          | inl n ↦ rw (update_message_status, e, i, n) (AllRise-refl w.messages)
          | inr (s, n) ↦
              let new = settable_same (status_of value) s n in
              rw (update_message_status, e, i, n)
                (set_message_status-AllRise env id value s (error_of s errors) m w e
                  (status_rises m.status s (subst (λ o. is_ignored m.status o ≡ false) new i)))
        ]
      ]
    ]

-- A report of the platform, and the environment at its turn.
pub record Report : Type 0 where
  pub env : StatusEnv
  pub id : Text
  pub value : Text
  pub errors : List StatusError

abbrev pub run_reports : List Report → World → World
run_reports [] w = w
run_reports (r ∷ rs) w = run_reports rs (update_message_status r.env r.id r.value r.errors w).0

-- As long as each report is handled before the next one is begun (the server starts a goroutine for
-- each, so that they may overlap, which is not covered), whatever the platform reports, in whatever
-- order and however often, and whichever updates fail, no message goes back among its statuses
-- (pending, sent, delivered, read, failed).
pub run_reports-AllRise :
    (rs : List Report) (w : World) → AllRise w.messages (run_reports rs w).messages
run_reports-AllRise [] w = AllRise-refl w.messages
run_reports-AllRise (r ∷ rs) w =
    let w' = (update_message_status r.env r.id r.value r.errors w).0 in
    AllRise-trans w.messages w'.messages (run_reports rs w').messages
      (update_message_status-AllRise r.env r.id r.value r.errors w) (run_reports-AllRise rs w')

campaigns-update_recipients :
    (env : StatusEnv) (id : Text) (s : MessageStatus) (error : Option Text) (w : World)
    → (update_recipients env id s error w).campaigns ≡ w.campaigns
unfolding update_recipients
campaigns-update_recipients env id s error w = ground arith

increment_failed :
    (env : StatusEnv) (id : ℕ) (w : World) (c : Campaign)
    → lookup id w.campaigns ≡ some c
    → env.stat_fails ≡ false
    → lookup id (increment_campaign_stat env id MessageStatus.failed w).0.campaigns
      ≡ some (record c { failed_count = suc c.failed_count })
unfolding increment_campaign_stat
increment_failed env id w c e counts =
    rw (increment_campaign_stat, e, counts)
      (lookup-adjust id id (λ _. record c { failed_count = suc c.failed_count }) w.campaigns
        ∙ rw (==_refl id, e) refl)

status_of_failed : status_of (codes "failed") ≡ some MessageStatus.failed
unfolding status_of text_eq
status_of_failed = refl

failed_heard : (s : MessageStatus) → is_ignored s (some MessageStatus.failed) ≡ false
failed_heard s = ground arith

-- A report that a message of a campaign failed counts a failure more of the campaign, whatever the
-- message's status: also where it has failed before.
pub update_message_status_recounts :
    (env : StatusEnv) (id : Text) (errors : List StatusError) (w : World) (m : Message)
    → (c : Campaign) → find_message id w.messages ≡ some m
    → m.campaign_id ≢ 0
    → lookup m.campaign_id w.campaigns ≡ some c
    → env.update_fails ≡ false
    → env.stat_fails ≡ false
    → lookup m.campaign_id (update_message_status env id (codes "failed") errors w).0.campaigns
      ≡ some (record c { failed_count = suc c.failed_count })
unfolding update_message_status set_message_status update_of_campaign
update_message_status_recounts env id errors w m c e named k works counts =
    let some_campaign : nat_eq m.campaign_id 0 ≡ false =
      ground (arith, nat_eq_iff m.campaign_id 0) in
    let s = MessageStatus.failed in
    let error = error_of s errors in
    let w' : World = record w { messages = write_status id s error w.messages } in
    rw
      (
        update_message_status,
        e,
        status_of_failed,
        failed_heard m.status,
        set_message_status,
        works,
        update_of_campaign,
        some_campaign,
        campaigns-update_recipients env id s error
            (increment_campaign_stat env m.campaign_id s w').0,
      )
      (increment_failed env m.campaign_id w' c k counts)

-- ===== src/Hub/Isolation.antt =====
-- internal/websocket/hub.go, broadcastMessage: whom a message does not reach.
use trt_whats.Common.{
  ℕ, ◌≡◌, ◌≢◌, refl, ap, sym, ◌∙◌, inl, inr, false, List, [], ◌∷◌, ◌++◌, some, nat_eq, lookup,
  lookup-insert, contains, nat_eq_on, arith, Bool-cases, Option-cases, Text,
}
use trt_whats.Hub.{Client, Hub, BroadcastMessage, targets, offer, offer_all, broadcast_message}
use trt_whats.Hub.Targets.{targets-conns}
use trt_whats.Hub.Sound.{IsSound}

offer-other :
    (body : Text) (c d : ℕ) (h : Hub)
    → nat_eq c d ≡ false
    → lookup d (offer body h c).heap ≡ lookup d h.heap
unfolding offer
offer-other body c d h other = elim (Option-cases (lookup c h.heap)) [
  | inl e ↦ rw (e, offer) refl
  | inr (k, e) ↦
      rw (e, offer)
        (ground (arith, other, lookup-insert c d (record k { send = k.send ++ body ∷ [] }) h.heap))
]

offer_all-other :
    (body : Text) (cs : List ℕ) (d : ℕ) (h : Hub)
    → contains d cs ≡ false
    → lookup d (offer_all body cs h).heap ≡ lookup d h.heap
unfolding offer_all
offer_all-other body [] d h n = refl
offer_all-other body (c ∷ cs) d h n =
    offer_all-other body cs d (offer body h c) (ground (arith, n))
    ∙ offer-other body c d h (ground (arith, n))

-- In a hub that keeps its invariant, a broadcast for an organization leaves every client of another
-- organization as it is.
pub broadcast_message-other_org :
    (msg : BroadcastMessage) (h : Hub) (c : ℕ) (k : Client)
    → IsSound h
    → lookup c h.heap ≡ some k
    → k.organization_id ≢ msg.org_id
    → lookup c (broadcast_message msg h).heap ≡ some k
unfolding broadcast_message
broadcast_message-other_org msg h c k s e n =
    elim (Bool-cases (contains c (targets msg h.clients h.heap))) [
      | inr out ↦ offer_all-other msg.message (targets msg h.clients h.heap) c h out ∙ e
      | inl reached ↦
          let (user, there) = targets-conns msg h.clients h.heap c s.0 reached in
          let (l, el, lo, lu, lc) = s.1 msg.org_id user c there in
          let here : k ≡ l = cc (sym e ∙ el) in
          absurd (n (ap (λ (x : Client). x.organization_id) here ∙ lo))
    ]

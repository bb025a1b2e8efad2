-- ===== src/Hub/Sound.antt =====
-- internal/websocket/hub.go: the invariant of the hub, over the messages that are sent.
use trt_whats.Common.{
  ℕ, ◌≡◌, refl, ap, sym, ◌∙◌, subst, inl, inr, true, false, not, ◌&&◌, List, [], ◌∷◌, ◌++◌, Option,
  some, nat_eq, nat_eq_iff, ltb, length, Map, lookup, insert, lookup-insert, contains,
  contains-append, nat_eq_on, arith, Bool-cases, Option-cases, Text, ==_refl, ◌⊎◌,
}
use trt_whats.Hub.{
  Client, Clients, Hub, BroadcastMessage, add, remove, targets, offer, offer_all, broadcast_message,
  send_capacity,
}
use trt_whats.Hub.Table.{conns}
use trt_whats.Hub.Targets.{IsProper, targets-conns}
use trt_whats.Hub.Life.{view, set_contact}

-- A client's record is there, open, and says where the client is registered.
abbrev pub IsOpenAt : ℕ → ℕ → Map ℕ Client → ℕ → Type 0
IsOpenAt org user heap c =
    (k : Client) × (lookup c heap ≡ some k)
    × (k.organization_id ≡ org)
    × (k.user_id ≡ user)
    × (k.closed ≡ false)

abbrev pub IsOpenIn : Clients → Map ℕ Client → Type 0
IsOpenIn m heap = (org user c : ℕ) → contains c (conns org user m) ≡ true → IsOpenAt org user heap c

abbrev pub IsSound : Hub → Type 0
IsSound h = IsProper h.clients × IsOpenIn h.clients h.heap × (h.panicked ≡ false)

pub contains-add :
    (c d : ℕ) (cs : List ℕ) → contains d (add c cs) ≡ true → (c ≡ d) ⊎ (contains d cs ≡ true)
contains-add c d cs h = elim (Bool-cases (contains c cs)) [
  | inl e ↦ inr (ground (arith, e, h))
  | inr e ↦ elim (Bool-cases (nat_eq c d)) [
    | inl same ↦ inl ((nat_eq_iff c d).0 same)
    | inr other ↦ inr (ground (arith, e, h, contains-append d cs (c ∷ [])))
  ]
]

pub contains-remove :
    (c d : ℕ) (cs : List ℕ)
    → contains d (remove c cs) ≡ true
    → (nat_eq d c ≡ false) × (contains d cs ≡ true)
contains-remove c d [] h = absurd (ground arith)
contains-remove c d (x ∷ xs) h = elim (Bool-cases (nat_eq x c)) [
  | inl e ↦ ground (arith, contains-remove c d xs)
  | inr e ↦ elim (Bool-cases (nat_eq x d)) [
    | inl same ↦ (sym (ap (λ (i : ℕ). nat_eq i c) ((nat_eq_iff x d).0 same)) ∙ e, rw same refl)
    | inr other ↦ ground (arith, contains-remove c d xs)
  ]
]

-- A change of a record that leaves it open where it is.
insert-IsOpenIn :
    (m : Clients) (heap : Map ℕ Client) (c : ℕ) (k k' : Client)
    → lookup c heap ≡ some k
    → k'.organization_id ≡ k.organization_id
    → k'.user_id ≡ k.user_id
    → k'.closed ≡ k.closed
    → IsOpenIn m heap
    → IsOpenIn m (insert c k' heap)
insert-IsOpenIn m heap c k k' e eo eu ec h org user d r =
    let (l, el, lo, lu, lc) = h org user d r in
    elim (Bool-cases (nat_eq c d)) [
      | inl same ↦
          let here : k ≡ l = cc (sym e ∙ ap (λ i. lookup i heap) ((nat_eq_iff c d).0 same) ∙ el) in
          (
            k',
            lookup-insert c d k' heap ∙ rw same refl,
            eo ∙ ap (λ (x : Client). x.organization_id) here ∙ lo,
            eu ∙ ap (λ (x : Client). x.user_id) here ∙ lu,
            ec ∙ ap (λ (x : Client). x.closed) here ∙ lc,
          )
      | inr other ↦ (l, lookup-insert c d k' heap ∙ rw other el, lo, lu, lc)
    ]

pub set_contact-IsSound :
    (c : ℕ) (contact : Option ℕ) (h : Hub) → IsSound h → IsSound (set_contact c contact h)
unfolding set_contact
set_contact-IsSound c contact h s = elim (Option-cases (lookup c h.heap)) [
  | inl e ↦ rw (e, set_contact) s
  | inr (k, e) ↦
      rw (e, set_contact)
        (s.0, insert-IsOpenIn h.clients h.heap c k (view contact k) e refl refl refl s.1, s.2)
]

offer-IsSound :
    (body : Text) (c : ℕ) (h : Hub) {k : Client}
    → lookup c h.heap ≡ some k
    → k.closed ≡ false
    → IsSound h
    → IsSound (offer body h c)
unfolding offer
offer-IsSound body c h {k} e o s = elim (Bool-cases (ltb (length k.send) send_capacity)) [
  | inl room ↦
      let k' : Client = record k { send = k.send ++ body ∷ [] } in
      let here : offer body h c ≡ record h { heap = insert c k' h.heap } =
        rw (e, offer) (rw (o, room) refl) in
      subst (λ x. IsSound x) (sym here)
        (s.0, insert-IsOpenIn h.clients h.heap c k k' e refl refl refl s.1, s.2)
  | inr full ↦
      let here : offer body h c ≡ h = rw (e, offer) (rw (o, full) refl) in
      subst (λ x. IsSound x) (sym here) s
]

-- A record that is there and open stays so.
abbrev IsOpen : Map ℕ Client → ℕ → Type 0
IsOpen heap c = (k : Client) × (lookup c heap ≡ some k) × (k.closed ≡ false)

offer-IsOpen : (body : Text) (c d : ℕ) (h : Hub) → IsOpen h.heap d → IsOpen (offer body h c).heap d
unfolding offer
offer-IsOpen body c d h (l, el, o) = elim (Option-cases (lookup c h.heap)) [
  | inl e ↦ rw (e, offer) (l, el, o)
  | inr (k, e) ↦ elim (Bool-cases (not k.closed && ltb (length k.send) send_capacity)) [
    | inr stays ↦
        let same : (offer body h c).heap ≡ h.heap = rw (e, offer) (ground (arith, stays)) in
        subst (λ x. IsOpen x d) (sym same) (l, el, o)
    | inl sends ↦
        let k' : Client = record k { send = k.send ++ body ∷ [] } in
        let same : (offer body h c).heap ≡ insert c k' h.heap =
          rw (e, offer) (ground (arith, sends)) in
        subst (λ x. IsOpen x d) (sym same)
          (elim (Bool-cases (nat_eq c d)) [
            | inl here ↦ (k', lookup-insert c d k' h.heap ∙ rw here refl, ground (arith, sends))
            | inr other ↦ (l, lookup-insert c d k' h.heap ∙ rw other el, o)
          ])
  ]
]

offer_all-IsSound :
    (body : Text) (cs : List ℕ) (h : Hub)
    → ((c : ℕ) → contains c cs ≡ true → IsOpen h.heap c)
    → IsSound h
    → IsSound (offer_all body cs h)
unfolding offer_all
offer_all-IsSound body [] h o s = s
offer_all-IsSound body (c ∷ cs) h o s =
    let (k, e, ok) = o c (rw (==_refl c) refl) in
    offer_all-IsSound body cs (offer body h c)
      (λ d r. offer-IsOpen body c d h (o d (later c d cs r))) (offer-IsSound body c h e ok s)
  where
    later : (c d : ℕ) (cs : List ℕ) → contains d cs ≡ true → contains d (c ∷ cs) ≡ true
    later c d cs r = ground (arith, r)

pub broadcast_message-IsSound :
    (msg : BroadcastMessage) (h : Hub) → IsSound h → IsSound (broadcast_message msg h)
unfolding broadcast_message
broadcast_message-IsSound msg h s =
    offer_all-IsSound msg.message (targets msg h.clients h.heap) h
      (λ c r.
        let (user, there) = targets-conns msg h.clients h.heap c s.0 r in
        let (k, e, ko, ku, kc) = s.1 msg.org_id user c there in (k, e, kc))
      s

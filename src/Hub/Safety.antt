-- ===== src/Hub/Safety.antt =====
-- internal/websocket/hub.go: the invariant of the hub, over connections and disconnections.
use trt_whats.Common.{
  ℕ, ◌≡◌, refl, ap, sym, ◌∙◌, subst, inl, inr, true, false, ◌&&◌, ◌||◌, List, [], ◌∷◌, none, some,
  nat_eq, nat_eq_iff, Map, lookup, insert, lookup-insert, contains, nat_eq_on, arith, Bool-cases,
  Option-cases, ==_refl,
}
use trt_whats.Hub.{
  Client, Clients, Hub, add_client, remove_client, register_client, is_registered, close,
  unregister_client,
}
use trt_whats.Hub.Table.{conns, conns-add_client, conns-remove_client}
use trt_whats.Hub.Targets.{add_client-IsProper, remove_client-IsProper}
use trt_whats.Hub.Life.{
  connects, disconnects, views, broadcasts, Event, new_client, connect, step, run, empty,
}
use trt_whats.Hub.Sound.{
  IsOpenAt, IsOpenIn, IsSound, contains-add, contains-remove, set_contact-IsSound,
  broadcast_message-IsSound,
}

other_open :
    (c d : ℕ) (k : Client) (heap : Map ℕ Client) {org user : ℕ}
    → nat_eq c d ≡ false
    → IsOpenAt org user heap d
    → IsOpenAt org user (insert c k heap) d
other_open c d k heap other (l, e, lo, lu, lc) =
    (l, lookup-insert c d k heap ∙ rw other e, lo, lu, lc)

nat_eq_sym : (a b : ℕ) → nat_eq a b ≡ false → nat_eq b a ≡ false
nat_eq_sym a b h = ground arith

remove_client-IsOpenIn :
    (c : ℕ) (k : Client) (m : Clients) (heap : Map ℕ Client)
    → lookup c heap ≡ some k
    → IsOpenIn m heap
    → IsOpenIn (remove_client k.organization_id k.user_id c m) (insert c (close k) heap)
remove_client-IsOpenIn c k m heap e h org user d r =
    let q =
      sym (ap (contains d) (conns-remove_client k.organization_id k.user_id c m org user)) ∙ r in
    elim (Bool-cases (nat_eq k.organization_id org && nat_eq k.user_id user)) [
      | inl own ↦
          let kept = contains-remove c d (conns org user m) (sym (rw own refl) ∙ q) in
          other_open c d (close k) heap (nat_eq_sym d c kept.0) (h org user d kept.1)
      | inr foreign ↦
          let there : contains d (conns org user m) ≡ true = sym (rw foreign refl) ∙ q in
          elim (Bool-cases (nat_eq c d)) [
            | inr other ↦ other_open c d (close k) heap other (h org user d there)
            | inl same ↦
                let (l, el, lo, lu, lc) = h org user d there in
                let here : k ≡ l =
                  cc (sym e ∙ ap (λ i. lookup i heap) ((nat_eq_iff c d).0 same) ∙ el) in
                let ko : k.organization_id ≡ org =
                  ap (λ (x : Client). x.organization_id) here ∙ lo in
                let ku : k.user_id ≡ user = ap (λ (x : Client). x.user_id) here ∙ lu in
                absurd (ground (arith, foreign, ko, ku))
          ]
    ]

add_client-IsOpenIn :
    (c user org : ℕ) (m : Clients) (heap : Map ℕ Client)
    → lookup c heap ≡ none
    → IsOpenIn m heap
    → IsOpenIn (add_client org user c m) (insert c (new_client user org) heap)
add_client-IsOpenIn c user org m heap e h org' user' d r =
    let q = sym (ap (contains d) (conns-add_client org user c m org' user')) ∙ r in
    elim (Bool-cases (nat_eq org org' && nat_eq user user')) [
      | inr foreign ↦ old (sym (rw foreign refl) ∙ q)
      | inl own ↦ elim (contains-add c d (conns org' user' m) (sym (rw own refl) ∙ q)) [
        | inr there ↦ old there
        | inl same ↦ (
          new_client user org,
          lookup-insert c d (new_client user org) heap ∙ rw ((nat_eq_iff c d).1 same) refl,
          ground (arith, own),
          ground (arith, own),
          refl,
        )
      ]
    ]
  where
    old :
        contains d (conns org' user' m) ≡ true
        → IsOpenAt org' user' (insert c (new_client user org) heap) d
    old there =
        let (l, el, lo, lu, lc) = h org' user' d there in
        elim (Bool-cases (nat_eq c d)) [
          | inr other ↦ other_open c d (new_client user org) heap other (l, el, lo, lu, lc)
          | inl same ↦
              let clash : none ≡ some l =
                sym e ∙ ap (λ i. lookup i heap) ((nat_eq_iff c d).0 same) ∙ el in
              cc clash
        ]

unregister_client-IsSound : (c : ℕ) (h : Hub) → IsSound h → IsSound (unregister_client c h)
unfolding unregister_client
unregister_client-IsSound c h s = elim (Option-cases (lookup c h.heap)) [
  | inl e ↦
      let same : unregister_client c h ≡ h = rw (e, unregister_client) refl in
      subst (λ x. IsSound x) (sym same) s
  | inr (k, e) ↦ elim (Bool-cases (is_registered k.organization_id k.user_id c h.clients)) [
    | inr out ↦
        let same : unregister_client c h ≡ h = rw (e, unregister_client) (rw out refl) in
        subst (λ x. IsSound x) (sym same) s
    | inl on ↦
        let (l, el, lo, lu, lc) = s.1 k.organization_id k.user_id c on in
        let here : k ≡ l = cc (sym e ∙ el) in
        let live : k.closed ≡ false = ap (λ (x : Client). x.closed) here ∙ lc in
        let after : Hub = record {
          clients = remove_client k.organization_id k.user_id c h.clients;
          heap = insert c (close k) h.heap;
          panicked = h.panicked || k.closed;
        } in
        let step : unregister_client c h ≡ after = rw (e, unregister_client) (rw on refl) in
        subst (λ x. IsSound x) (sym step)
          (
            remove_client-IsProper k.organization_id k.user_id c h.clients s.0,
            remove_client-IsOpenIn c k h.clients h.heap e s.1,
            ground (arith, live, s.2),
          )
  ]
]

connect-IsSound : (c user org : ℕ) (h : Hub) → IsSound h → IsSound (connect c user org h)
unfolding connect register_client
connect-IsSound c user org h s = elim (Option-cases (lookup c h.heap)) [
  | inr (k, e) ↦
      let same : connect c user org h ≡ h = rw (e, connect) refl in
      subst (λ x. IsSound x) (sym same) s
  | inl e ↦
      let heap : Map ℕ Client = insert c (new_client user org) h.heap in
      let own : lookup c heap ≡ some (new_client user org) =
        lookup-insert c c (new_client user org) h.heap ∙ rw (==_refl c) refl in
      let after : Hub = record h { clients = add_client org user c h.clients; heap = heap } in
      let step : connect c user org h ≡ after = rw (e, connect) (rw (own, register_client) refl) in
      subst (λ x. IsSound x) (sym step)
        (
          add_client-IsProper org user c h.clients s.0,
          add_client-IsOpenIn c user org h.clients h.heap e s.1,
          s.2,
        )
]

step-IsSound : (h : Hub) (e : Event) → IsSound h → IsSound (step h e)
unfolding step
step-IsSound h (connects c user org) s = connect-IsSound c user org h s
step-IsSound h (disconnects c) s = unregister_client-IsSound c h s
step-IsSound h (views c contact) s = set_contact-IsSound c contact h s
step-IsSound h (broadcasts msg) s = broadcast_message-IsSound msg h s

pub run-IsSound : (h : Hub) (es : List Event) → IsSound h → IsSound (run h es)
unfolding run
run-IsSound h [] s = s
run-IsSound h (e ∷ es) s = run-IsSound (step h e) es (step-IsSound h e s)

pub empty-IsSound : IsSound empty
unfolding lookup
empty-IsSound = (λ org. tt, λ org user c r. absurd (ground arith), refl)

-- Whatever clients connect, leave, view contacts and are sent messages, in whatever order: each
-- client that is registered is open and registered under its own user and organization, and no
-- channel has been closed twice or sent to after it was closed.
pub run-empty :
    (es : List Event)
    → IsOpenIn (run empty es).clients (run empty es).heap × ((run empty es).panicked ≡ false)
run-empty es = let s = run-IsSound empty es empty-IsSound in (s.1, s.2)

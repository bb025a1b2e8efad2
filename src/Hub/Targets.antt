-- ===== src/Hub/Targets.antt =====
-- internal/websocket/hub.go, broadcastMessage: the clients that a message is sent to.
use trt_whats.Common.{
  ℕ, ◌≡◌, refl, ap, sym, ◌∙◌, inl, inr, true, false, List, [], ◌∷◌, none, nat_eq, nat_eq_iff, Map,
  lookup, insert, IsDistinct, insert-IsDistinct, delete-IsDistinct, not-member-lookup, contains,
  contains-append, contains-select, nat_eq_on, arith, Bool-cases,
}
use trt_whats.Hub.{
  Users, Clients, Client, BroadcastMessage, at, add, remove, add_client, put, remove_client,
  all_clients, sees, contact_of, targets,
}
use trt_whats.Hub.Table.{conns, at-insert, at-put}

-- No user twice in an organization, as in a Go map.
abbrev pub IsProper : Clients → Type 0
IsProper m = (org : ℕ) → IsDistinct (at org m)

at-none : (k : ℕ) (us : Users) → lookup k us ≡ none → at k us ≡ []
at-none k us e = rw (e, at) refl

all_clients-conns :
    (c : ℕ) (us : Users)
    → IsDistinct us
    → contains c (all_clients us) ≡ true
    → (u : ℕ) × (contains c (at u us) ≡ true)
unfolding lookup
all_clients-conns c [] d h = absurd (ground arith)
all_clients-conns c ((u, cs) ∷ us) d h = elim (Bool-cases (contains c cs)) [
  | inl here ↦ (u, ground (arith, here))
  | inr e ↦
      let later : contains c (all_clients us) ≡ true =
        ground (arith, contains-append c cs (all_clients us), e, h) in
      let (v, k) = all_clients-conns c us d.1 later in
      elim (Bool-cases (nat_eq u v)) [
        | inl same ↦
            let gone : at v us ≡ [] =
              ap (λ w. at w us) (sym ((nat_eq_iff u v).0 same))
              ∙ at-none u us (not-member-lookup u us d.0) in
            let clash : true ≡ false = sym k ∙ ap (contains c) gone in cc clash
        | inr other ↦ (v, ground (arith, other, k))
      ]
]

-- Every client that a message is sent to is connected in the message's organization.
pub targets-conns :
    (msg : BroadcastMessage) (m : Clients) (heap : Map ℕ Client) (c : ℕ)
    → IsProper m
    → contains c (targets msg m heap) ≡ true
    → (user : ℕ) × (contains c (conns msg.org_id user m) ≡ true)
unfolding targets
targets-conns msg m heap c p h = elim (Bool-cases (nat_eq msg.user_id 0)) [
  | inr e ↦ (msg.user_id, ground (arith, e, h))
  | inl e ↦ all_clients-conns c (at msg.org_id m) (p msg.org_id) (
      contains-select (λ c. sees msg.contact_id (contact_of heap c)) c
        (all_clients (at msg.org_id m)) (ground (arith, e, h)))
]

pub add_client-IsProper :
    (org user c : ℕ) (m : Clients) → IsProper m → IsProper (add_client org user c m)
unfolding add_client
add_client-IsProper org user c m p o =
    let users = insert user (add c (conns org user m)) (at org m) in
    rw (at-insert org o users m) (elim (Bool-cases (nat_eq org o)) [
      | inl e ↦ rw e (insert-IsDistinct user (add c (conns org user m)) (at org m) (p org))
      | inr e ↦ rw e (p o)
    ])

put-IsDistinct {ℓ} :
    {A : Type ℓ} (k : ℕ) (xs : List A) (m : Map ℕ (List A)) → IsDistinct m → IsDistinct (put k xs m)
unfolding put
put-IsDistinct k [] m d = delete-IsDistinct k m d
put-IsDistinct k (x ∷ xs) m d = insert-IsDistinct k (x ∷ xs) m d

pub remove_client-IsProper :
    (org user c : ℕ) (m : Clients) → IsProper m → IsProper (remove_client org user c m)
unfolding remove_client
remove_client-IsProper org user c m p o =
    let users = put user (remove c (conns org user m)) (at org m) in
    rw (at-put org o users m) (elim (Bool-cases (nat_eq org o)) [
      | inl e ↦ rw e (put-IsDistinct user (remove c (conns org user m)) (at org m) (p org))
      | inr e ↦ rw e (p o)
    ])

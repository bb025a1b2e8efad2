-- ===== src/Hub/Table.antt =====
-- internal/websocket/hub.go: the nested maps as a table of who is connected.
use trt_whats.Common.{
  ℕ, ◌≡◌, refl, ap, ◌∙◌, inl, inr, ◌&&◌, List, [], ◌∷◌, if◌then◌else◌, nat_eq, nat_eq_iff, Map,
  insert, lookup-insert, lookup-delete, nat_eq_on, arith, Bool-cases,
}
use trt_whats.Hub.{Clients, at, add, remove, add_client, put, remove_client}

-- The clients of a user of an organization.
abbrev pub conns : ℕ → ℕ → Clients → List ℕ
conns org user m = at user (at org m)

pub at-insert {ℓ} :
    {A : Type ℓ} (k j : ℕ) (xs : List A) (m : Map ℕ (List A))
    → at j (insert k xs m) ≡ (if nat_eq k j then xs else at j m)
at-insert k j xs m = rw (lookup-insert k j xs m, at) (ground arith)

pub at-put {ℓ} :
    {A : Type ℓ} (k j : ℕ) (xs : List A) (m : Map ℕ (List A))
    → at j (put k xs m) ≡ (if nat_eq k j then xs else at j m)
unfolding put
at-put k j [] m = rw (lookup-delete k j m, at) (ground arith)
at-put k j (x ∷ xs) m = at-insert k j (x ∷ xs) m

-- An update of one organization's and user's clients, by two ways of storing a list.
module _ (org user c : ℕ) (m : Clients) (org' user' : ℕ) (f : List ℕ → List ℕ) where
  abbrev changed : List ℕ
  changed =
      if nat_eq org org' && nat_eq user user' then f (conns org' user' m) else conns org' user' m

  same_user :
      org ≡ org'
      → (if nat_eq user user' then f (conns org user m) else conns org user' m)
        ≡ (if nat_eq user user' then f (conns org' user' m) else conns org' user' m)
  same_user eo = elim (Bool-cases (nat_eq user user')) [
    | inl e ↦ rw e (
        ap (λ o. f (conns o user m)) eo
        ∙ ap (λ u. f (conns org' u m)) ((nat_eq_iff user user').0 e))
    | inr e ↦ rw e (ap (λ o. conns o user' m) eo)
  ]

  conns-insert :
      conns org' user' (insert org (insert user (f (conns org user m)) (at org m)) m) ≡ changed
  conns-insert =
      rw (at-insert org org' (insert user (f (conns org user m)) (at org m)) m, at)
        (elim (Bool-cases (nat_eq org org')) [
          | inl e ↦ rw e (
              at-insert user user' (f (conns org user m)) (at org m)
              ∙ same_user ((nat_eq_iff org org').0 e))
          | inr e ↦ rw e refl
        ])

  conns-put : conns org' user' (put org (put user (f (conns org user m)) (at org m)) m) ≡ changed
  conns-put =
      rw (at-put org org' (put user (f (conns org user m)) (at org m)) m, at)
        (elim (Bool-cases (nat_eq org org')) [
          | inl e ↦ rw e (
              at-put user user' (f (conns org user m)) (at org m)
              ∙ same_user ((nat_eq_iff org org').0 e))
          | inr e ↦ rw e refl
        ])

-- Registering a client adds it to the clients of its user in its organization, and changes no
-- other user's.
pub conns-add_client :
    (org user c : ℕ) (m : Clients) (org' user' : ℕ)
    → conns org' user' (add_client org user c m) ≡ (
        if nat_eq org org' && nat_eq user user'
        then add c (conns org' user' m)
        else conns org' user' m)
unfolding add_client
conns-add_client org user c m org' user' = conns-insert org user c m org' user' (add c)

-- Unregistering a client removes it from the clients of its user in its organization, and changes
-- no other user's.
pub conns-remove_client :
    (org user c : ℕ) (m : Clients) (org' user' : ℕ)
    → conns org' user' (remove_client org user c m) ≡ (
        if nat_eq org org' && nat_eq user user'
        then remove c (conns org' user' m)
        else conns org' user' m)
unfolding remove_client
conns-remove_client org user c m org' user' = conns-put org user c m org' user' (remove c)

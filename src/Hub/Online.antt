-- ===== src/Hub/Online.antt =====
-- internal/websocket/hub.go: who is online, as the three queries say it.
use trt_whats.Common.{
  ℕ, ◌≡◌, refl, ap, sym, ◌∙◌, inl, inr, false, List, [], ◌∷◌, map, Option, none, some,
  if◌then◌else◌, nat_eq, nat_eq_iff, ltb, length, Map, lookup, member, IsDistinct, select, contains,
  nat_eq_on, arith, Bool-cases, Option-cases,
}
use trt_whats.Hub.{
  Users, Clients, at, is_busy, is_user_online, online_user_ids, filter_online_users,
}
use trt_whats.Hub.Targets.{IsProper}

abbrev busy_ids : Users → List ℕ
busy_ids us = map (λ p. p.0) (select is_busy us)

contains-busy_ids-none :
    (id : ℕ) (us : Users) → member id us ≡ false → contains id (busy_ids us) ≡ false
unfolding member
contains-busy_ids-none id [] h = refl
contains-busy_ids-none id ((u, cs) ∷ us) h = ground (arith, contains-busy_ids-none id us)

abbrev or_empty {ℓ} : {A : Type ℓ} → Option (List A) → List A
or_empty none = []
or_empty (some xs) = xs

at_cons :
    (id u : ℕ) (cs : List ℕ) (us : Users)
    → at id ((u, cs) ∷ us) ≡ (if nat_eq u id then cs else at id us)
unfolding lookup
at_cons id u cs us = ground arith

contains-busy_ids :
    (id : ℕ) (us : Users) → IsDistinct us → contains id (busy_ids us) ≡ ltb 0 (length (at id us))
unfolding lookup
contains-busy_ids id [] d = refl
contains-busy_ids id ((u, cs) ∷ us) d = elim (Bool-cases (nat_eq u id)) [
  | inr other ↦ rw (at_cons id u cs us, other) (ground (arith, other, contains-busy_ids id us d.1))
  | inl same ↦
      let later : contains id (busy_ids us) ≡ false =
        contains-busy_ids-none id us
          (sym (ap (λ i. member i us) ((nat_eq_iff u id).0 same)) ∙ d.0) in
      rw (at_cons id u cs us, same) (ground (arith, same, later))
]

at_of {ℓ} :
    {A : Type ℓ} (k : ℕ) (m : Map ℕ (List A)) {o : Option (List A)}
    → lookup k m ≡ o
    → at k m ≡ or_empty o
at_of k m e = ap or_empty e

select-none : (ids : List ℕ) → select (λ (id : ℕ). false) ids ≡ []
select-none [] = refl
select-none (i ∷ is) = select-none is

-- The two lists of users agree with the test of one user: a user is among the organization's online
-- users, and is kept among given users, exactly if the user is online.
pub online_user_ids-is_user_online :
    (org id : ℕ) (m : Clients)
    → IsProper m
    → (contains id (online_user_ids org m) ≡ is_user_online org id m)
      × ((ids : List ℕ) → filter_online_users org ids m ≡ select (λ i. is_user_online org i m) ids)
unfolding lookup online_user_ids is_user_online filter_online_users
online_user_ids-is_user_online org id m p = (
  contains-busy_ids id (at org m) (p org),
  λ ids. elim (Option-cases (lookup org m)) [
    | inl e ↦
        rw (e, filter_online_users)
          (sym (select-none ids)
            ∙ ap (λ us. select (λ i. ltb 0 (length (at i us))) ids) (sym (at_of org m e)))
    | inr (us, e) ↦
        rw (e, filter_online_users)
          (ap (λ us. select (λ i. ltb 0 (length (at i us))) ids) (sym (at_of org m e)))
  ],
)

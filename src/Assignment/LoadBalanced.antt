-- ===== src/Assignment/LoadBalanced.antt =====
-- internal/assignment/assigner.go, assignLoadBalanced, with counters.go.
use trt_whats.Common.{
  ℕ, ◌≤◌, ◌≡◌, refl, ap, sym, ◌∙◌, inl, inr, Bool, true, false, ◌||◌, List, [], ◌∷◌, none, some,
  if◌then◌else◌, nat_eq, nat_eq_iff, contains, All, All-weaken, subst, ==_refl, nat_eq_on, ◌==◌,
  arith, Bool-cases, Map, lookup, insert, lookup-insert, ℤ, pos, negsuc, ltb_ℤ,
}
use trt_whats.Assignment.{
  User, Transfer, count_load, load_rows, load_counter, load_of, lowest_loop, filter_available,
  assign_load_balanced,
}

load_of-insert :
    (i id : ℕ) (n : ℤ) (m : Map ℕ ℤ)
    → load_of (insert i n m) id ≡ (if i == id then n else load_of m id)
load_of-insert i id n m = rw (lookup-insert i id n m, load_of) (ground arith)

-- The entry of an agent in the map of loads, whether there are rows or not.
load_rows-load_of :
    (org : ℕ) (table : List Transfer) (agents ids : List ℕ) (id : ℕ)
    → load_of (load_rows org table agents ids) id
      ≡ (if contains id ids then pos (count_load org table agents id) else pos 0)
unfolding load_rows lookup
load_rows-load_of org table agents [] id = refl
load_rows-load_of org table agents (i ∷ is) id =
    elim (Bool-cases (nat_eq (count_load org table agents i) 0)) [
      | inl e ↦ elim (Bool-cases (nat_eq i id)) [
        | inl same ↦
            let none_here : count_load org table agents id ≡ 0 =
              ap (count_load org table agents) (sym ((nat_eq_iff i id).0 same))
              ∙ (nat_eq_iff (count_load org table agents i) 0).0 e in
            rw (e, same, load_rows-load_of org table agents is id, none_here) (ground arith)
        | inr other ↦ rw (e, other) (load_rows-load_of org table agents is id)
      ]
      | inr e ↦
          rw
            (
              e,
              load_of-insert i id (pos (count_load org table agents i))
                  (load_rows org table agents is),
            )
            (elim (Bool-cases (nat_eq i id)) [
              | inl same ↦
                  rw same (ap (λ i. pos (count_load org table agents i)) ((nat_eq_iff i id).0 same))
              | inr other ↦ rw other (load_rows-load_of org table agents is id)
            ])
    ]

-- The test of the loop, of a count so far and a next one.
abbrev below : ℤ → ℤ → Bool
below c n = ltb_ℤ c (pos 0) || ltb_ℤ n c

module _ (load : ℕ → ℤ) (count : ℕ → ℕ) where
  -- A choice with the least count of all.
  abbrev IsLeast : List ℕ → ℕ → Type 0
  IsLeast ids v = All (λ u. count v ≤ count u) ids

  below-pos :
      (i u : ℕ)
      → load u ≡ pos (count u)
      → load i ≡ pos (count i)
      → below (load u) (load i) ≡ below (pos (count u)) (pos (count i))
  below-pos i u e h = ap (λ x. below x (load i)) e ∙ ap (below (pos (count u))) h

  smaller :
      (i u : ℕ)
      → load u ≡ pos (count u)
      → load i ≡ pos (count i)
      → below (load u) (load i) ≡ true
      → count i ≤ count u
  smaller i u e h t = ground (arith, sym (below-pos i u e h) ∙ t)

  no_smaller :
      (i u : ℕ)
      → load u ≡ pos (count u)
      → load i ≡ pos (count i)
      → below (load u) (load i) ≡ false
      → count u ≤ count i
  no_smaller i u e h f = ground (arith, sym (below-pos i u e h) ∙ f)

  lowest_loop-some :
      (ids : List ℕ) (u : ℕ)
      → load u ≡ pos (count u)
      → All (λ i. load i ≡ pos (count i)) ids
      → (v : ℕ) × (lowest_loop load ids (some u) (load u) ≡ some v)
        × (count v ≤ count u)
        × IsLeast ids v
  unfolding lowest_loop
  lowest_loop-some [] u e h = (u, refl, ground arith, tt)
  lowest_loop-some (i ∷ is) u e h = elim (Bool-cases (below (load u) (load i))) [
    | inl t ↦
        let r = lowest_loop-some is i h.0 h.1 in
        let less = smaller i u e h.0 t in rw t (r.0, r.1, ground (arith, less, r.2), (r.2, r.3))
    | inr f ↦
        let r = lowest_loop-some is u e h.1 in
        let more = no_smaller i u e h.0 f in rw f (r.0, r.1, r.2, (ground (arith, more, r.2), r.3))
  ]

  lowest_loop-IsLeast :
      (ids : List ℕ)
      → All (λ i. load i ≡ pos (count i)) ids
      → {v : ℕ} → lowest_loop load ids none (negsuc 0) ≡ some v
      → IsLeast ids v
  unfolding lowest_loop
  lowest_loop-IsLeast [] h e = tt
  lowest_loop-IsLeast (i ∷ is) h {v} e =
      let r = lowest_loop-some is i h.0 h.1 in
      let same : r.0 ≡ v = cc (r.1, e) in subst (λ x. IsLeast (i ∷ is) x) same (r.2, r.3)

load_counter-All :
    (org : ℕ) (table : List Transfer) (agents ids : List ℕ)
    → All (λ i. contains i agents ≡ true) ids
    → All (λ i. load_of (load_counter org table agents) i ≡ pos (count_load org table agents i)) ids
unfolding load_counter
load_counter-All org table agents [] h = tt
load_counter-All org table agents (i ∷ is) h = (
  load_rows-load_of org table agents agents i ∙ rw h.0 refl,
  load_counter-All org table agents is h.1,
)

or_right : (a b : Bool) → b ≡ true → (a || b) ≡ true
or_right a b h = ground arith

pub All-contains : (ids : List ℕ) → All (λ i. contains i ids ≡ true) ids
All-contains [] = tt
All-contains (i ∷ is) = (
  rw (==_refl i),
  All-weaken (λ j. contains j is ≡ true) (λ j. contains j (i ∷ is) ≡ true) is
      (λ j h. or_right (nat_eq i j) (contains j is) h) (All-contains is),
)

-- With the counters of chats or calls, the load-balanced strategy chooses an available agent that
-- has no more active transfers in the organization than any other available one.
pub assign_load_balanced_least :
    (org : ℕ) (table : List Transfer) (ids excluded : List ℕ) (users : List User) {v : ℕ}
    → assign_load_balanced ids excluded users (load_counter org table) ≡ some v
    → All
        (λ u.
          count_load org table (filter_available ids excluded users) v
          ≤ count_load org table (filter_available ids excluded users) u)
        (filter_available ids excluded users)
unfolding assign_load_balanced
assign_load_balanced_least org table ids excluded users h =
    let available = filter_available ids excluded users in
    lowest_loop-IsLeast (load_of (load_counter org table available))
      (count_load org table available) available
      (load_counter-All org table available available (All-contains available)) h

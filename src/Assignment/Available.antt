-- ===== src/Assignment/Available.antt =====
-- internal/assignment/assigner.go, filterAvailable and AssignToTeam: who can be assigned.
use trt_whats.Common.{
  ℕ, ◌≡◌, refl, ap, sym, ◌∙◌, inl, inr, Bool, true, false, not, ◌&&◌, List, [], ◌∷◌, map, any,
  nat_eq, nat_eq_iff, select, contains, nat_eq_on, arith, Bool-cases,
}
use trt_whats.Assignment.{User, is_ready, filter_available}

-- A live, active and available user with an id.
abbrev pub is_on : ℕ → User → Bool
is_on id u = nat_eq u.id id && not u.deleted && u.is_available && u.is_active

-- A member that may be assigned.
abbrev pub IsEligible : List ℕ → List ℕ → List User → ℕ → Type 0
IsEligible members excluded users id =
    (contains id members ≡ true) × (contains id excluded ≡ false) × (any (is_on id) users ≡ true)

contains-candidates :
    (id : ℕ) (members excluded : List ℕ)
    → contains id (select (λ (i : ℕ). not (contains i excluded)) members) ≡ true
    → (contains id members ≡ true) × (contains id excluded ≡ false)
contains-candidates id [] excluded h = absurd (ground arith)
contains-candidates id (m ∷ ms) excluded h = elim (Bool-cases (contains m excluded)) [
  | inl e ↦ ground (arith, contains-candidates id ms excluded)
  | inr e ↦ elim (Bool-cases (nat_eq m id)) [
    | inl same ↦
        (rw same refl, sym (ap (λ (i : ℕ). contains i excluded) ((nat_eq_iff m id).0 same)) ∙ e)
    | inr other ↦ ground (arith, contains-candidates id ms excluded)
  ]
]

contains-ready :
    (id : ℕ) (candidates : List ℕ) (users : List User)
    → contains id (map (λ (u : User). u.id) (select (is_ready candidates) users)) ≡ true
    → (contains id candidates ≡ true) × (any (is_on id) users ≡ true)
contains-ready id candidates [] h = absurd (ground arith)
contains-ready id candidates (u ∷ us) h = elim (Bool-cases (is_ready candidates u)) [
  | inr e ↦ ground (arith, contains-ready id candidates us)
  | inl e ↦ elim (Bool-cases (nat_eq u.id id)) [
    | inr other ↦ ground (arith, contains-ready id candidates us)
    | inl same ↦
        let known : contains u.id candidates ≡ true = ground (arith, e) in
        (
          sym (ap (λ (i : ℕ). contains i candidates) ((nat_eq_iff u.id id).0 same)) ∙ known,
          ground (arith, e, same),
        )
  ]
]

pub filter_available-IsEligible :
    (id : ℕ) (members excluded : List ℕ) (users : List User)
    → contains id (filter_available members excluded users) ≡ true
    → IsEligible members excluded users id
unfolding filter_available
filter_available-IsEligible id members excluded users h =
    let candidates = select (λ (i : ℕ). not (contains i excluded)) members in
    let ready = contains-ready id candidates users h in
    let here = contains-candidates id members excluded ready.0 in (here.0, here.1, ready.1)

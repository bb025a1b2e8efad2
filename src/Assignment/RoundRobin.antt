-- ===== src/Assignment/RoundRobin.antt =====
-- internal/assignment/assigner.go, assignRoundRobin.
use trt_whats.Common.{
  ℕ, ◌≡◌, refl, ◌∙◌, inl, inr, Bool, true, false, ◌&&◌, List, [], ◌∷◌, map, Option, none, some,
  if◌then◌else◌, select, contains, All, nat_eq_on, arith, Bool-cases,
}
use trt_whats.Assignment.{
  TeamMember, User, is_member_of, filter_available, is_before, insert_member, order_members, stamp,
  assign_round_robin,
}

is_before_trans :
    (a b c : Option ℕ) → is_before a b ≡ true → is_before b c ≡ true → is_before a c ≡ true
is_before_trans none b c h k = refl
is_before_trans (some a) none c h k = absurd (ground arith)
is_before_trans (some a) (some b) none h k = absurd (ground arith)
is_before_trans (some a) (some b) (some c) h k = ground arith

is_before_total : (a b : Option ℕ) → is_before a b ≡ false → is_before b a ≡ true
is_before_total none b h = absurd (ground arith)
is_before_total (some a) none h = refl
is_before_total (some a) (some b) h = ground arith

is_before_refl : (a : Option ℕ) → is_before a a ≡ true
is_before_refl none = refl
is_before_refl (some a) = ground arith

-- The member waits at least as long as another one.
abbrev pub WaitsLonger : TeamMember → TeamMember → Type 0
WaitsLonger m n = is_before m.last_assigned_at n.last_assigned_at ≡ true

abbrev Sorted : List TeamMember → Type 0
Sorted [] = Unit
Sorted (m ∷ ms) = All (WaitsLonger m) ms × Sorted ms

insert_member-All :
    (P : TeamMember → Type 0) (m : TeamMember) (ms : List TeamMember)
    → P m
    → All P ms
    → All P (insert_member m ms)
unfolding insert_member
insert_member-All P m [] p h = (p, tt)
insert_member-All P m (n ∷ ns) p h =
    elim (Bool-cases (is_before m.last_assigned_at n.last_assigned_at)) [
      | inl e ↦ rw e (p, h)
      | inr e ↦ rw e (h.0, insert_member-All P m ns p h.1)
    ]

All-insert_member :
    (P : TeamMember → Type 0) (m : TeamMember) (ms : List TeamMember)
    → All P (insert_member m ms)
    → P m × All P ms
unfolding insert_member
All-insert_member P m [] h = h
All-insert_member P m (n ∷ ns) h =
    go (is_before m.last_assigned_at n.last_assigned_at) (All-insert_member P m ns) h
  where
    go :
        (b : Bool)
        → (All P (insert_member m ns) → P m × All P ns)
        → All P (if b then m ∷ n ∷ ns else n ∷ insert_member m ns)
        → P m × All P (n ∷ ns)
    go true r h = h
    go false r h = let both = r h.1 in (both.0, (h.0, both.1))

All-WaitsLonger :
    (m n : TeamMember) (ns : List TeamMember)
    → WaitsLonger m n
    → All (WaitsLonger n) ns
    → All (WaitsLonger m) ns
All-WaitsLonger m n [] h k = tt
All-WaitsLonger m n (o ∷ os) h k = (
  is_before_trans m.last_assigned_at n.last_assigned_at o.last_assigned_at h k.0,
  All-WaitsLonger m n os h k.1,
)

insert_member-Sorted :
    (m : TeamMember) (ms : List TeamMember) → Sorted ms → Sorted (insert_member m ms)
unfolding insert_member
insert_member-Sorted m [] h = (tt, tt)
insert_member-Sorted m (n ∷ ns) h =
    elim (Bool-cases (is_before m.last_assigned_at n.last_assigned_at)) [
      | inl e ↦ rw e ((e, All-WaitsLonger m n ns e h.0), h)
      | inr e ↦ rw e (
        insert_member-All (WaitsLonger n) m ns
            (is_before_total m.last_assigned_at n.last_assigned_at e) h.0,
        insert_member-Sorted m ns h.1,
      )
    ]

order_members-Sorted : (ms : List TeamMember) → Sorted (order_members ms)
unfolding order_members
order_members-Sorted [] = tt
order_members-Sorted (m ∷ ms) = insert_member-Sorted m (order_members ms) (order_members-Sorted ms)

order_members-All :
    (P : TeamMember → Type 0) (ms : List TeamMember) → All P ms → All P (order_members ms)
unfolding order_members
order_members-All P [] h = tt
order_members-All P (m ∷ ms) h =
    insert_member-All P m (order_members ms) h.0 (order_members-All P ms h.1)

All-order_members :
    (P : TeamMember → Type 0) (ms : List TeamMember) → All P (order_members ms) → All P ms
unfolding order_members
All-order_members P [] h = tt
All-order_members P (m ∷ ms) h =
    let both = All-insert_member P m (order_members ms) h in (both.0, All-order_members P ms both.1)

select-All : (p : TeamMember → Bool) (ms : List TeamMember) → All (λ m. p m ≡ true) (select p ms)
select-All p [] = tt
select-All p (m ∷ ms) = elim (Bool-cases (p m)) [
  | inl e ↦ rw e (e, select-All p ms)
  | inr e ↦ rw e (select-All p ms)
]

-- The members of the team among whom the next one is chosen.
abbrev pub is_choice : ℕ → List ℕ → TeamMember → Bool
is_choice team available m = is_member_of team m && contains m.user_id available

-- A member of the team that is available, waits at least as long as every other such member, and
-- whose time alone has been set.
abbrev pub IsNext : ℕ → ℕ → List ℕ → List TeamMember → ℕ → List TeamMember → Type 0
IsNext now team available table id table' =
    (m : TeamMember) × (m.user_id ≡ id)
    × (is_choice team available m ≡ true)
    × All (WaitsLonger m) (select (is_choice team available) table)
    × (table' ≡ map (stamp now m.id) table)

abbrev Chosen : ℕ → ℕ → List ℕ → List TeamMember → List TeamMember → Type 0
Chosen now team available table [] = Unit
Chosen now team available table (m ∷ ms) =
    IsNext now team available table m.user_id (map (stamp now m.id) table)

order_members-Chosen :
    (now team : ℕ) (available : List ℕ) (table : List TeamMember)
    → Chosen now team available table (order_members (select (is_choice team available) table))
order_members-Chosen now team available table =
    go (order_members cs) (order_members-Sorted cs)
      (order_members-All (λ m. is_choice team available m ≡ true) cs
        (select-All (is_choice team available) table))
      (λ m. All-order_members (WaitsLonger m) cs)
  where
    cs : List TeamMember
    cs = select (is_choice team available) table

    go :
        (ms : List TeamMember)
        → Sorted ms
        → All (λ m. is_choice team available m ≡ true) ms
        → ((m : TeamMember) → All (WaitsLonger m) ms → All (WaitsLonger m) cs)
        → Chosen now team available table ms
    go [] s c w = tt
    go (m ∷ ms) s c w = (m, refl, c.0, w m (is_before_refl m.last_assigned_at, s.0), refl)

pub assign_round_robin-IsNext :
    (now team : ℕ) (ids excluded : List ℕ) (users : List User) (table : List TeamMember) {id : ℕ}
    → (assign_round_robin now team ids excluded users table).0 ≡ some id
    → IsNext now team
        (filter_available ids excluded users)
        table
        id
        (assign_round_robin now team ids excluded users table).1
unfolding assign_round_robin
assign_round_robin-IsNext now team ids excluded users table {id} h =
    go (order_members (select (is_choice team available) table))
      (order_members-Chosen now team available table) h
  where
    available : List ℕ
    available = filter_available ids excluded users

    result : List TeamMember → Option ℕ × List TeamMember
    result [] = (none, table)
    result (m ∷ ms) = (some m.user_id, map (stamp now m.id) table)

    go :
        (ms : List TeamMember)
        → Chosen now team available table ms
        → (result ms).0 ≡ some id
        → IsNext now team available table id (result ms).1
    go [] c h = cc
    go (m ∷ ms) c h = let same : m.user_id ≡ id = cc h in (c.0, c.1 ∙ same, c.2, c.3, c.4)

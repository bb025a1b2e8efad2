-- ===== src/Common/Maps.antt =====
-- Go maps as association lists. The list's order is the order in which a range visits the map.
use mathlib.Core.Path.{◌≡◌, refl}
use mathlib.Core.Bool.{Bool, false, ◌||◌}
use mathlib.Core.List.{List, [], ◌∷◌, map}
use mathlib.Core.Option.{Option, none, some}
use native.Mathlib.Omega.{arith}
use trt_whats.Common.Tests.{if◌then◌else◌}
use trt_whats.Common.Eq.{EqOn, ◌==◌}

abbrev pub Map {ℓ κ} : Type ℓ → Type κ → Type (ℓ ⊔ κ)
Map K V = List (K × V)

module _ {ℓ κ} {K : Type ℓ} {V : Type κ} ⦃e : EqOn K⦄ where
  unfoldable pub lookup : K → Map K V → Option V
  lookup key [] = none
  lookup key ((held, value) ∷ rest) = if held == key then some value else lookup key rest

  unfoldable pub insert : K → V → Map K V → Map K V
  insert key value [] = (key, value) ∷ []
  insert key value ((held, old) ∷ rest) =
      if held == key then (key, value) ∷ rest else (held, old) ∷ insert key value rest

  -- delete(m, k)
  unfoldable pub delete : K → Map K V → Map K V
  delete k [] = []
  delete k ((j, w) ∷ m) = if j == k then delete k m else (j, w) ∷ delete k m

  unfoldable pub member : K → Map K V → Bool
  member k [] = false
  member k ((j, w) ∷ m) = (j == k) || member k m

  abbrev pub keys : Map K V → List K
  keys m = map (λ p. p.0) m

  -- No key twice, as in a Go map.
  abbrev pub IsDistinct : Map K V → Type 0
  IsDistinct [] = Unit
  IsDistinct ((j, w) ∷ m) = (member j m ≡ false) × IsDistinct m

  pub lookup-insert :
      (key wanted : K) (value : V) (rest : Map K V)
      → lookup wanted (insert key value rest)
        ≡ (if key == wanted then some value else lookup wanted rest)
  unfolding lookup insert
  lookup-insert key wanted value [] = refl
  lookup-insert key wanted value ((held, old) ∷ rest) = ground (
    e.same_iff key wanted,
    e.same_iff held key,
    e.same_iff held wanted,
    arith,
    lookup-insert key wanted value rest,
  )

  pub lookup-delete :
      (k j : K) (m : Map K V) → lookup j (delete k m) ≡ (if k == j then none else lookup j m)
  unfolding lookup delete
  lookup-delete k j [] = ground arith
  lookup-delete k j ((i, w) ∷ m) =
      ground (arith, e.same_iff k j, e.same_iff i k, e.same_iff i j, lookup-delete k j m)

  member-insert :
      (k j : K) (v : V) (m : Map K V) → member j (insert k v m) ≡ ((k == j) || member j m)
  unfolding member insert
  member-insert k j v [] = refl
  member-insert k j v ((i, w) ∷ m) =
      ground (arith, e.same_iff k j, e.same_iff i k, e.same_iff i j, member-insert k j v m)

  member-delete : (k j : K) (m : Map K V) → member j m ≡ false → member j (delete k m) ≡ false
  unfolding member delete
  member-delete k j [] h = refl
  member-delete k j ((i, w) ∷ m) h = ground (arith, member-delete k j m)

  pub insert-IsDistinct : (k : K) (v : V) (m : Map K V) → IsDistinct m → IsDistinct (insert k v m)
  unfolding insert member
  insert-IsDistinct k v [] d = (refl, tt)
  insert-IsDistinct k v ((i, w) ∷ m) d =
      ground
        (arith, e.same_iff i k, e.same_iff k i, member-insert k i v m, insert-IsDistinct k v m d.1)

  pub delete-IsDistinct : (k : K) (m : Map K V) → IsDistinct m → IsDistinct (delete k m)
  unfolding delete
  delete-IsDistinct k [] d = tt
  delete-IsDistinct k ((i, w) ∷ m) d =
      ground (arith, member-delete k i m, delete-IsDistinct k m d.1)

  pub not-member-lookup : (k : K) (m : Map K V) → member k m ≡ false → lookup k m ≡ none
  unfolding lookup member
  not-member-lookup k [] h = refl
  not-member-lookup k ((i, w) ∷ m) h = ground (arith, not-member-lookup k m)

  pub lookup-none-member : (k : K) (m : Map K V) → lookup k m ≡ none → member k m ≡ false
  unfolding lookup member
  lookup-none-member k [] h = refl
  lookup-none-member k ((i, w) ∷ m) h = ground (arith, lookup-none-member k m)

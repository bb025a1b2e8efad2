-- ===== src/Common/Members.antt =====
-- Membership in a list, as a Boolean test by an equality.
use mathlib.Core.Path.{◌≡◌, refl}
use mathlib.Core.Bool.{Bool, true, false, ◌||◌}
use mathlib.Core.List.{List, [], ◌∷◌, ◌++◌}
use native.Mathlib.Omega.{arith}
use trt_whats.Common.Lists.{select}
use trt_whats.Common.Eq.{EqOn, ◌==◌}

module _ {ℓ} {A : Type ℓ} ⦃e : EqOn A⦄ where
  abbrev pub contains : A → List A → Bool
  contains a [] = false
  contains a (x ∷ xs) = (x == a) || contains a xs

  -- No entry twice.
  abbrev pub IsNodup : List A → Type 0
  IsNodup [] = Unit
  IsNodup (x ∷ xs) = (contains x xs ≡ false) × IsNodup xs

  pub contains-append :
      (a : A) (xs ys : List A) → contains a (xs ++ ys) ≡ (contains a xs || contains a ys)
  contains-append a [] ys = refl
  contains-append a (x ∷ xs) ys = ground (arith, contains-append a xs ys)

  pub snoc-IsNodup :
      (a : A) (xs : List A) → IsNodup xs → contains a xs ≡ false → IsNodup (xs ++ a ∷ [])
  snoc-IsNodup a [] d h = (refl, tt)
  snoc-IsNodup a (x ∷ xs) d h =
      ground (
        arith,
        contains-append x xs (a ∷ []),
        e.same_iff x a,
        e.same_iff a x,
        snoc-IsNodup a xs d.1,
      )

  pub contains-select :
      (p : A → Bool) (a : A) (xs : List A) → contains a (select p xs) ≡ true → contains a xs ≡ true
  contains-select p a [] h = h
  contains-select p a (x ∷ xs) h = ground (arith, contains-select p a xs)

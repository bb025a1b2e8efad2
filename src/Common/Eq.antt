-- ===== src/Common/Eq.antt =====
-- Decidable equality as an interface, and text as the list of its code points.
use Prim.Native.Nat.{ℕ}
use Prim.Native.Char.{code}
use Prim.Native.String.{String}
use mathlib.Core.Path.{◌≡◌, refl}
use mathlib.Core.Logic.{◌≢◌, ◌↔◌}
use mathlib.Core.Bool.{Bool, true, false, ◌&&◌}
use mathlib.Core.List.{List, [], ◌∷◌}
use native.Mathlib.Omega.{arith}
use trt_whats.Common.Tests.{nat_eq, nat_eq_iff}

-- A test that decides equality.
pub record EqOn {ℓ} (Key : Type ℓ) : Type ℓ where
  pub same : Key → Key → Bool
  pub same_iff : (x y : Key) → (same x y ≡ true) ↔ (x ≡ y)

infix 50 ◌==◌
abbrev pub ◌==◌ {ℓ} : {Key : Type ℓ} ⦃test : EqOn Key⦄ → Key → Key → Bool
◌==◌ ⦃test = decider⦄ x y = decider.same x y

module _ {ℓ} {A : Type ℓ} ⦃e : EqOn A⦄ where
  pub ==_refl : (a : A) → (a == a) ≡ true
  ==_refl a = (e.same_iff a a).1 refl

  pub ==_true : (a b : A) → (a == b) ≡ true → a ≡ b
  ==_true a b = (e.same_iff a b).0

  pub ==_false : (a b : A) → (a == b) ≡ false → a ≢ b
  ==_false a b h p = cc (h, (e.same_iff a b).1 p)

-- A text is the list of its code points.
abbrev pub Text : Type 0
Text = List ℕ

abbrev pub codes : String → Text
codes String.[] = []
codes (String.◌∷◌ c s) = code c ∷ codes s

unfoldable pub text_eq : Text → Text → Bool
text_eq [] [] = true
text_eq [] (y ∷ ys) = false
text_eq (x ∷ xs) [] = false
text_eq (x ∷ xs) (y ∷ ys) = nat_eq x y && text_eq xs ys

pub text_eq_iff : (a b : Text) → (text_eq a b ≡ true) ↔ (a ≡ b)
unfolding text_eq
text_eq_iff [] [] = (λ _. refl, λ _. refl)
text_eq_iff [] (y ∷ ys) = (λ h. cc, λ h. cc)
text_eq_iff (x ∷ xs) [] = (λ h. cc, λ h. cc)
text_eq_iff (x ∷ xs) (y ∷ ys) = ground (arith, text_eq_iff xs ys)

instance abbrev pub nat_eq_on : EqOn ℕ
nat_eq_on = record { same = nat_eq; same_iff = nat_eq_iff }

instance abbrev pub text_eq_on : EqOn Text
text_eq_on = record { same = text_eq; same_iff = text_eq_iff }

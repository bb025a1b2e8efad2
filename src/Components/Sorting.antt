-- ===== src/Components/Sorting.antt =====
-- The library sort of a slice by a test, and what it makes of an order of its input. Elements that
-- neither is before the other may come in any order from Go's; here the later one of the input
-- comes last.
use trt_whats.Common.{
  ◌≡◌, refl, sym, ◌∙◌, inl, inr, Bool, true, false, List, [], ◌∷◌, if◌then◌else◌, All, Bool-cases,
  arith, subst,
}
use mathlib.Core.List.{Permᴰ}

module _ {ℓ} {A : Type ℓ} (lt : A → A → Bool) where
  abbrev pub insert_sorted : A → List A → List A
  insert_sorted x [] = x ∷ []
  insert_sorted x (y ∷ ys) =
      let rest = insert_sorted x ys in if lt y x then y ∷ rest else x ∷ y ∷ ys

  -- sort.Slice and sort.Strings
  abbrev pub sort : List A → List A
  sort [] = []
  sort (x ∷ xs) = insert_sorted x (sort xs)

  -- An order for the elements that P holds of.
  module _ {κ} (P : A → Type κ)
      (trans : (x y z : A) → P x → P y → P z → lt x y ≡ true → lt y z ≡ true → lt x z ≡ true)
      (asym : (x y : A) → P x → P y → lt x y ≡ true → lt y x ≡ false)
      (total : (x y : A) → P x → P y → lt x y ≡ false → lt y x ≡ false → x ≡ y) where
    insert_sorted_comm :
        (x y : A) (zs : List A)
        → P x
        → P y
        → All P zs
        → insert_sorted x (insert_sorted y zs) ≡ insert_sorted y (insert_sorted x zs)
    insert_sorted_comm x y [] p q r = ground (arith, asym x y p q, asym y x q p, total x y p q)
    insert_sorted_comm x y (z ∷ zs) p q (r, rs) = ground (
      arith,
      insert_sorted_comm x y zs p q rs,
      asym x y p q,
      asym y x q p,
      total x y p q,
      trans z x y r p q,
      trans z y x r q p,
    )

    insert_sorted-All : (x : A) (zs : List A) → P x → All P zs → All P (insert_sorted x zs)
    insert_sorted-All x [] p r = (p, tt)
    insert_sorted-All x (z ∷ zs) p (r, rs) = elim (Bool-cases (lt z x)) [
      | inl after ↦ rw after ((r, insert_sorted-All x zs p rs))
      | inr before ↦ rw before ((p, (r, rs)))
    ]

    pub sort-All : (xs : List A) → All P xs → All P (sort xs)
    sort-All [] h = tt
    sort-All (x ∷ xs) (p, h) = insert_sorted-All x (sort xs) p (sort-All xs h)

    pub All-Permᴰ : {xs ys : List A} → Permᴰ xs ys → All P xs → All P ys
    All-Permᴰ Permᴰ.nil h = tt
    All-Permᴰ (Permᴰ.cons e d) (p, h) = (subst P e p, All-Permᴰ d h)
    All-Permᴰ (Permᴰ.swap e k) (p, (q, h)) = (subst P k q, (subst P e p, h))
    All-Permᴰ (Permᴰ.trans d f) h = All-Permᴰ f (All-Permᴰ d h)

    -- The sort does not depend on the order of its input.
    pub sort-Permᴰ : {xs ys : List A} → Permᴰ xs ys → All P xs → sort xs ≡ sort ys
    sort-Permᴰ Permᴰ.nil h = refl
    sort-Permᴰ (Permᴰ.cons {l₁ = xs} e d) (p, h) = rw (e, sort-Permᴰ d h) refl
    sort-Permᴰ (Permᴰ.swap {a = a} {b = b} {l = zs} e k) (p, (q, h)) =
        rw (sym e, sym k) (insert_sorted_comm a b (sort zs) p q (sort-All zs h))
    sort-Permᴰ (Permᴰ.trans d f) h = sort-Permᴰ d h ∙ sort-Permᴰ f (All-Permᴰ d h)

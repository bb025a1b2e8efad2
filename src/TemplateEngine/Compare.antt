-- ===== src/TemplateEngine/Compare.antt =====
-- internal/handlers/template_engine.go: what a comparison says of integers, and of what is no number.
use trt_whats.Common.{
  ◌+◌, ◌^◌, ◌≤◌, true, false, not, none, some, Text, arith, ◌≡◌, sym, ap, ◌∙◌, text_eq_on,
  text_eq_iff, ◌⊎◌, inl, inr, ◌==◌, ℤ, pos_part, neg_part, ltb_ℤ, leb_ℤ, eqb_ℤ, eqb_ℤ_iff,
  Bool-cases,
}
use trt_whats.Json.{Value, FloatOps}
use trt_whats.Strconv.Decimal.{itoa, atoi, atoi-itoa}
use trt_whats.TemplateEngine.Condition.{
  numeric, compare_numeric, compare_equal, compare_by, equal, greater, less, at_least, at_most,
}

-- An integer that a float64 represents exactly.
abbrev pub IsExact : ℤ → Type 0
IsExact z = pos_part z + neg_part z ≤ 2 ^ 53

-- What the language promises of such integers: their decimals are parsed to them, and they are
-- ordered as integers are.
abbrev pub Parses : FloatOps → Type 0
Parses float = (z : ℤ) → IsExact z → float.parse (itoa z) ≡ some (float.of_int z)

abbrev pub Orders : FloatOps → Type 0
Orders float =
    (x y : ℤ) → IsExact x → IsExact y → float.lt (float.of_int x) (float.of_int y) ≡ ltb_ℤ x y

itoa_equal : (a b : ℤ) → IsExact a → IsExact b → (itoa a == itoa b) ≡ eqb_ℤ a b
itoa_equal a b p q = elim (Bool-cases (eqb_ℤ a b)) [
  | inl same ↦ (text_eq_iff (itoa a) (itoa b)).1 (ap itoa ((eqb_ℤ_iff a b).0 same)) ∙ sym same
  | inr other ↦ elim (Bool-cases (itoa a == itoa b)) [
    | inr e ↦ e ∙ sym other
    | inl e ↦
        let back : some a ≡ some b =
          sym (atoi-itoa a (omega (arith, p)) (omega (arith, p)))
          ∙ ap atoi ((text_eq_iff (itoa a) (itoa b)).0 e)
          ∙ atoi-itoa b (omega (arith, q)) (omega (arith, q)) in
        absurd (ground (arith, back, eqb_ℤ_iff a b))
  ]
]

not_less : (a b : ℤ) → leb_ℤ a b ≡ not (ltb_ℤ b a)
not_less a b = ground arith

module _ (float : FloatOps) (sprint : Value → Text) where
  compare_numeric_int :
      (a b : ℤ)
      → Parses float
      → Orders float
      → IsExact a
      → IsExact b
      → (ltb_ℤ (compare_numeric float (Value.int a) (itoa b)) (ℤ.pos 0) ≡ ltb_ℤ a b)
        × (ltb_ℤ (ℤ.pos 0) (compare_numeric float (Value.int a) (itoa b)) ≡ ltb_ℤ b a)
  unfolding compare_numeric
  compare_numeric_int a b parses orders p q =
      rw (compare_numeric, parses b q) (rw (orders a b p q, orders b a q p) (ground arith))

  -- The comparison of an integer with the decimal of another one is the comparison of the integers
  -- for all five operators, where both are at most 2^53 in size, and floats of that size are parsed
  -- and ordered as the language promises.
  pub compare_by_int :
      (a b : ℤ)
      → Parses float
      → Orders float
      → IsExact a
      → IsExact b
      → (compare_by float sprint equal (Value.int a) (itoa b) ≡ eqb_ℤ a b)
        × (compare_by float sprint less (Value.int a) (itoa b) ≡ ltb_ℤ a b)
        × (compare_by float sprint greater (Value.int a) (itoa b) ≡ ltb_ℤ b a)
        × (compare_by float sprint at_least (Value.int a) (itoa b) ≡ leb_ℤ b a)
        × (compare_by float sprint at_most (Value.int a) (itoa b) ≡ leb_ℤ a b)
  unfolding compare_by compare_equal
  compare_by_int a b parses orders p q =
      let (below, above) = compare_numeric_int a b parses orders p q in
      let c = compare_numeric float (Value.int a) (itoa b) in
      (
        itoa_equal a b p q,
        below,
        above,
        not_less (ℤ.pos 0) c ∙ ap not below ∙ sym (not_less b a),
        not_less c (ℤ.pos 0) ∙ ap not above ∙ sym (not_less a b),
      )

  -- Where one of the two is no number, >= and <= both hold, and < and > do not.
  pub compare_by_unknown :
      (v : Value) (t : Text)
      → (numeric float v ≡ none) ⊎ (float.parse t ≡ none)
      → (compare_by float sprint at_least v t ≡ true)
        × (compare_by float sprint at_most v t ≡ true)
        × (compare_by float sprint less v t ≡ false)
        × (compare_by float sprint greater v t ≡ false)
  unfolding compare_by compare_numeric
  compare_by_unknown v t h = ground arith

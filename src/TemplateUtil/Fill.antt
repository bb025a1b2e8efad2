-- ===== src/TemplateUtil/Fill.antt =====
-- internal/templateutil/templateutil.go: the values that the loop of ReplaceWithStringParams assigns.
use mathlib.Core.Path.{ap₂, fun_ext}
use trt_whats.Common.{
  ℕ, ◌+◌, ◌≡◌, refl, sym, ap, ◌∙◌, inl, inr, true, false, List, [], ◌∷◌, map, Option, none, some,
  if◌then◌else◌, Text, contains, nat_eq_on, arith, Bool-cases, ◌==◌, ==_refl, ==_true, text_eq_on,
  Map, lookup, All, text_eq_iff,
}
use trt_whats.Strconv.Decimal.{decimal}
use trt_whats.TemplateUtil.{param_value}
use trt_whats.TemplateUtil.Segments.{Segment, lit, hole, IsTemplate}
use trt_whats.TemplateUtil.Placeholder.{fill_one}

-- The value that the loop finds for a name, among the names from index i.
abbrev pub assigned : Map Text Text → ℕ → List Text → Text → Option Text
assigned params i [] n = none
assigned params i (m ∷ ms) n =
    if n == m then param_value params i m else assigned params (i + 1) ms n

-- A placeholder with a value made literal text.
abbrev pub fill_with : Text → Option Text → Segment
fill_with n none = hole n
fill_with n (some v) = lit v

abbrev pub fill : (Text → Option Text) → Segment → Segment
fill f (lit t) = lit t
fill f (hole n) = fill_with n (f n)

pub fill_none :
    (params : Map Text Text) (i : ℕ) (ss : List Segment) → map (fill (assigned params i [])) ss ≡ ss
fill_none params i [] = refl
fill_none params i (lit t ∷ ss) = ap (◌∷◌ (lit t)) (fill_none params i ss)
fill_none params i (hole n ∷ ss) = ap (◌∷◌ (hole n)) (fill_none params i ss)

-- No value for the params holds an opening brace.
abbrev pub IsPlain : Map Text Text → Type 0
IsPlain params = All (λ p. contains b'{' p.1 ≡ false) params

lookup-IsPlain :
    (params : Map Text Text) (k v : Text)
    → IsPlain params
    → lookup k params ≡ some v
    → contains b'{' v ≡ false
unfolding lookup
lookup-IsPlain [] k v h e = cc
lookup-IsPlain ((j, w) ∷ params) k v h e = elim (Bool-cases (j == k)) [
  | inl hit ↦ let same : w ≡ v = ground arith in rw (← same) h.0
  | inr miss ↦ lookup-IsPlain params k v h.1 (ground arith)
]

pub param_value-IsPlain :
    (params : Map Text Text) (i : ℕ) (n v : Text)
    → IsPlain params
    → param_value params i n ≡ some v
    → contains b'{' v ≡ false
unfolding param_value
param_value-IsPlain params i n v h e =
    ground (arith, lookup-IsPlain params n v h, lookup-IsPlain params (decimal (i + 1)) v h)

pub assigned_absent :
    (params : Map Text Text) (i : ℕ) (names : List Text) (n : Text)
    → contains n names ≡ false
    → assigned params i names n ≡ none
assigned_absent params i [] n h = refl
assigned_absent params i (m ∷ ms) n h =
    ground (arith, text_eq_iff n m, text_eq_iff m n, assigned_absent params (i + 1) ms n)

pub fill_one-IsTemplate :
    (name v : Text) (ss : List Segment)
    → contains b'{' v ≡ false
    → IsTemplate ss
    → IsTemplate (map (fill_one name v) ss)
fill_one-IsTemplate name v [] k h = tt
fill_one-IsTemplate name v (lit t ∷ ss) k h = (h.0, fill_one-IsTemplate name v ss k h.1)
fill_one-IsTemplate name v (hole n ∷ ss) k h = elim (Bool-cases (n == name)) [
  | inl same ↦ rw same ((k, fill_one-IsTemplate name v ss k h.1))
  | inr other ↦ rw other ((h.0, fill_one-IsTemplate name v ss k h.1))
]

module _ (params : Map Text Text) (i : ℕ) (name : Text) (names : List Text) where
  assigned_hit :
      (n : Text)
      → (n == name) ≡ true
      → assigned params i (name ∷ names) n ≡ param_value params i name
  assigned_hit n h = rw h

  assigned_miss :
      (n : Text)
      → (n == name) ≡ false
      → assigned params i (name ∷ names) n ≡ assigned params (i + 1) names n
  assigned_miss n h = rw h

  -- Filling one name first, and the rest after it, fills them all.
  pub fill-fill_one :
      (v : Text) (ss : List Segment)
      → param_value params i name ≡ some v
      → map (fill (assigned params (i + 1) names)) (map (fill_one name v) ss)
        ≡ map (fill (assigned params i (name ∷ names))) ss
  fill-fill_one v [] e = refl
  fill-fill_one v (lit t ∷ ss) e = ap (◌∷◌ (lit t)) (fill-fill_one v ss e)
  fill-fill_one v (hole n ∷ ss) e = elim (Bool-cases (n == name)) [
    | inl same ↦ rw (same, map) (ap₂ ◌∷◌ (sym (ap (fill_with n) e)) (fill-fill_one v ss e))
    | inr other ↦
        rw (other, map)
          (ap (◌∷◌ (fill_with n (assigned params (i + 1) names n))) (fill-fill_one v ss e))
  ]

  assigned_valueless :
      (n : Text)
      → param_value params i name ≡ none
      → contains name names ≡ false
      → assigned params (i + 1) names n ≡ assigned params i (name ∷ names) n
  assigned_valueless n e h = elim (Bool-cases (n == name)) [
    | inl same ↦
        rw (==_true n name same)
          (assigned_absent params (i + 1) names name h ∙ sym (assigned_hit name (==_refl name) ∙ e))
    | inr other ↦ sym (assigned_miss n other)
  ]

  pub fill_valueless :
      (ss : List Segment)
      → param_value params i name ≡ none
      → contains name names ≡ false
      → map (fill (assigned params (i + 1) names)) ss
        ≡ map (fill (assigned params i (name ∷ names))) ss
  fill_valueless ss e h = ap (λ f. map (fill f) ss) (fun_ext (λ n. assigned_valueless n e h))

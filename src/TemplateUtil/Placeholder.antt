-- ===== src/TemplateUtil/Placeholder.antt =====
-- internal/templateutil/templateutil.go: strings.ReplaceAll of one placeholder in a content.
use mathlib.Core.List.{append_assoc}
use trt_whats.Common.{
  ◌-◌, ◌≡◌, ◌≢◌, refl, ap, ◌∙◌, inl, inr, true, false, List, [], ◌∷◌, ◌++◌, map, if◌then◌else◌,
  Text, length, contains, contains-append, nat_eq_on, arith, Bool-cases, ◌==◌, ==_true, ==_false,
  text_eq_on,
}
use trt_whats.Strconv.Search.{has_prefix, replace_from}
use trt_whats.TemplateUtil.{placeholder, opening, closing}
use trt_whats.TemplateUtil.Segments.{
  Segment, lit, hole, render, IsSegment, IsTemplate, placeholder-append,
}

has_prefix-append : (p s : Text) → has_prefix (p ++ s) p ≡ true
unfolding has_prefix
has_prefix-append [] [] = refl
has_prefix-append [] (c ∷ s) = refl
has_prefix-append (c ∷ p) s = ground (arith, has_prefix-append p s)

-- Two names without a closing brace, each with one behind it: only equal names match.
has_prefix_names :
    (n m s u : Text)
    → contains b'}' n ≡ false
    → contains b'}' m ≡ false
    → has_prefix (n ++ b'}' ∷ s) (m ++ b'}' ∷ u) ≡ true
    → n ≡ m
unfolding has_prefix
has_prefix_names [] [] s u h k e = refl
has_prefix_names [] (c ∷ m) s u h k e = ground arith
has_prefix_names (c ∷ n) [] s u h k e = ground arith
has_prefix_names (c ∷ n) (d ∷ m) s u h k e = ground (arith, has_prefix_names n m s u)

module _ (name v : Text) where
  abbrev old : Text
  old = placeholder name

  replace_from-lit :
      (t s : Text)
      → contains b'{' t ≡ false
      → replace_from old v 0 (t ++ s) ≡ t ++ replace_from old v 0 s
  unfolding replace_from
  replace_from-lit [] s h = refl
  replace_from-lit (c ∷ t) s h =
      let other : has_prefix (c ∷ (t ++ s)) old ≡ false = unfold has_prefix in ground arith in
      rw (other, replace_from) (ap (◌∷◌ c) (replace_from-lit t s (ground arith)))

  replace_from-skip : (t s : Text) → replace_from old v (length t) (t ++ s) ≡ replace_from old v 0 s
  unfolding replace_from
  replace_from-skip [] s = refl
  replace_from-skip (c ∷ t) s = replace_from-skip t s

  length-old : length old - 1 ≡ length (b'{' ∷ (name ++ closing))
  length-old = omega arith

  replace_from_tail :
      (s : Text)
      → replace_from old v (length old - 1) ((b'{' ∷ (name ++ closing)) ++ s)
        ≡ replace_from old v 0 s
  replace_from_tail s = rw length-old (replace_from-skip (b'{' ∷ (name ++ closing)) s)

  -- The placeholder itself is replaced.
  replace_from-hit : (s : Text) → replace_from old v 0 (old ++ s) ≡ v ++ replace_from old v 0 s
  unfolding replace_from
  replace_from-hit s =
      rw (has_prefix-append old s, replace_from) (ap (◌++◌ v) (replace_from_tail s))

  miss_first :
      (n s : Text)
      → IsSegment (hole n)
      → contains b'}' name ≡ false
      → n ≢ name
      → has_prefix (opening ++ (n ++ (closing ++ s))) old ≡ false
  unfolding has_prefix
  miss_first n s h k e = elim (Bool-cases (has_prefix (n ++ (closing ++ s)) (name ++ closing))) [
    | inl hit ↦ absurd (e (has_prefix_names n name (b'}' ∷ s) (b'}' ∷ []) h.1 k hit))
    | inr miss ↦ miss
  ]

  miss_second :
      (n s : Text) → IsSegment (hole n) → has_prefix (b'{' ∷ (n ++ (closing ++ s))) old ≡ false
  unfolding has_prefix
  miss_second [] s h = refl
  miss_second (c ∷ n) s h = ground arith

  closed_name : (n : Text) → contains b'{' n ≡ false → contains b'{' (n ++ closing) ≡ false
  closed_name n h = rw (contains-append b'{' n closing, h) refl

  -- Another placeholder is passed over.
  replace_from-miss :
      (n s : Text)
      → IsSegment (hole n)
      → contains b'}' name ≡ false
      → n ≢ name
      → replace_from old v 0 (placeholder n ++ s) ≡ placeholder n ++ replace_from old v 0 s
  unfolding replace_from
  replace_from-miss n s h k e = rw (placeholder-append n s) (
      rw (miss_first n s h k e, replace_from)
        (rw (miss_second n s h, replace_from)
          (ap (λ t. opening ++ t)
            (rw (← append_assoc n closing s)
              (replace_from-lit (n ++ closing) s (closed_name n h.0))))))

-- The placeholders of one name made literal text.
abbrev pub fill_one : Text → Text → Segment → Segment
fill_one name v (lit t) = lit t
fill_one name v (hole n) = if n == name then lit v else hole n

pub replace_from-render :
    (name v : Text) (ss : List Segment)
    → IsTemplate ss
    → contains b'}' name ≡ false
    → replace_from (placeholder name) v 0 (render ss) ≡ render (map (fill_one name v) ss)
unfolding replace_from
replace_from-render name v [] h k = refl
replace_from-render name v (lit t ∷ ss) h k =
    replace_from-lit name v t (render ss) h.0 ∙ ap (◌++◌ t) (replace_from-render name v ss h.1 k)
replace_from-render name v (hole n ∷ ss) h k = elim (Bool-cases (n == name)) [
  | inl same ↦ rw same (
      rw (==_true n name same)
        (replace_from-hit name v (render ss) ∙ ap (◌++◌ v) (replace_from-render name v ss h.1 k)))
  | inr other ↦ rw other (
      replace_from-miss name v n (render ss) h.0 k (==_false n name other)
      ∙ ap (◌++◌ (placeholder n)) (replace_from-render name v ss h.1 k))
]

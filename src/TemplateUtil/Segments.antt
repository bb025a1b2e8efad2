-- ===== src/TemplateUtil/Segments.antt =====
-- internal/templateutil/templateutil.go: contents as literal text and placeholders, and what
-- ParameterPattern finds in them.
use mathlib.Core.Bool.{true≢false}
use mathlib.Core.List.{append_assoc}
use trt_whats.Common.{
  ℕ, ◌+◌, ◌≡◌, refl, ap, ◌∙◌, false, List, [], ◌∷◌, ◌++◌, none, some, nat_eq, Text, length,
  length-append, contains, nat_eq_on, arith, ◌==◌, text_eq_on, text_eq,
}
use trt_whats.Strconv.Search.{has_prefix}
use trt_whats.TemplateUtil.{placeholder, opening, closing, capture, param_at, find_all}

pub data Segment : Type 0 where
  lit : Text → Segment
  hole : Text → Segment

abbrev pub render_segment : Segment → Text
render_segment (lit t) = t
render_segment (hole n) = placeholder n

abbrev pub render : List Segment → Text
render [] = []
render (s ∷ ss) = render_segment s ++ render ss

-- The names of the placeholders, in order.
abbrev pub holes : List Segment → List Text
holes [] = []
holes (lit t ∷ ss) = holes ss
holes (hole n ∷ ss) = n ∷ holes ss

-- No opening brace in literal text; no brace in a placeholder's name, which is not empty.
abbrev pub IsSegment : Segment → Type 0
IsSegment (lit t) = contains b'{' t ≡ false
IsSegment (hole n) = (contains b'{' n ≡ false) × (contains b'}' n ≡ false) × ((n == []) ≡ false)

abbrev pub IsTemplate : List Segment → Type 0
IsTemplate [] = Unit
IsTemplate (s ∷ ss) = IsSegment s × IsTemplate ss

-- A placeholder in front of a text, bracketed to the right.
pub placeholder-append : (n s : Text) → placeholder n ++ s ≡ opening ++ (n ++ (closing ++ s))
placeholder-append n s = ap (λ t. opening ++ t) (append_assoc n closing s)

param_at_other : (c : ℕ) (s : Text) → nat_eq c b'{' ≡ false → param_at (c ∷ s) ≡ none
unfolding param_at
param_at_other c s h = ground arith

find_all-lit : (t s : Text) → contains b'{' t ≡ false → find_all 0 (t ++ s) ≡ find_all 0 s
unfolding find_all
find_all-lit [] s h = refl
find_all-lit (c ∷ t) s h =
    rw (param_at_other c (t ++ s) (ground arith), find_all) (find_all-lit t s (ground arith))

find_all-skip : (t s : Text) → find_all (length t) (t ++ s) ≡ find_all 0 s
unfolding find_all
find_all-skip [] s = refl
find_all-skip (c ∷ t) s = find_all-skip t s

capture-append :
    (n s : Text) → contains b'}' n ≡ false → capture (n ++ (closing ++ s)) ≡ (n, closing ++ s)
unfolding capture
capture-append [] s h = refl
capture-append (c ∷ n) s h = ground (arith, capture-append n s)

param_at-placeholder :
    (n s : Text) → IsSegment (hole n) → param_at (opening ++ (n ++ (closing ++ s))) ≡ some n
unfolding param_at has_prefix text_eq
param_at-placeholder [] s h = absurd (true≢false h.2)
param_at-placeholder (c ∷ n) s h = rw (capture-append (c ∷ n) s h.1) refl

length-tail : (n : Text) → length (b'{' ∷ (n ++ closing)) ≡ length n + 3
length-tail n = omega (arith, length-append n closing)

find_all_tail : (n s : Text) → find_all (length n + 3) (b'{' ∷ (n ++ (closing ++ s))) ≡ find_all 0 s
find_all_tail n s =
    rw (← length-tail n, ← append_assoc n closing s) (find_all-skip (b'{' ∷ (n ++ closing)) s)

find_all-placeholder :
    (n s : Text) → IsSegment (hole n) → find_all 0 (placeholder n ++ s) ≡ n ∷ find_all 0 s
unfolding find_all
find_all-placeholder n s h =
    rw (placeholder-append n s)
      (rw (param_at-placeholder n s h, find_all) (ap (◌∷◌ n) (find_all_tail n s)))

-- The pattern finds the placeholders that a content was made of, in order, and nothing else.
pub find_all-render : (ss : List Segment) → IsTemplate ss → find_all 0 (render ss) ≡ holes ss
unfolding find_all
find_all-render [] h = refl
find_all-render (lit t ∷ ss) h = find_all-lit t (render ss) h.0 ∙ find_all-render ss h.1
find_all-render (hole n ∷ ss) h =
    find_all-placeholder n (render ss) h.0 ∙ ap (◌∷◌ n) (find_all-render ss h.1)

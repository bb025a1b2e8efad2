-- ===== src/TemplateUtil/Replace.antt =====
-- internal/templateutil/templateutil.go: what ReplaceWithStringParams makes of a content.
use trt_whats.Common.{
  ℕ, ◌+◌, ◌≡◌, ◌≢◌, refl, sym, ap, ◌∙◌, inl, inr, false, List, [], ◌∷◌, map, Text, contains,
  nat_eq_on, arith, Bool-cases, Option-cases, ◌==◌, ==_true, text_eq_on, text_eq, Map, lookup, All,
  IsNodup,
}
use trt_whats.Strconv.Trim.{trim_space}
use trt_whats.Strconv.Search.{replace_all}
use trt_whats.TemplateUtil.{
  param_value, replace_loop, replace_with_string_params, ext_param_names, ext_loop, find_all,
}
use trt_whats.TemplateUtil.Segments.{Segment, lit, hole, render, holes, IsTemplate, find_all-render}
use trt_whats.TemplateUtil.Names.{IsName, ext_param_names-IsNodup, ext_param_names-Unclosed}
use trt_whats.TemplateUtil.Placeholder.{fill_one, replace_from-render}
use trt_whats.TemplateUtil.Fill.{
  fill-fill_one, fill_valueless, assigned, fill, fill_none, IsPlain, param_value-IsPlain,
  assigned_absent, fill_one-IsTemplate,
}

-- The names that a loop may be given: distinct, and without a closing brace.
abbrev AreNames : List Text → Type 0
AreNames ns = IsNodup ns × All (λ n. contains b'}' n ≡ false) ns

replace_loop-render :
    (params : Map Text Text) (i : ℕ) (names : List Text) (ss : List Segment)
    → IsPlain params
    → AreNames names
    → IsTemplate ss
    → replace_loop params i names (render ss) ≡ render (map (fill (assigned params i names)) ss)
unfolding replace_loop replace_all
replace_loop-render params i [] ss p d h = ap render (sym (fill_none params i ss))
replace_loop-render params i (name ∷ names) ss p d h =
    elim (Option-cases (param_value params i name)) [
      | inl e ↦ rw e (
          replace_loop-render params (i + 1) names ss p (d.0.1, d.1.1) h
          ∙ ap render (fill_valueless params i name names ss e d.0.0))
      | inr (v, e) ↦ rw e (
          rw (replace_from-render name v ss h d.1.0) (
            replace_loop-render params (i + 1) names (map (fill_one name v) ss) p (d.0.1, d.1.1)
              (fill_one-IsTemplate name v ss (param_value-IsPlain params i name v p e) h)
            ∙ ap render (fill-fill_one params i name names v ss e)))
    ]

replace_loop_no_params :
    (i : ℕ) (names : List Text) (content : Text) → replace_loop [] i names content ≡ content
unfolding replace_loop param_value lookup
replace_loop_no_params i [] content = refl
replace_loop_no_params i (n ∷ ns) content = replace_loop_no_params (i + 1) ns content

-- The early return changes nothing: the loop would leave such a content as it is.
replace-replace_loop :
    (content : Text) (params : Map Text Text)
    → replace_with_string_params content params
      ≡ replace_loop params 0 (ext_param_names content) content
unfolding replace_with_string_params
replace-replace_loop [] params =
    unfold replace_loop ext_param_names ext_loop find_all text_eq in refl
replace-replace_loop (c ∷ s) [] =
    unfold text_eq in sym (replace_loop_no_params 0 (ext_param_names (c ∷ s)) (c ∷ s))
replace-replace_loop (c ∷ s) ((k, v) ∷ params) = unfold text_eq in ground arith

unclosed_holes : (ss : List Segment) → IsTemplate ss → All (λ n. contains b'}' n ≡ false) (holes ss)
unclosed_holes [] h = tt
unclosed_holes (lit t ∷ ss) h = unclosed_holes ss h.1
unclosed_holes (hole n ∷ ss) h = (h.0.1, unclosed_holes ss h.1)

render-AreNames : (ss : List Segment) → IsTemplate ss → AreNames (ext_param_names (render ss))
render-AreNames ss h = (
  (ext_param_names-IsNodup (render ss)).0,
  ext_param_names-Unclosed (render ss) (rw (find_all-render ss h) (unclosed_holes ss h)),
)

-- On a content of literal text and placeholders, where no value holds an opening brace, every
-- placeholder is replaced by the value that is found for its name among the content's names, by
-- the name or else by the name's position, one without a value stays, and so does all other text.
pub replace_with_string_params-render :
    (params : Map Text Text) (ss : List Segment)
    → IsPlain params
    → IsTemplate ss
    → replace_with_string_params (render ss) params
      ≡ render (map (fill (assigned params 0 (ext_param_names (render ss)))) ss)
replace_with_string_params-render params ss p h =
    replace-replace_loop (render ss) params
    ∙ replace_loop-render params 0 (ext_param_names (render ss)) ss p (render-AreNames ss h) h

-- A name with a space at either end.
abbrev pub IsSpaced : Segment → Type 0
IsSpaced (lit t) = Unit
IsSpaced (hole n) = trim_space n ≢ n

contains_spaced :
    (ns : List Text) (n : Text) → All IsName ns → trim_space n ≢ n → contains n ns ≡ false
contains_spaced [] n h e = refl
contains_spaced (m ∷ ms) n h e = elim (Bool-cases (m == n)) [
  | inl same ↦ absurd (e (rw (← ==_true m n same) h.0.0))
  | inr other ↦ rw other (contains_spaced ms n h.1 e)
]

fill_spaced :
    (params : Map Text Text) (names : List Text) (ss : List Segment)
    → All IsName names
    → All IsSpaced ss
    → map (fill (assigned params 0 names)) ss ≡ ss
fill_spaced params names [] h k = refl
fill_spaced params names (lit t ∷ ss) h k = ap (◌∷◌ (lit t)) (fill_spaced params names ss h k.1)
fill_spaced params names (hole n ∷ ss) h k =
    rw (assigned_absent params 0 names n (contains_spaced names n h k.0))
      (ap (◌∷◌ (hole n)) (fill_spaced params names ss h k.1))

-- Placeholders written with spaces inside their braces are never replaced, whatever the values.
pub replace_with_string_params-spaced :
    (params : Map Text Text) (ss : List Segment)
    → IsPlain params
    → IsTemplate ss
    → All IsSpaced ss
    → replace_with_string_params (render ss) params ≡ render ss
replace_with_string_params-spaced params ss p h k =
    replace_with_string_params-render params ss p h
    ∙ ap render (
        fill_spaced params (ext_param_names (render ss)) ss (ext_param_names-IsNodup (render ss)).1
          k)

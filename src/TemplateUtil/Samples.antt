-- ===== src/TemplateUtil/Samples.antt =====
-- internal/templateutil/templateutil.go: the theorems at small contents.
use trt_whats.Common.{
  ◌≡◌, ◌≢◌, refl, ap, contains, nat_eq_on, insert, text_eq_on, List, [], ◌∷◌, Text, codes, text_eq,
  lookup, Map,
}
use trt_whats.Strconv.Decimal.{decimal}
use trt_whats.Strconv.Trim.{trim_space}
use trt_whats.TemplateUtil.{
  ext_loop, param_value, ext_param_names, find_all, replace_with_string_params,
}
use trt_whats.TemplateUtil.Segments.{Segment, lit, hole, render, IsTemplate}
use trt_whats.TemplateUtil.Fill.{IsPlain}
use trt_whats.TemplateUtil.Names.{ext_param_names-firsts}
use trt_whats.TemplateUtil.Replace.{replace_with_string_params-render}

-- "Hi {{name}}, {{1}} {{name}}"
abbrev greeting : List Segment
greeting =
    lit (codes "Hi ")
    ∷ hole (codes "name")
    ∷ lit (codes ", ")
    ∷ hole (codes "1")
    ∷ lit (codes " ")
    ∷ hole (codes "name")
    ∷ []

abbrev params : Map Text Text
params = (codes "name", codes "Ann") ∷ []

params-IsPlain : IsPlain params
params-IsPlain = (refl, tt)

greeting-IsTemplate : IsTemplate greeting
unfolding text_eq
greeting-IsTemplate =
    (refl, ((refl, refl, refl), (refl, ((refl, refl, refl), (refl, ((refl, refl, refl), tt))))))

-- The second name is positional: its value is looked up by "1" and by "2", and there is none.
replace_with_string_params-render_example :
    replace_with_string_params (render greeting) params ≡ codes "Hi Ann, {{1}} Ann"
unfolding ext_param_names ext_loop text_eq find_all trim_space lookup insert param_value decimal
replace_with_string_params-render_example =
    replace_with_string_params-render params greeting params-IsPlain greeting-IsTemplate

trimmed_differs : trim_space (codes " name ") ≢ codes " name "
unfolding trim_space
trimmed_differs e = cc (ap (contains b' ') e)

ext_param_names-firsts_example : ext_param_names (render greeting) ≡ codes "name" ∷ codes "1" ∷ []
unfolding ext_param_names ext_loop text_eq find_all trim_space lookup insert
ext_param_names-firsts_example = ext_param_names-firsts (render greeting)

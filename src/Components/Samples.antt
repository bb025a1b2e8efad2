-- ===== src/Components/Samples.antt =====
-- pkg/whatsapp/message.go: the theorems at a few templates, with tests.
use trt_whats.Common.{
  ℕ, ◌≡◌, refl, ◌≤◌, inl, inr, true, false, List, [], ◌∷◌, ◌++◌, map, none, some, Text, codes,
  length, Map, keys, lookup, ℤ, pos, arith, text_eq_on, text_eq_iff,
}
use mathlib.Core.List.{Permᴰ}
use trt_whats.Json.{Value, of_map}
use trt_whats.TemplateUtil.{validate_header_param_count, too_many_header_params}
use trt_whats.Components.{
  component, text_param, text_or_empty, body_params_to_components, HeaderOf, template_components,
  auto_button_components, button_url_params_to_components, text_ltb, number_ltb, sort_param_keys,
}
use trt_whats.Components.Positional.{
  numbers, body_params_to_components-numbers, body_params_to_components-named,
}
use trt_whats.Components.Build.{
  template_components-validate_header_param_count, template_components_refuses,
}

abbrev params : Map Text Text
params = (codes "2", codes "Bo") ∷ (codes "1", codes "Al") ∷ []

abbrev named : Map Text Text
named = (codes "name", codes "Al") ∷ (codes "city", codes "Rome") ∷ []

abbrev named' : Map Text Text
named' = (codes "city", codes "Rome") ∷ (codes "name", codes "Al") ∷ []

abbrev same_text : Text → Text
same_text t = t

abbrev clock : ℕ → ℤ
clock i = pos 17

abbrev header : HeaderOf
header = record {
  type = codes "TEXT";
  content = codes "Hi {{name}}";
  params = [];
  media_id = [];
  media_filename = [];
}

abbrev two_names : HeaderOf
two_names = record header { content = codes "{{a}} {{b}}" }

abbrev button : Text → Value
button type = Value.obj (of_map ((codes "type", Value.str type) ∷ []))

abbrev buttons : List Value
buttons = button (codes "FLOW") ∷ button (codes "URL") ∷ []

-- Ten comes after nine among numbers, and before it among texts.
sorted_numbers :
    sort_param_keys ((codes "10", []) ∷ (codes "9", []) ∷ (codes "1", []) ∷ []) false
    ≡ codes "1" ∷ codes "9" ∷ codes "10" ∷ []
unfolding sort_param_keys trt_whats.Components.is_number trt_whats.Strconv.Decimal.atoi number_ltb
sorted_numbers = refl

params-Permᴰ : Permᴰ (numbers 1 2) (keys params)
unfolding trt_whats.Strconv.Decimal.itoa
params-Permᴰ = Permᴰ.swap refl refl

body_params_to_components-numbers_example :
    body_params_to_components params
    ≡ component
        (codes "body")
        (text_param false (codes "1") (codes "Al") ∷ text_param false (codes "2") (codes "Bo") ∷ [])
      ∷ []
unfolding lookup trt_whats.Common.text_eq trt_whats.Strconv.Decimal.itoa
body_params_to_components-numbers_example =
    body_params_to_components-numbers 1 params (omega arith) params-Permᴰ

named-Permᴰ : Permᴰ (keys named) (keys named')
named-Permᴰ = Permᴰ.swap refl refl

named-lookup : (key : Text) → lookup key named ≡ lookup key named'
unfolding lookup
named-lookup key = ground (arith, text_eq_iff (codes "name") key, text_eq_iff (codes "city") key)

body_params_to_components-named_example :
    body_params_to_components named ≡ body_params_to_components named'
unfolding trt_whats.Components.is_number trt_whats.Strconv.Decimal.atoi
body_params_to_components-named_example =
    body_params_to_components-named named named' named-Permᴰ named-lookup refl

template_components-validate_header_param_count_example :
    (cs : List Value) × (length cs ≤ 1)
    × (template_components same_text same_text named header clock params buttons
        ≡ inr (
            cs
            ++ body_params_to_components named
            ++ auto_button_components same_text same_text clock buttons
            ++ button_url_params_to_components same_text same_text params buttons))
unfolding validate_header_param_count trt_whats.TemplateUtil.ext_param_names
    trt_whats.TemplateUtil.ext_loop trt_whats.TemplateUtil.find_all trt_whats.Common.text_eq
    trt_whats.Strconv.Trim.trim_space lookup
template_components-validate_header_param_count_example =
    template_components-validate_header_param_count same_text same_text named header clock params
      buttons refl

template_components_refuses_example :
    (codes "TEXT" ≡ codes "TEXT")
    × (validate_header_param_count (codes "{{a}} {{b}}") ≡ some (too_many_header_params 2))
unfolding template_components trt_whats.Common.text_eq trt_whats.Strconv.Search.index
    trt_whats.TemplateUtil.ext_param_names trt_whats.TemplateUtil.ext_loop
    trt_whats.TemplateUtil.find_all trt_whats.Strconv.Trim.trim_space lookup trt_whats.Common.insert
template_components_refuses_example =
    template_components_refuses same_text same_text named two_names clock params buttons 2 refl

-- ===== src/Components/Build.antt =====
-- pkg/whatsapp/message.go, BuildTemplateComponents and its use in internal/handlers/messages.go,
-- against internal/templateutil, ValidateHeaderParamCount.
use trt_whats.Common.{
  ℕ, ◌≡◌, refl, ap, ◌≤◌, ◌⊎◌, inl, inr, List, [], ◌∷◌, ◌++◌, none, some, Bool, true, false,
  if◌then◌else◌, ◌≢◌, text_eq_iff, ltb, Text, codes, length, Map, ℤ, arith, Bool-cases,
  Option-cases, text_eq_on, ◌==◌,
}
use trt_whats.Json.{Value}
use trt_whats.Strconv.Search.{index}
use trt_whats.TemplateUtil.{ext_param_names, validate_header_param_count, too_many_header_params}
use trt_whats.Components.{
  Header, too_many, absent, present, HeaderOf, header_of_names, header_text_params_component,
  media_header, header_component, with_header, body_params_to_components, build_template_components,
  auto_button_components, button_url_params_to_components, template_components, with_buttons,
  is_media,
}

-- What a header contributes: one component or none, and no error.
abbrev IsUsable : Header → Type 0
IsUsable h =
    (cs : List Value) × (length cs ≤ 1)
    × ((body : List Value) → with_header h body ≡ inr (cs ++ body))

absent-IsUsable : IsUsable absent
absent-IsUsable = ([], omega arith, λ body. refl)

present-IsUsable : (v : Value) → IsUsable (present v)
present-IsUsable v = (v ∷ [], omega arith, λ body. refl)

if-IsUsable : (b : Bool) (h k : Header) → IsUsable h → IsUsable k → IsUsable (if b then h else k)
if-IsUsable true h k u v = u
if-IsUsable false h k u v = v

header_of_names-IsUsable :
    (params fallback : Map Text Text) (names : List Text)
    → ltb 1 (length names) ≡ false
    → IsUsable (header_of_names params fallback names)
header_of_names-IsUsable params fallback [] h = absent-IsUsable
header_of_names-IsUsable params fallback (name ∷ []) h = present-IsUsable _
header_of_names-IsUsable params fallback (name ∷ second ∷ more) h = absurd (ground arith)

header_text-IsUsable :
    (content : Text) (params fallback : Map Text Text)
    → validate_header_param_count content ≡ none
    → IsUsable (header_text_params_component content params fallback)
unfolding header_text_params_component validate_header_param_count
header_text-IsUsable content params fallback h = elim (Option-cases (index content (codes "{{"))) [
  | inl e ↦ rw (header_text_params_component, e) absent-IsUsable
  | inr (i, e) ↦
      rw (header_text_params_component, e)
        (header_of_names-IsUsable params fallback (ext_param_names content) (ground arith))
]

header_of_names_refuses :
    (params fallback : Map Text Text) (names : List Text) (n : ℕ)
    → header_of_names params fallback names ≡ too_many n
    → (n ≡ length names) × (ltb 1 (length names) ≡ true)
header_of_names_refuses params fallback [] n h = cc
header_of_names_refuses params fallback (name ∷ []) n h = cc
header_of_names_refuses params fallback (name ∷ second ∷ more) n h = ground arith

header_text_refuses :
    (content : Text) (params fallback : Map Text Text) (n : ℕ)
    → header_text_params_component content params fallback ≡ too_many n
    → validate_header_param_count content ≡ some (too_many_header_params n)
unfolding header_text_params_component validate_header_param_count
header_text_refuses content params fallback n h =
    ground (arith, header_of_names_refuses params fallback (ext_param_names content) n)

with_header_refuses :
    (h : Header) (body : List Value) (n : ℕ) → with_header h body ≡ inl n → h ≡ too_many n
with_header_refuses (too_many k) body n e = cc
with_header_refuses absent body n e = cc
with_header_refuses (present v) body n e = cc

with_buttons_refuses :
    (flows urls : List Value) (r : ℕ ⊎ List Value) (n : ℕ)
    → with_buttons flows urls r ≡ inl n
    → r ≡ inl n
with_buttons_refuses flows urls (inl k) n e = e
with_buttons_refuses flows urls (inr cs) n e = cc

module _ (to_upper to_lower : Text → Text) where
  media_header-IsUsable : (h : HeaderOf) → IsUsable (media_header to_upper to_lower h)
  unfolding media_header
  media_header-IsUsable h = elim (Bool-cases (h.media_id == [])) [
    | inl e ↦ rw e absent-IsUsable
    | inr e ↦ rw e (present-IsUsable _)
  ]

  header_component-IsUsable :
      (body : Map Text Text) (h : HeaderOf)
      → validate_header_param_count h.content ≡ none
      → IsUsable (header_component to_upper to_lower body h)
  unfolding header_component
  header_component-IsUsable body h v =
      if-IsUsable (to_upper h.type == codes "TEXT")
        (header_text_params_component h.content h.params body)
        (if is_media (to_upper h.type) then media_header to_upper to_lower h else absent)
        (header_text-IsUsable h.content h.params body v)
        (if-IsUsable (is_media (to_upper h.type)) (media_header to_upper to_lower h) absent
          (media_header-IsUsable h) absent-IsUsable)

  media_header_made : (h : HeaderOf) (n : ℕ) → media_header to_upper to_lower h ≢ too_many n
  unfolding media_header
  media_header_made h n e = ground arith

  header_component_refuses :
      (body : Map Text Text) (h : HeaderOf) (n : ℕ)
      → header_component to_upper to_lower body h ≡ too_many n
      → (to_upper h.type ≡ codes "TEXT")
        × (validate_header_param_count h.content ≡ some (too_many_header_params n))
  unfolding header_component
  header_component_refuses body h n e = ground (
    arith,
    text_eq_iff (to_upper h.type) (codes "TEXT"),
    header_text_refuses h.content h.params body n,
    media_header_made h n,
  )

  -- A template whose header's content passes the check on creation (one variable at most) can always
  -- be sent: its components are at most one of the header, then that of the body, then those of the
  -- flow buttons, then those of the buttons with parameters.
  pub template_components-validate_header_param_count :
      (body : Map Text Text) (h : HeaderOf) (nanos : ℕ → ℤ) (params : Map Text Text)
      → (buttons : List Value) → validate_header_param_count h.content ≡ none
      → (cs : List Value) × (length cs ≤ 1)
        × (template_components to_upper to_lower body h nanos params buttons
            ≡ inr (
                cs
                ++ body_params_to_components body
                ++ auto_button_components to_upper to_lower nanos buttons
                ++ button_url_params_to_components to_upper to_lower params buttons))
  unfolding template_components build_template_components
  template_components-validate_header_param_count body h nanos params buttons v =
      let (cs, one, made) = header_component-IsUsable body h v in
      (
        cs,
        one,
        ap
            (with_buttons (auto_button_components to_upper to_lower nanos buttons)
              (button_url_params_to_components to_upper to_lower params buttons))
            (made (body_params_to_components body)),
      )

  -- Where no components are made, the header is of text and the check on creation refuses its
  -- content, for the same number of variables.
  pub template_components_refuses :
      (body : Map Text Text) (h : HeaderOf) (nanos : ℕ → ℤ) (params : Map Text Text)
      → (buttons : List Value) (n : ℕ)
      → template_components to_upper to_lower body h nanos params buttons ≡ inl n
      → (to_upper h.type ≡ codes "TEXT")
        × (validate_header_param_count h.content ≡ some (too_many_header_params n))
  unfolding template_components build_template_components
  template_components_refuses body h nanos params buttons n e = header_component_refuses body h n (
      with_header_refuses (header_component to_upper to_lower body h)
        (body_params_to_components body) n
        (with_buttons_refuses (auto_button_components to_upper to_lower nanos buttons)
          (button_url_params_to_components to_upper to_lower params buttons) _ n e))

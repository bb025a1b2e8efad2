-- ===== src/Components.antt =====
-- pkg/whatsapp/message.go, the components of a template message. A []map[string]any is a list of
-- Json's values; nil and the empty slice are both []. strings.ToUpper and ToLower and the clock are
-- parameters. A range over a map visits it in the order of the association list.
mod Samples
pub mod Sorting
pub mod Positional
pub mod Build
use trt_whats.Common.{
  ℕ, suc, ◌≡◌, ◌⊎◌, inl, inr, Bool, true, false, not, ◌&&◌, ◌||◌, List, [], ◌∷◌, ◌++◌, map, Option,
  none, some, if◌then◌else◌, ltb, nat_eq, Text, codes, length, Map, keys, lookup, ℤ, pos, ltb_ℤ,
  ◌==◌, text_eq_on,
}
use trt_whats.Json.{Value, or_null, as_string, as_map, of_map, of_list}
use trt_whats.Strconv.Decimal.{atoi, itoa}
use trt_whats.Strconv.Search.{index}
use trt_whats.TemplateUtil.{ext_param_names}
use trt_whats.Components.Sorting.{sort}

-- The order of strings: at the first character that differs, else by length.
unfoldable pub text_ltb : Text → Text → Bool
text_ltb s [] = false
text_ltb [] (b ∷ t) = true
text_ltb (a ∷ s) (b ∷ t) = let rest = text_ltb s t in ltb a b || (nat_eq a b && rest)

unfoldable pub is_number : Text → Bool
is_number key = elim (atoi key) [ none ↦ false | some n ↦ true ]

abbrev pub every_number : List Text → Bool
every_number [] = true
every_number (k ∷ ks) = is_number k && every_number ks

-- ni, _ := strconv.Atoi(key), where that is no error
unfoldable pub number : Text → ℤ
number key = elim (atoi key) [ none ↦ pos 0 | some n ↦ n ]

unfoldable pub number_ltb : Text → Text → Bool
unfolding number
number_ltb a b = ltb_ℤ (number a) (number b)

unfoldable pub sort_param_keys : Map Text Text → Bool → List Text
sort_param_keys params force_lexical =
    if force_lexical
    then sort text_ltb (keys params)
    else if every_number (keys params)
    then sort number_ltb (keys params)
    else sort text_ltb (keys params)

-- m[k] at a map[string]string
abbrev pub text_or_empty : Option Text → Text
text_or_empty none = []
text_or_empty (some t) = t

abbrev pub object : Map Text Value → Value
object m = Value.obj (of_map m)

-- A component of a type with its parameters.
abbrev pub component : Text → List Value → Value
component type parameters =
    object
      ((codes "type", Value.str type) ∷ (codes "parameters", Value.arr (of_list parameters)) ∷ [])

-- A parameter of text, with its name where it has one.
abbrev pub text_param : Bool → Text → Text → Value
text_param named key text = object (
    (codes "type", Value.str (codes "text"))
    ∷ (codes "text", Value.str text)
    ∷ (if named then (codes "parameter_name", Value.str key) ∷ [] else []))

unfoldable pub body_params_to_components : Map Text Text → List Value
unfolding sort_param_keys
body_params_to_components params =
    if nat_eq (length params) 0
    then []
    else let named = not (every_number (keys params)) in
      component (codes "body") (
        map (λ key. text_param named key (text_or_empty (lookup key params)))
          (sort_param_keys params named))
      ∷ []

pub data Header : Type 0 where
  too_many : ℕ → Header  -- the error
  absent : Header
  present : Value → Header

-- The component of a header whose content has those variables.
abbrev pub header_of_names : Map Text Text → Map Text Text → List Text → Header
header_of_names params fallback [] = absent
header_of_names params fallback (name ∷ []) =
    let value = text_or_empty (lookup name params) in
    let value' = if value == [] then text_or_empty (lookup name fallback) else value in
    present (component (codes "header") (text_param (not (is_number name)) name value' ∷ []))
header_of_names params fallback (name ∷ second ∷ more) = too_many (suc (suc (length more)))

unfoldable pub header_text_params_component : Text → Map Text Text → Map Text Text → Header
header_text_params_component content params fallback = elim (index content (codes "{{")) [
  | none ↦ absent
  | some i ↦ header_of_names params fallback (ext_param_names content)
]

abbrev pub is_media : Text → Bool
is_media type = type == codes "IMAGE" || type == codes "VIDEO" || type == codes "DOCUMENT"

-- The header's type, content and parameters, and its media.
pub record HeaderOf : Type 0 where
  pub type : Text
  pub content : Text
  pub params : Map Text Text
  pub media_id : Text
  pub media_filename : Text

abbrev pub with_header : Header → List Value → ℕ ⊎ List Value
with_header (too_many n) body = inl n
with_header absent body = inr body
with_header (present h) body = inr (h ∷ body)

abbrev pub with_buttons : List Value → List Value → ℕ ⊎ List Value → ℕ ⊎ List Value
with_buttons flows urls (inl n) = inl n
with_buttons flows urls (inr cs) = inr (cs ++ flows ++ urls)

module _ (to_upper to_lower : Text → Text) where
  unfoldable pub media_header : HeaderOf → Header
  media_header h =
      if h.media_id == []
      then absent
      else let type = to_lower h.type in
        let named = type == codes "document" && not (h.media_filename == []) in
        let media = object (
          (codes "id", Value.str h.media_id)
          ∷ (if named then (codes "filename", Value.str h.media_filename) ∷ [] else [])) in
        present (
          component (codes "header")
            (object ((codes "type", Value.str type) ∷ (type, media) ∷ []) ∷ []))

  unfoldable pub header_component : Map Text Text → HeaderOf → Header
  unfolding media_header header_text_params_component
  header_component body h =
      let type = to_upper h.type in
      if type == codes "TEXT"
      then header_text_params_component h.content h.params body
      else if is_media type
      then media_header h
      else absent

  -- `inl` is the error of a header with that many variables.
  unfoldable pub build_template_components : Map Text Text → HeaderOf → ℕ ⊎ List Value
  unfolding header_component
  build_template_components body h =
      with_header (header_component body h) (body_params_to_components body)

  abbrev string_at : Text → Value → Option Text
  string_at key v = as_string (or_null (lookup key (as_map v)))

  -- A button that is no object is of the empty type, as the zero value of the assertion.
  abbrev pub upper_type : Value → Text
  upper_type v = to_upper (text_or_empty (string_at (codes "type") v))

  -- `nanos` is the clock at the button's turn.
  abbrev pub flow_button : (ℕ → ℤ) → ℕ → Value
  flow_button nanos i = object (
      (codes "type", Value.str (codes "button"))
      ∷ (codes "sub_type", Value.str (codes "flow"))
      ∷ (codes "index", Value.str (itoa (pos i)))
      ∷ (
        codes "parameters",
        Value.arr (
            of_list (
              object (
                (codes "type", Value.str (codes "action"))
                ∷ (
                  codes "action",
                  object ((codes "flow_token", Value.str (codes "flow_" ++ itoa (nanos i))) ∷ []),
                )
                ∷ [])
              ∷ [])),
      )
      ∷ [])

  abbrev pub is_object : Value → Bool
  is_object (Value.obj fs) = true
  is_object _ = false

  -- The loop of AutoButtonComponents, from index i.
  unfoldable pub auto_loop : (ℕ → ℤ) → ℕ → List Value → List Value
  auto_loop nanos i [] = []
  auto_loop nanos i (b ∷ bs) =
      let rest = auto_loop nanos (suc i) bs in
      if is_object b && upper_type b == codes "FLOW" then flow_button nanos i ∷ rest else rest

  abbrev pub auto_button_components : (ℕ → ℤ) → List Value → List Value
  auto_button_components nanos bs = auto_loop nanos 0 bs

  -- The effective type of a button, and whether it was of the type OTP.
  abbrev pub effective : Text → Option Text → Text × Bool
  effective type otp =
      if type == codes "OTP"
      then elim otp [ none ↦ (type, true) | some t ↦ (to_upper t, true) ]
      else (type, false)

  -- btnTypes and btnIsOTP, from index i.
  unfoldable pub button_types : ℕ → List Value → Map Text (Text × Bool)
  button_types i [] = []
  button_types i (b ∷ bs) =
      let rest = button_types (suc i) bs in
      elim (string_at (codes "type") b) [
        | none ↦ rest
        | some t ↦ (itoa (pos i), effective (to_upper t) (string_at (codes "otp_type") b)) ∷ rest
      ]

  -- The types of button that take no parameter.
  abbrev pub is_fixed : Text → Bool
  is_fixed t =
      t == codes "QUICK_REPLY"
      || t == codes "FLOW"
      || t == codes "PHONE_NUMBER"
      || t == codes "VOICE_CALL"
      || t == codes "ONE_TAP"
      || t == codes "ZERO_TAP"

  abbrev pub button_component : Text → Text → Value → Value
  button_component sub_type index param = object (
      (codes "type", Value.str (codes "button"))
      ∷ (codes "sub_type", Value.str sub_type)
      ∷ (codes "index", Value.str index)
      ∷ (codes "parameters", Value.arr (of_list (param ∷ [])))
      ∷ [])

  abbrev pub coupon : Text → Value
  coupon value = object (
      (codes "type", Value.str (codes "coupon_code")) ∷ (codes "coupon_code", Value.str value) ∷ [])

  abbrev pub typed : Option (Text × Bool) → Text × Bool
  typed none = ([], false)
  typed (some t) = t

  -- The component of a button with a parameter, unless its type takes none.
  unfoldable pub button_url : Map Text (Text × Bool) → Text → Text → Option Value
  button_url types index value =
      let (type, otp) = typed (lookup index types) in
      if is_fixed type
      then none
      else if type == codes "COPY_CODE" && not otp
      then some (button_component (codes "copy_code") index (coupon value))
      else some (button_component (codes "url") index (text_param false index value))

  unfoldable pub button_loop : Map Text (Text × Bool) → Map Text Text → List Text → List Value
  unfolding button_url
  button_loop types params [] = []
  button_loop types params (index ∷ more) =
      let rest = button_loop types params more in
      elim (button_url types index (text_or_empty (lookup index params))) [
        | none ↦ rest
        | some c ↦ c ∷ rest
      ]

  unfoldable pub button_url_params_to_components : Map Text Text → List Value → List Value
  unfolding button_types button_loop sort_param_keys
  button_url_params_to_components params buttons =
      if nat_eq (length params) 0
      then []
      else button_loop (button_types 0 buttons) params (sort_param_keys params false)

  -- The components of the template that sendOutgoing sends.
  unfoldable pub template_components :
      Map Text Text → HeaderOf → (ℕ → ℤ) → Map Text Text → List Value → ℕ ⊎ List Value
  unfolding build_template_components
  template_components body h nanos button_params buttons =
      with_buttons (auto_button_components nanos buttons)
        (button_url_params_to_components button_params buttons) (build_template_components body h)

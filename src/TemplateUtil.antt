-- ===== src/TemplateUtil.antt =====
-- internal/templateutil/templateutil.go: the {{...}} parameters of message templates. Texts are
-- lists of code points; fmt.Sprintf("%v", v) of the values that a map holds is the parameter
-- `sprint`, and the identity where the map holds strings.
pub mod Names
pub mod Segments
pub mod Placeholder
pub mod Fill
pub mod Replace
mod Samples
use trt_whats.Common.{
  ℕ, zero, suc, ◌+◌, Bool, true, false, not, ◌&&◌, ◌||◌, List, [], ◌∷◌, ◌++◌, Option, none, some,
  if◌then◌else◌, nat_eq, ltb, Text, codes, length, drop, Map, lookup, insert, ◌==◌, text_eq_on,
}
use trt_whats.Strconv.Decimal.{decimal, is_digit}
use trt_whats.Strconv.Trim.{trim_space}
use trt_whats.Strconv.Search.{has_prefix, replace_all}

abbrev pub opening : Text
opening = codes "{{"

abbrev pub closing : Text
closing = codes "}}"

-- [^}]* at the start of a text, and what follows it.
unfoldable pub capture : Text → Text × Text
capture [] = ([], [])
capture (c ∷ s) =
    let rest = capture s in if nat_eq c b'}' then ([], c ∷ s) else (c ∷ rest.0, rest.1)

abbrev pub closed : Text × Text → Option Text
closed ([], t) = none
closed (c ∷ r, t) = if has_prefix t closing then some (c ∷ r) else none

-- A match of ParameterPattern, \{\{([^}]+)\}\}, at the start of a text: what it captures.
unfoldable pub param_at : Text → Option Text
unfolding capture has_prefix
param_at s = if has_prefix s opening then closed (capture (drop 2 s)) else none

-- ParameterPattern.FindAllStringSubmatch, the captures: the leftmost match first, and the next
-- one after its end. The first `skip` characters stand in a match already found.
unfoldable pub find_all : ℕ → Text → List Text
unfolding param_at
find_all skip [] = []
find_all (suc skip) (c ∷ s) = find_all skip s
find_all zero (c ∷ s) = elim (param_at (c ∷ s)) [
  | none ↦ find_all 0 s
  | some r ↦ r ∷ find_all (length r + 3) s
]

-- The loop of ExtParamNames.
unfoldable pub ext_loop : Map Text Bool → List Text → List Text → List Text
ext_loop seen names [] = names
ext_loop seen names (m ∷ ms) =
    let name = trim_space m in
    let fresh = not (name == []) && not (elim (lookup name seen) [ none ↦ false | some b ↦ b ]) in
    ext_loop (if fresh then insert name true seen else seen)
      (if fresh then names ++ name ∷ [] else names) ms

unfoldable pub ext_param_names : Text → List Text
ext_param_names content = ext_loop [] [] (find_all 0 content)

-- isPositionalParam
abbrev pub all_digits : Text → Bool
all_digits [] = true
all_digits (c ∷ s) = is_digit c && all_digits s

unfoldable pub is_positional_param : Text → Bool
is_positional_param name = all_digits name && ltb 0 (length name)

-- The errors of the two validators, with the number that the message shows.
pub data TemplateError : Type 0 where
  too_many_header_params : ℕ → TemplateError
  mixed_params : TemplateError

unfoldable pub validate_header_param_count : Text → Option TemplateError
validate_header_param_count content =
    let names = ext_param_names content in
    if ltb 1 (length names) then some (too_many_header_params (length names)) else none

-- The loop of ValidateNoMixedParams, with its two flags.
unfoldable pub mixed_loop : Bool → Bool → List Text → Option TemplateError
mixed_loop positional named [] = none
mixed_loop positional named (n ∷ ns) =
    let positional' = is_positional_param n || positional in
    let named' = not (is_positional_param n) || named in
    let rest = mixed_loop positional' named' ns in
    if positional' && named' then some mixed_params else rest

unfoldable pub validate_no_mixed_params : Text → Option TemplateError
unfolding mixed_loop
validate_no_mixed_params content =
    let names = ext_param_names content in
    if nat_eq (length names) 0 then none else mixed_loop false false names

-- A parameter's value: by its name, or else by its position, counted from 1.
module _ {ℓ} {V : Type ℓ} where
  unfoldable pub param_value : Map Text V → ℕ → Text → Option V
  param_value params i name = elim (lookup name params) [
    | some v ↦ some v
    | none ↦ lookup (decimal (i + 1)) params
  ]

  -- The loop of both resolvers, from index i; a missing value is the empty text.
  unfoldable pub resolve_from : (V → Text) → Map Text V → ℕ → List Text → List Text
  unfolding param_value
  resolve_from sprint params i [] = []
  resolve_from sprint params i (name ∷ names) =
      elim (param_value params i name) [ some v ↦ sprint v | none ↦ [] ]
      ∷ resolve_from sprint params (i + 1) names

  -- ResolveParamsFromMap (V = string, `sprint` the identity). No name or no value is nil.
  unfoldable pub resolve_params_from_map : (V → Text) → List Text → Map Text V → List Text
  unfolding resolve_from
  resolve_params_from_map sprint names params =
      if nat_eq (length names) 0 || nat_eq (length params) 0
      then []
      else resolve_from sprint params 0 names

  -- ResolveParams (V = any).
  unfoldable pub resolve_params : (V → Text) → Text → Map Text V → List Text
  unfolding resolve_from
  resolve_params sprint body params =
      if nat_eq (length params) 0
      then []
      else let names = ext_param_names body in
        if nat_eq (length names) 0 then [] else resolve_from sprint params 0 names

abbrev pub placeholder : Text → Text
placeholder name = opening ++ name ++ closing

-- The loop of ReplaceWithStringParams, from index i: a parameter with no value stays.
unfoldable pub replace_loop : Map Text Text → ℕ → List Text → Text → Text
unfolding param_value
replace_loop params i [] result = result
replace_loop params i (name ∷ names) result =
    replace_loop params (i + 1) names (elim (param_value params i name) [
      | some v ↦ replace_all result (placeholder name) v
      | none ↦ result
    ])

unfoldable pub replace_with_string_params : Text → Map Text Text → Text
unfolding replace_loop
replace_with_string_params content params =
    if content == [] || nat_eq (length params) 0
    then content
    else replace_loop params 0 (ext_param_names content) content

module _ {ℓ} {V : Type ℓ} where
  -- The loop of ReplaceWithJSONBParams: a missing value is the empty text, and the placeholder of
  -- the position is replaced beside that of the name.
  unfoldable pub replace_jsonb_loop : (V → Text) → Map Text V → ℕ → List Text → Text → Text
  unfolding param_value
  replace_jsonb_loop sprint params i [] content = content
  replace_jsonb_loop sprint params i (name ∷ names) content =
      let val : Text = elim (param_value params i name) [ some v ↦ sprint v | none ↦ [] ] in
      replace_jsonb_loop sprint params (i + 1) names (
        replace_all (replace_all content (placeholder name) val) (placeholder (decimal (i + 1)))
          val)

  unfoldable pub replace_with_jsonb_params : (V → Text) → Text → Text → Map Text V → Text
  unfolding replace_jsonb_loop
  replace_with_jsonb_params sprint body content params =
      if nat_eq (length params) 0
      then content
      else let names = ext_param_names body in
        if nat_eq (length names) 0
        then content
        else replace_jsonb_loop sprint params 0 names content

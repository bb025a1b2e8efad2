-- ===== src/TemplateEngine/Path.antt =====
-- internal/handlers/template_engine.go: splitPath, getNestedValue and extractResponseMapping.
use trt_whats.Common.{
  ℕ, ltb, suc, Bool, true, false, List, [], ◌∷◌, ◌++◌, Option, none, some, if◌then◌else◌, nat_eq,
  Text, codes, Map, lookup, insert, take, drop, get_elem?, ℤ, pos, ◌==◌, text_eq_on,
}
use trt_whats.Json.{Value, null, obj, Data, or_null, to_list, of_map, to_map}
use trt_whats.Strconv.Decimal.{atoi}
use trt_whats.Strconv.Search.{index}

-- A part is appended if it is not empty.
abbrev pub flush : Text → List Text → List Text
flush [] parts = parts
flush (c ∷ cs) parts = (c ∷ cs) ∷ parts

-- The loop of splitPath; `inside` while it reads up to a closing bracket.
unfoldable pub split_loop : Bool → Text → Text → List Text
split_loop inside current [] = flush current []
split_loop true current (c ∷ s) =
    split_loop (if nat_eq c b']' then false else true) (current ++ c ∷ []) s
split_loop false current (c ∷ s) =
    let next = split_loop false [] s in
    let bracket = split_loop true (current ++ c ∷ []) s in
    let more = split_loop false (current ++ c ∷ []) s in
    if nat_eq c b'.'
    then flush current next
    else if nat_eq c b'['
    then (if current == [] then next else bracket)
    else more

unfoldable pub split_path : Text → List Text
unfolding split_loop
split_path path = split_loop false [] path

abbrev pub is_null : Value → Bool
is_null null = true
is_null _ = false

-- v[field] at a map[string]any, and nil at any other value.
abbrev pub field_of : Text → Value → Value
field_of field (obj fs) = or_null (lookup field (to_map fs))
field_of field _ = null

-- arr[index] at a []any, and nil at any other value or out of range.
abbrev pub element_of : ℤ → Value → Value
element_of (pos i) (Value.arr vs) = or_null (get_elem? (to_list vs) i)
element_of _ _ = null

-- part[idx+1 : len(part)-1], given part[idx+1:]: without a last character the bounds panic.
abbrev pub drop_last : Text → Option Text
drop_last [] = none
drop_last (c ∷ []) = some []
drop_last (c ∷ d ∷ s) = elim (drop_last (d ∷ s)) [ none ↦ none | some t ↦ some (c ∷ t) ]

abbrev pub last_code : Text → ℕ
last_code [] = 0
last_code (c ∷ []) = c
last_code (c ∷ d ∷ s) = last_code (d ∷ s)

-- A part field[index]; none is a panic. What is dropped is the last byte: of a character of several
-- bytes the others stay, which are no digits.
indexed : Text → Text → Value → Option Value
indexed field after current = elim (drop_last after) [
  | none ↦ none
  | some digits ↦ elim (if ltb 127 (last_code after) then none else atoi digits) [
    | none ↦ some null
    | some i ↦ some (element_of i (if field == [] then current else field_of field current))
  ]
]

-- One round of the loop of getNestedValue past its nil check; none is a panic.
unfoldable pub step_into : Text → Value → Option Value
unfolding indexed
step_into part current = elim (index part (codes "[")) [
  | none ↦ some (field_of part current)
  | some i ↦ indexed (take i part) (drop (suc i) part) current
]

unfoldable pub walk_parts : List Text → Value → Option Value
walk_parts [] current = some current
walk_parts (p ∷ ps) current =
    if is_null current
    then some null
    else elim (step_into p current) [ none ↦ none | some v ↦ walk_parts ps v ]

-- A nil map is none; so is the result of a panic.
unfoldable pub get_nested_value : Option Data → Text → Option Value
unfolding split_path walk_parts step_into
get_nested_value none path = some null
get_nested_value (some m) path =
    if path == [] then some null else walk_parts (split_path path) (obj (of_map m))

-- The loop of extractResponseMapping over the mapping.
unfoldable pub extract_loop : Option Data → Data → Map Text Text → Option Data
unfolding get_nested_value
extract_loop response result [] = some result
extract_loop response result ((name, path) ∷ rest) = elim (get_nested_value response path) [
  | none ↦ none
  | some v ↦ extract_loop response (if is_null v then result else insert name v result) rest
]

unfoldable pub extract_response_mapping : Option Data → Map Text Text → Option Data
unfolding extract_loop
extract_response_mapping response mapping = extract_loop response [] mapping

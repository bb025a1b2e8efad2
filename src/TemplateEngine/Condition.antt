-- ===== src/TemplateEngine/Condition.antt =====
-- internal/handlers/template_engine.go: conditions and the text of values. What the code computes
-- with float64 values is the parameter `float`, fmt.Sprintf("%v", v) of a map or a slice `sprint`.
-- int64 values and []map[string]any do not occur among the values that JSON decodes to.
use trt_whats.Common.{
  ℕ, Bool, true, false, not, ◌&&◌, ◌||◌, [], ◌∷◌, Option, none, some, if◌then◌else◌, nat_eq, ltb,
  leb, drop, Text, codes, ℤ, pos, negsuc, ltb_ℤ, leb_ℤ, eqb_ℤ, length, contains, ◌==◌, text_eq_on,
  nat_eq_on,
}
use trt_whats.Json.{Value, FloatOps, Data, to_list, to_map, or_null}
use trt_whats.Strconv.Decimal.{itoa, is_digit}
use trt_whats.Strconv.Search.{has_prefix}
use trt_whats.Strconv.Trim.{trim_space}
use trt_whats.TemplateEngine.Path.{get_nested_value, drop_last}

-- \w
abbrev pub is_word : ℕ → Bool
is_word c = is_digit c || (leb b'a' c && leb c b'z') || (leb b'A' c && leb c b'Z') || nat_eq c b'_'

-- \s
abbrev pub is_blank : ℕ → Bool
is_blank c = nat_eq c 9 || nat_eq c 10 || nat_eq c 12 || nat_eq c 13 || nat_eq c 32

-- The longest start of a text in a class, and what follows it.
unfoldable pub span : (ℕ → Bool) → Text → Text × Text
span p [] = ([], [])
span p (c ∷ s) = let rest = span p s in if p c then (c ∷ rest.0, rest.1) else ([], c ∷ s)

abbrev starts_word : Text → Bool
starts_word [] = false
starts_word (c ∷ s) = is_word c

-- (\w+(?:\.\w+)*) after a first word character, and what follows it.
unfoldable pub path_tail : Text → Text × Text
path_tail [] = ([], [])
path_tail (c ∷ s) =
    let rest = path_tail s in
    if is_word c || (nat_eq c b'.' && starts_word s) then (c ∷ rest.0, rest.1) else ([], c ∷ s)

pub data Operator : Type 0 where
  absent : Operator
  equal different greater less at_least at_most : Operator

-- (==|!=|>=|<=|>|<)? at the start of a text, and what follows it.
unfoldable pub operator_at : Text → Operator × Text
operator_at s =
    if has_prefix s (codes "==")
    then (equal, drop 2 s)
    else if has_prefix s (codes "!=")
    then (different, drop 2 s)
    else if has_prefix s (codes ">=")
    then (at_least, drop 2 s)
    else if has_prefix s (codes "<=")
    then (at_most, drop 2 s)
    else if has_prefix s (codes ">")
    then (greater, drop 1 s)
    else if has_prefix s (codes "<")
    then (less, drop 1 s)
    else (absent, s)

pub record Parsed : Type 0 where
  pub path : Text
  pub operator : Operator
  pub operand : Text

-- conditionPattern.FindStringSubmatch; a dot does not match a newline.
unfoldable pub parse_condition : Text → Option Parsed
parse_condition [] = none
parse_condition (c ∷ s) =
    let (word, after) = path_tail s in
    let (op, operand) = operator_at (span is_blank after).1 in
    let rest = (span is_blank operand).1 in
    if not (is_word c) || contains 10 rest
    then none
    else some (record { path = c ∷ word; operator = op; operand = rest })

abbrev pub last_char : Text → ℕ
last_char [] = 0
last_char (c ∷ []) = c
last_char (c ∷ d ∷ s) = last_char (d ∷ s)

abbrev pub or_same : Text → Option Text → Text
or_same s none = s
or_same s (some t) = t

abbrev is_quoted : ℕ → Text → Bool
is_quoted q [] = false
is_quoted q (c ∷ s) = nat_eq c q && nat_eq (last_char s) q

-- The quotes around the value of a comparison are removed.
unfoldable pub unquote : Text → Text
unquote s =
    if ltb 1 (length s) && (is_quoted 39 s || is_quoted 34 s)
    then or_same s (drop_last (drop 1 s))
    else s

-- A path that has no unterminated bracket does not panic; see Path.
abbrev pub nested : Data → Text → Value
nested m path = or_null (get_nested_value (some m) path)

unfoldable pub is_truthy : FloatOps → Value → Bool
is_truthy float Value.null = false
is_truthy float (Value.bool b) = b
is_truthy float (Value.str s) = not (s == []) && not (s == codes "false") && not (s == codes "0")
is_truthy float (Value.int z) = not (eqb_ℤ z (pos 0))
is_truthy float (Value.float f) = not (float.is_zero f)
is_truthy float (Value.arr vs) = ltb 0 (length (to_list vs))
is_truthy float (Value.obj fs) = ltb 0 (length (to_map fs))

abbrev pub of_bool : Bool → Text
of_bool true = codes "true"
of_bool false = codes "false"

abbrev pub is_whole : FloatOps → ℕ → Bool
is_whole float f = float.beq (float.of_int (float.to_int f)) f

unfoldable pub compare_equal : FloatOps → (Value → Text) → Value → Text → Bool
compare_equal float sprint Value.null t = t == [] || t == codes "null" || t == codes "nil"
compare_equal float sprint (Value.str s) t = s == t
compare_equal float sprint (Value.bool b) t = of_bool b == t
compare_equal float sprint (Value.int z) t = itoa z == t
compare_equal float sprint (Value.float f) t =
    if is_whole float f then itoa (float.to_int f) == t else sprint (Value.float f) == t
compare_equal float sprint v t = sprint v == t

-- The float64 that compareNumeric makes of its value; none is its return of 0.
abbrev pub numeric : FloatOps → Value → Option ℕ
numeric float (Value.int z) = some (float.of_int z)
numeric float (Value.float f) = some f
numeric float (Value.str s) = float.parse s
numeric float _ = none

-- -1, 0 or 1
unfoldable pub compare_numeric : FloatOps → Value → Text → ℤ
compare_numeric float v t = elim (numeric float v) [
  | none ↦ pos 0
  | some a ↦ elim (float.parse t) [
    | none ↦ pos 0
    | some b ↦ if float.lt a b then negsuc 0 else if float.lt b a then pos 1 else pos 0
  ]
]

-- The switch on the operator.
unfoldable pub compare_by : FloatOps → (Value → Text) → Operator → Value → Text → Bool
unfolding is_truthy compare_equal compare_numeric
compare_by float sprint absent v t = is_truthy float v
compare_by float sprint equal v t = compare_equal float sprint v t
compare_by float sprint different v t = not (compare_equal float sprint v t)
compare_by float sprint greater v t = ltb_ℤ (pos 0) (compare_numeric float v t)
compare_by float sprint less v t = ltb_ℤ (compare_numeric float v t) (pos 0)
compare_by float sprint at_least v t = leb_ℤ (pos 0) (compare_numeric float v t)
compare_by float sprint at_most v t = leb_ℤ (compare_numeric float v t) (pos 0)

unfoldable pub evaluate_condition : FloatOps → (Value → Text) → Text → Data → Bool
unfolding compare_by parse_condition unquote
evaluate_condition float sprint condition m = elim (parse_condition (trim_space condition)) [
  | none ↦ false
  | some p ↦ compare_by float sprint p.operator (nested m p.path) (unquote (trim_space p.operand))
]

unfoldable pub format_value : FloatOps → (Value → Text) → Value → Text
format_value float sprint Value.null = []
format_value float sprint (Value.str s) = s
format_value float sprint (Value.int z) = itoa z
format_value float sprint (Value.float f) =
    if is_whole float f then itoa (float.to_int f) else float.format f
format_value float sprint (Value.bool b) = of_bool b
format_value float sprint v = sprint v

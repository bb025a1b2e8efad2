-- ===== src/TemplateEngine/Samples.antt =====
-- internal/handlers/template_engine.go: templates, and the theorems at them.
use trt_whats.Common.{
  ℕ, ◌*◌, ◌+◌, ◌/◌, ◌%◌, Option, if◌then◌else◌, ltb_ℤ, arith, true, false, ◌≡◌, refl, [], ◌∷◌, none,
  some, Text, codes, pos, ℤ, text_eq, nat_eq, lookup, insert,
}
use trt_whats.Json.{Value, FloatOps, Data, of_list, of_map}
use trt_whats.Strconv.Search.{index, has_prefix}
use trt_whats.Strconv.Trim.{trim_space}
use trt_whats.Strconv.Decimal.{itoa, atoi, atoi-itoa}
use trt_whats.TemplateEngine.Path.{split_path, get_nested_value, extract_response_mapping}
use trt_whats.TemplateEngine.Condition.{
  format_value, evaluate_condition, operator_at, compare_by, equal, less, greater, at_least,
  at_most,
}
use trt_whats.TemplateEngine.Compare.{Parses, Orders, compare_by_int}
use trt_whats.TemplateEngine.Conditionals.{process_conditionals_ends}
use trt_whats.TemplateEngine.Lookup.{get_nested_value-join}
use trt_whats.TemplateEngine.Pattern.{if_tag, endif, find_block, for_tag}
use trt_whats.TemplateEngine.Render.{Lang, for_loops, process_conditionals, process_template}

-- Floats that are whole numbers, for the runs here.
abbrev floats : FloatOps
floats = record {
  to_int = λ n. pos n;
  of_int = λ z. elim z [ ℤ.pos n ↦ n | ℤ.negsuc n ↦ 0 ];
  is_zero = λ n. nat_eq n 0;
  beq = λ a b. true;
  lt = λ a b. false;
  parse = λ t. none;
  format = λ n. [];
}

abbrev lang : Lang
lang = record { float = floats; sprint = λ v. []; marshal = λ v. none }

abbrev person : Data
person =
    (codes "name", Value.str (codes "Ann"))
    ∷ (codes "items", Value.arr (of_list (Value.str (codes "x") ∷ Value.str (codes "y") ∷ [])))
    ∷ (codes "user", Value.obj (of_map ((codes "age", Value.int (pos 41)) ∷ [])))
    ∷ []

greeting :
    process_template lang 5
      (codes
        "Hi {{ name }}, {{user.age}}{{if user}}: {{for i in items}}{{i_index}}{{i}} {{endfor}}{{else}}no{{endif}}{{items[1]}}{{a b}}")
      person
    ≡ some (codes "Hi Ann, 41: 0x 1y y{{a b}}")
unfolding process_template has_prefix text_eq index get_nested_value lookup trim_space format_value
    insert itoa evaluate_condition operator_at atoi
greeting = refl

split_runs :
    split_path (codes "data.items[2].value") ≡ codes "data" ∷ codes "items[2]" ∷ codes "value" ∷ []
unfolding split_path text_eq
split_runs = refl

panics : extract_response_mapping (some person) ((codes "v", codes "items[") ∷ []) ≡ none
unfolding extract_response_mapping text_eq index
panics = refl

-- A value that holds the loop itself: a round changes nothing.
abbrev looping : Text
looping = codes "{{for i in items}}{{name}}{{endfor}}"

abbrev hostile : Data
hostile =
    (codes "name", Value.str looping)
    ∷ (codes "items", Value.arr (of_list (Value.str (codes "x") ∷ [])))
    ∷ []

hostile_loops : for_loops lang 20 hostile looping ≡ none
unfolding for_loops find_block for_tag has_prefix text_eq index
    trt_whats.TemplateEngine.Render.expand_loop get_nested_value lookup trim_space format_value
    insert
hostile_loops = refl

process_conditionals_ends_example :
    find_block if_tag endif
      (process_conditionals lang person (codes "a{{if name}}b{{if x}}c{{endif}}d{{endif}}"))
    ≡ none
process_conditionals_ends_example =
    (process_conditionals_ends lang person (codes "a{{if name}}b{{if x}}c{{endif}}d{{endif}}")).1

-- Floats that are integers, numbered.
abbrev numbered : ℤ → ℕ
numbered (ℤ.pos n) = 2 * n
numbered (ℤ.negsuc n) = 2 * n + 1

abbrev integer : ℕ → ℤ
integer k = if nat_eq (k % 2) 0 then ℤ.pos (k / 2) else ℤ.negsuc (k / 2)

abbrev to_number : Option ℤ → Option ℕ
to_number none = none
to_number (some z) = some (numbered z)

abbrev integers : FloatOps
integers = record {
  to_int = integer;
  of_int = numbered;
  is_zero = λ k. nat_eq k 0;
  beq = nat_eq;
  lt = λ a b. ltb_ℤ (integer a) (integer b);
  parse = λ t. to_number (atoi t);
  format = λ k. itoa (integer k);
}

integer-numbered : (z : ℤ) → integer (numbered z) ≡ z
integer-numbered (ℤ.pos n) = ground arith
integer-numbered (ℤ.negsuc n) = ground arith

integers-Parses : Parses integers
integers-Parses z h = rw (atoi-itoa z (omega (arith, h)) (omega (arith, h))) refl

integers-Orders : Orders integers
integers-Orders x y h k = rw (integer-numbered x, integer-numbered y) refl

-- Ten comes after nine, unlike its text.
compare_by_int_example :
    (compare_by integers (λ v. []) equal (Value.int (pos 10)) (itoa (pos 9)) ≡ false)
    × (compare_by integers (λ v. []) less (Value.int (pos 10)) (itoa (pos 9)) ≡ false)
    × (compare_by integers (λ v. []) greater (Value.int (pos 10)) (itoa (pos 9)) ≡ true)
    × (compare_by integers (λ v. []) at_least (Value.int (pos 10)) (itoa (pos 9)) ≡ true)
    × (compare_by integers (λ v. []) at_most (Value.int (pos 10)) (itoa (pos 9)) ≡ false)
compare_by_int_example =
    compare_by_int integers (λ v. []) (pos 10) (pos 9) integers-Parses integers-Orders (omega arith)
      (omega arith)

get_nested_value-join_example :
    get_nested_value (some person) (codes "user.age") ≡ some (Value.int (pos 41))
unfolding text_eq lookup
get_nested_value-join_example =
    get_nested_value-join person (codes "user") (codes "age" ∷ []) ((refl, refl), refl)
      (((refl, refl), refl), tt)

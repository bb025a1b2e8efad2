-- ===== src/TemplateEngine/Render.antt =====
-- internal/handlers/template_engine.go: the three passes of processTemplate.
use trt_whats.Common.{
  ℕ, zero, suc, List, [], ◌∷◌, ◌++◌, Option, none, some, if◌then◌else◌, take, drop, Text, codes,
  pos, length, insert, text_eq_on,
}
use trt_whats.Json.{Value, FloatOps, Data, to_list}
use trt_whats.Strconv.Search.{has_prefix}
use trt_whats.Strconv.Trim.{trim_space}
use trt_whats.TemplateEngine.Pattern.{
  Block, Loop, find_block, if_tag, for_tag, endif, endfor, branch, replace_variables,
}
use trt_whats.TemplateEngine.Condition.{evaluate_condition, format_value, nested}

-- What the code takes from elsewhere: float64, fmt.Sprintf("%v", v), json.Marshal.
pub record Lang : Type 0 where
  pub float : FloatOps
  pub sprint : Value → Text
  pub marshal : Value → Option Text

module _ (lang : Lang) where
  abbrev pub replaced : Data → Block Text → Text
  replaced m b =
      b.before
      ++ branch (evaluate_condition lang.float lang.sprint (trim_space b.head) m) b.body
      ++ b.after

  -- The loop of processConditionals; none means that the fuel ran out.
  unfoldable pub conditionals_loop : ℕ → Data → Text → Option Text
  unfolding find_block if_tag branch
  conditionals_loop zero m s = none
  conditionals_loop (suc fuel) m s = elim (find_block if_tag endif s) [
    | none ↦ some s
    | some b ↦ conditionals_loop fuel m (replaced m b)
  ]

abbrev pub or_nil_text : Option Text → Text
or_nil_text none = codes "null"
or_nil_text (some t) = t

module _ (lang : Lang) where
  -- The function that processVariables replaces a match by, given what stands between the braces.
  unfoldable pub render_variable : Data → Text → Text
  render_variable m t =
      let path = trim_space t in
      let value = nested m (trim_space (drop 5 path)) in
      if has_prefix path (codes "json:")
      then elim value [ Value.null ↦ codes "null" | v ↦ or_nil_text (lang.marshal v) ]
      else format_value lang.float lang.sprint (nested m path)

  unfoldable pub process_variables : Data → Text → Text
  unfolding replace_variables render_variable
  process_variables m s = replace_variables (render_variable m) 0 s

  -- A match shortens the text, so its length is fuel enough.
  unfoldable pub process_conditionals : Data → Text → Text
  unfolding conditionals_loop
  process_conditionals m s = elim (conditionals_loop lang (suc (length s)) m s) [
    | none ↦ []
    | some t ↦ t
  ]

abbrev pub max_loop_iterations : ℕ
max_loop_iterations = 50

abbrev pub entries : Value → List Value
entries (Value.arr vs) = to_list vs
entries _ = []

module _ (lang : Lang) where
  -- The loop over the entries of the array, from index i.
  unfoldable pub render_items : Data → Text → Text → ℕ → List Value → Text
  unfolding process_variables process_conditionals
  render_items m item body i [] = []
  render_items m item body i (v ∷ vs) =
      let local = insert (item ++ codes "_index") (Value.int (pos i)) (insert item v m) in
      process_variables lang local (process_conditionals lang local body)
      ++ render_items m item body (suc i) vs

  unfoldable pub expand_loop : Data → Block Loop → Text
  unfolding render_items
  expand_loop m b =
      b.before
      ++ render_items m b.head.item b.body 0
          (take max_loop_iterations (entries (nested m b.head.array)))
      ++ b.after

  -- processForLoops, for so many rounds; none means that it is not done.
  unfoldable pub for_loops : ℕ → Data → Text → Option Text
  unfolding find_block for_tag expand_loop
  for_loops zero m s = none
  for_loops (suc fuel) m s = elim (find_block for_tag endfor s) [
    | none ↦ some s
    | some b ↦ for_loops fuel m (expand_loop m b)
  ]

  unfoldable pub process_template : ℕ → Text → Data → Option Text
  unfolding for_loops process_variables process_conditionals
  process_template fuel template m = elim (for_loops fuel m template) [
    | none ↦ none
    | some s ↦ some (process_variables lang m (process_conditionals lang m s))
  ]

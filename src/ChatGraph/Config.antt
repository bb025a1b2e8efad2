-- ===== src/ChatGraph/Config.antt =====
-- internal/handlers/chatbot_graph_runner.go: what the executors read from a node's config, the
-- path that a session records, and the expressions.
use trt_whats.Common.{
  Bool, true, false, not, ◌&&◌, List, [], ◌∷◌, ◌++◌, Option, none, some, Text, codes, ℤ, pos,
  lookup, ◌==◌, text_eq_on, eqb_ℤ,
}
use trt_whats.Json.{Value, Data, FloatOps, as_list, or_null, of_list, of_map, to_map}
use trt_whats.ChatGraph.{ChatNode, Env, Run, type_name, set_data}

-- A string that is not empty.
abbrev pub filled : Value → Option Text
filled (Value.str []) = none
filled (Value.str (c ∷ s)) = some (c ∷ s)
filled _ = none

unfoldable pub string_from_config : Data → List Text → Text
string_from_config cfg [] = []
string_from_config cfg (k ∷ ks) = elim (filled (or_null (lookup k cfg))) [
  | none ↦ string_from_config cfg ks
  | some s ↦ s
]

unfoldable pub int_from_config : FloatOps → Data → Text → ℤ → ℤ
int_from_config float cfg key def = elim (or_null (lookup key cfg)) [
  | Value.float f ↦ float.to_int f
  | Value.int z ↦ z
  | v ↦ def
]

-- The entries that are maps.
abbrev pub maps_of : List Value → List Data
maps_of [] = []
maps_of (Value.obj fs ∷ vs) = to_map fs ∷ maps_of vs
maps_of (v ∷ vs) = maps_of vs

unfoldable pub buttons_from_config : Data → List Data
buttons_from_config cfg = maps_of (as_list (or_null (lookup (codes "buttons") cfg)))

abbrev pub path_key : Text
path_key = codes "__path__"

abbrev pub append_entry : Data → Run → Run
append_entry entry r =
    set_data path_key
      (Value.arr (
        of_list (
          as_list (or_null (lookup path_key r.session.session_data))
          ++ Value.obj (of_map entry) ∷ [])))
      r

-- appendChatPath
unfoldable pub append_chat_path : ChatNode → Text → Run → Run
append_chat_path node outcome r =
    append_entry
      ((codes "node", Value.str node.id)
        ∷ (codes "type", Value.str (type_name node.type))
        ∷ (codes "label", Value.str node.label)
        ∷ (codes "outcome", Value.str outcome)
        ∷ [])
      r

-- What evaluateConditionExpression makes of the expression's value.
abbrev pub coerce : Env → Value → Bool
coerce env (Value.bool b) = b
coerce env Value.null = false
coerce env (Value.str s) = not (s == []) && not (env.to_lower s == codes "false")
coerce env (Value.float f) = not (env.lang.float.is_zero f)
coerce env (Value.int z) = not (eqb_ℤ z (pos 0))
coerce env v = true

-- none is an error of the compilation or of the run.
unfoldable pub evaluate_condition_expression : Env → Text → Data → Option Bool
evaluate_condition_expression env expression m = elim (env.expression expression m) [
  | none ↦ none
  | some v ↦ some (coerce env v)
]

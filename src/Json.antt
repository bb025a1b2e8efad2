-- ===== src/Json.antt =====
-- Go's `any`, as encoding/json and the handlers build it: nil, bool, string, int, float64,
-- []any and map[string]any. A float64 is its bit pattern; what the code computes with it is a
-- parameter of the definitions that do (`FloatOps`), because the language defines it.
use trt_whats.Common.{ℕ, ◌≡◌, refl, Bool, List, [], ◌∷◌, Map, Text, ℤ, Option, none, some, ap}

mutual
  pub data Value : Type 0 where
    null : Value
    bool : Bool → Value
    str : Text → Value
    int : ℤ → Value
    float : ℕ → Value
    arr : Items → Value
    obj : Fields → Value

  pub data Items : Type 0 where
    nil : Items
    cons : Value → Items → Items

  pub data Fields : Type 0 where
    end : Fields
    field : Text → Value → Fields → Fields

-- map[string]any
abbrev pub Data : Type 0
Data = Map Text Value

abbrev pub to_list : Items → List Value
to_list nil = []
to_list (cons v vs) = v ∷ to_list vs

abbrev pub of_list : List Value → Items
of_list [] = nil
of_list (v ∷ vs) = cons v (of_list vs)

abbrev pub to_map : Fields → Data
to_map end = []
to_map (field k v fs) = (k, v) ∷ to_map fs

abbrev pub of_map : Data → Fields
of_map [] = end
of_map ((k, v) ∷ m) = field k v (of_map m)

pub to_list-of_list : (vs : List Value) → to_list (of_list vs) ≡ vs
to_list-of_list [] = refl
to_list-of_list (v ∷ vs) = ap (◌∷◌ v) (to_list-of_list vs)

-- m[k] at a map[string]any: nil where the key is missing.
abbrev pub or_null : Option Value → Value
or_null none = null
or_null (some v) = v

-- v.(string)
abbrev pub as_string : Value → Option Text
as_string (str s) = some s
as_string _ = none

-- v.([]any), and nil where the assertion fails
abbrev pub as_list : Value → List Value
as_list (arr vs) = to_list vs
as_list _ = []

-- v.(map[string]any), and nil where the assertion fails
abbrev pub as_map : Value → Data
as_map (obj fs) = to_map fs
as_map _ = []

-- What the code computes with float64 values, given their bit patterns.
pub record FloatOps : Type 0 where
  pub to_int : ℕ → ℤ
  pub of_int : ℤ → ℕ
  pub is_zero : ℕ → Bool
  pub beq : ℕ → ℕ → Bool
  pub lt : ℕ → ℕ → Bool
  pub parse : Text → Option ℕ
  pub format : ℕ → Text

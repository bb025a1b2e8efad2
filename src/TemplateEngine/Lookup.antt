-- ===== src/TemplateEngine/Lookup.antt =====
-- internal/handlers/template_engine.go: paths, and what they lead to.
use trt_whats.Common.{
  true, false, List, [], ◌∷◌, ◌++◌, none, some, nat_eq, Text, ◌≡◌, refl, ap, sym, ◌∙◌, arith, All,
  ◌==◌, text_eq_on, text_eq, contains, nat_eq_on, Bool-cases, inl, inr,
}
use mathlib.Core.List.{append-nil, append_assoc}
use trt_whats.Json.{Value, null, obj, Data, of_map}
use trt_whats.Strconv.Search.{index, has_prefix}
use trt_whats.TemplateEngine.Path.{
  split_loop, split_path, step_into, walk_parts, get_nested_value, field_of, is_null, flush,
}

-- A field name: without a dot or a bracket, and not empty.
abbrev pub IsPlain : Text → Type 0
IsPlain t = (contains b'.' t ≡ false) × (contains b'[' t ≡ false)

abbrev pub IsField : Text → Type 0
IsField t = IsPlain t × ((t == []) ≡ false)

-- The fields, with dots between them.
abbrev pub join : List Text → Text
join [] = []
join (f ∷ []) = f
join (f ∷ g ∷ fs) = f ++ b'.' ∷ join (g ∷ fs)

-- What field after field leads to.
abbrev pub descend : List Text → Value → Value
descend [] v = v
descend (f ∷ fs) v = descend fs (field_of f v)

split_loop-plain :
    (current t rest : Text)
    → IsPlain t
    → split_loop false current (t ++ rest) ≡ split_loop false (current ++ t) rest
unfolding split_loop
split_loop-plain current [] rest h = rw (append-nil current) refl
split_loop-plain current (c ∷ t) rest h =
    let dot : nat_eq c b'.' ≡ false = ground arith in
    let bracket : nat_eq c b'[' ≡ false = ground arith in
    rw (dot, bracket)
      (split_loop-plain (current ++ c ∷ []) t rest (ground arith)
        ∙ ap (λ u. split_loop false u rest) (append_assoc current (c ∷ []) t))

flush_lem : (t : Text) (ps : List Text) → (t == []) ≡ false → flush t ps ≡ t ∷ ps
unfolding text_eq
flush_lem [] ps h = cc
flush_lem (c ∷ t) ps h = refl

split_loop-join : (fs : List Text) → All IsField fs → split_loop false [] (join fs) ≡ fs
unfolding split_loop
split_loop-join [] h = refl
split_loop-join (f ∷ []) h =
    ap (split_loop false []) (sym (append-nil f))
    ∙ split_loop-plain [] f [] h.0.0
    ∙ flush_lem f [] h.0.1
split_loop-join (f ∷ g ∷ fs) h =
    split_loop-plain [] f (b'.' ∷ join (g ∷ fs)) h.0.0
    ∙ flush_lem f _ h.0.1
    ∙ ap (◌∷◌ f) (split_loop-join (g ∷ fs) h.1)

-- A dotted path of field names splits into those names.
pub split_path-join : (fs : List Text) → All IsField fs → split_path (join fs) ≡ fs
unfolding split_path
split_path-join fs h = split_loop-join fs h

index-plain : (t : Text) → contains b'[' t ≡ false → index t (b'[' ∷ []) ≡ none
unfolding index has_prefix
index-plain [] h = refl
index-plain (c ∷ t) h = ground (arith, index-plain t)

descend-null : (fs : List Text) → descend fs null ≡ null
descend-null [] = refl
descend-null (f ∷ fs) = descend-null fs

step_into-field : (f : Text) (v : Value) → IsField f → step_into f v ≡ some (field_of f v)
unfolding step_into
step_into-field f v h = rw (step_into, index-plain f h.0.1) refl

walk_parts-fields :
    (fs : List Text) (v : Value) → All IsField fs → walk_parts fs v ≡ some (descend fs v)
unfolding walk_parts
walk_parts-fields [] v h = refl
walk_parts-fields (f ∷ fs) v h = elim (Bool-cases (is_null v)) [
  | inl none_left ↦ rw none_left (ap some (sym (descend-nothing f fs v none_left)))
  | inr more ↦ rw (more, step_into-field f v h.0) (walk_parts-fields fs (field_of f v) h.1)
]
  where
    descend-nothing :
        (g : Text) (gs : List Text) (u : Value) → is_null u ≡ true → descend (g ∷ gs) u ≡ null
    descend-nothing g gs Value.null e = descend-null gs
    descend-nothing g gs (Value.bool b) e = cc
    descend-nothing g gs (Value.str t) e = cc
    descend-nothing g gs (Value.int z) e = cc
    descend-nothing g gs (Value.float n) e = cc
    descend-nothing g gs (Value.arr vs) e = cc
    descend-nothing g gs (Value.obj es) e = cc

join-nonempty : (f : Text) (fs : List Text) → IsField f → (join (f ∷ fs) == []) ≡ false
unfolding text_eq
join-nonempty f [] h = h.1
join-nonempty [] (g ∷ fs) h = cc
join-nonempty (c ∷ f) (g ∷ fs) h = refl

-- A dotted path of at least one field name leads, without a panic, to what the fields lead to one
-- after the other, which is nil where one of them is missing or stands in no object.
pub get_nested_value-join :
    (m : Data) (f : Text) (fs : List Text)
    → IsField f
    → All IsField fs
    → get_nested_value (some m) (join (f ∷ fs)) ≡ some (descend (f ∷ fs) (obj (of_map m)))
unfolding get_nested_value
get_nested_value-join m f fs h hs =
    rw (join-nonempty f fs h, split_path-join (f ∷ fs) (h, hs))
      (walk_parts-fields (f ∷ fs) (obj (of_map m)) (h, hs))

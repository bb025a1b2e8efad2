-- ===== src/Transfers/Hours.antt =====
-- internal/handlers/chatbot_processor.go, isWithinBusinessHours.
use trt_whats.Common.{
  ℕ, Bool, true, false, not, ◌&&◌, List, [], ◌∷◌, Option, none, some, if◌then◌else◌, nat_eq, ltb,
  Text, codes, lookup, text_eq_on, pos, eqb_ℤ,
}
use trt_whats.Json.{Value, FloatOps, Data, or_null, as_string, to_map}

-- a <= b, of strings
abbrev pub text_leb : Text → Text → Bool
text_leb [] t = true
text_leb (c ∷ s) [] = false
text_leb (c ∷ s) (d ∷ t) =
    let rest = text_leb s t in if ltb c d then true else if nat_eq c d then rest else false

abbrev pub is_true : Value → Bool
is_true (Value.bool b) = b
is_true _ = false

abbrev pub is_day : FloatOps → ℕ → Value → Bool
is_day float weekday (Value.float f) = eqb_ℤ (float.to_int f) (pos weekday)
is_day float weekday _ = false

-- What an enabled entry of the day decides; none goes on to the next entry.
abbrev pub times_of : Text → Data → Option Bool
times_of clock m = elim (as_string (or_null (lookup (codes "start_time") m))) [
  | none ↦ none
  | some from ↦ elim (as_string (or_null (lookup (codes "end_time") m))) [
    | none ↦ none
    | some until ↦ some (text_leb from clock && text_leb clock until)
  ]
]

unfoldable pub is_within_business_hours : FloatOps → ℕ → Text → List Value → Bool
is_within_business_hours float weekday clock [] = false
is_within_business_hours float weekday clock (Value.obj fs ∷ vs) =
    let m = to_map fs in
    let rest = is_within_business_hours float weekday clock vs in
    let decided : Bool = elim (times_of clock m) [ none ↦ rest | some b ↦ b ] in
    if not (is_day float weekday (or_null (lookup (codes "day") m)))
    then rest
    else if not (is_true (or_null (lookup (codes "enabled") m)))
    then false
    else decided
is_within_business_hours float weekday clock (v ∷ vs) =
    is_within_business_hours float weekday clock vs

-- ===== src/ChatGraph/Timing.antt =====
-- internal/handlers/chatbot_graph_runner.go: the schedule of a timing node. time.Parse("15:04", s)
-- is parse_clock.
use trt_whats.Common.{
  ℕ, ◌+◌, ◌*◌, ◌-◌, Bool, true, false, not, ◌&&◌, List, [], ◌∷◌, Option, none, some, if◌then◌else◌,
  ltb, leb, Text, codes, lookup, ◌==◌, text_eq_on, ◌>>=◌, nat_eq,
}
use trt_whats.Json.{Value, Data, or_null, as_list, to_map}
use trt_whats.Strconv.Decimal.{is_digit}
use trt_whats.ChatGraph.{ChatNode, Env, Run, Reply, goes}
use trt_whats.ChatGraph.Send.{string_at}

-- A number of two digits, or of one where `fixed` does not ask for two.
abbrev pub get_number : Bool → Text → Option (ℕ × Text)
get_number fixed [] = none
get_number fixed (a ∷ []) = if is_digit a && not fixed then some (a - 48, []) else none
get_number fixed (a ∷ b ∷ s) =
    if not (is_digit a)
    then none
    else if is_digit b
    then some ((a - 48) * 10 + (b - 48), s)
    else if fixed
    then none
    else some (a - 48, b ∷ s)

abbrev pub after_colon : Text → Option Text
after_colon [] = none
after_colon (c ∷ s) = if nat_eq c b':' then some s else none

abbrev pub clock_end : ℕ → ℕ → Text → Option ℕ
clock_end hour minute [] = if ltb hour 24 && ltb minute 60 then some (hour * 60 + minute) else none
clock_end hour minute (c ∷ s) = none

-- In minutes of the day.
unfoldable pub parse_clock : Text → Option ℕ
parse_clock s = do
  (hour, s1) ← get_number false s
  s2 ← after_colon s1
  (minute, s3) ← get_number true s2
  clock_end hour minute s3

abbrev pub in_hours : Text
in_hours = codes "in_hours"

abbrev pub out_of_hours : Text
out_of_hours = codes "out_of_hours"

abbrev pub is_enabled : Value → Bool
is_enabled (Value.bool b) = b
is_enabled _ = false

-- The entry of the day.
unfoldable pub evaluate_entry : ℕ → Data → Text
unfolding parse_clock
evaluate_entry minutes entry =
    if not (is_enabled (or_null (lookup (codes "enabled") entry)))
    then out_of_hours
    else elim (parse_clock (string_at (codes "start_time") entry)) [
      | none ↦ out_of_hours
      | some from ↦ elim (parse_clock (string_at (codes "end_time") entry)) [
        | none ↦ out_of_hours
        | some until ↦ if leb from minutes && ltb minutes until then in_hours else out_of_hours
      ]
    ]

-- The loop of evaluateTimingSchedule: the first entry of the day decides.
unfoldable pub evaluate_timing_schedule : (Text → Text) → Text → ℕ → List Value → Text
unfolding evaluate_entry
evaluate_timing_schedule lower weekday minutes [] = out_of_hours
evaluate_timing_schedule lower weekday minutes (Value.obj fs ∷ vs) =
    let rest = evaluate_timing_schedule lower weekday minutes vs in
    if lower (string_at (codes "day") (to_map fs)) == lower weekday
    then evaluate_entry minutes (to_map fs)
    else rest
evaluate_timing_schedule lower weekday minutes (v ∷ vs) =
    evaluate_timing_schedule lower weekday minutes vs

unfoldable pub exec_timing : Env → ChatNode → Run → Run × Reply
unfolding evaluate_timing_schedule
exec_timing env node r = (
  r,
  goes (
      evaluate_timing_schedule env.to_lower env.weekday env.minutes
        (as_list (or_null (lookup (codes "schedule") node.config)))),
)

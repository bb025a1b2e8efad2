-- ===== src/ChatGraph/Answers.antt =====
-- internal/handlers/chatbot_graph_runner.go: the retries of a prompt, and the hours of a schedule.
use trt_whats.Common.{
  ℕ, ◌≤◌, ◌<◌, Bool, true, false, List, [], ◌∷◌, Option, none, some, Text, codes, select, ◌==◌,
  text_eq_on, ◌≡◌, refl, arith, Option-cases, inl, inr, pos,
}
use trt_whats.Json.{Value, Data}
use trt_whats.ChatGraph.{ChatNode, Env, Run}
use trt_whats.ChatGraph.Config.{int_from_config, maps_of}
use trt_whats.ChatGraph.Send.{string_at}
use trt_whats.ChatGraph.Timing.{
  get_number, after_colon, clock_end, parse_clock, in_hours, out_of_hours, evaluate_entry,
  evaluate_timing_schedule,
}
use trt_whats.ChatGraph.Inputs.{exec_prompt, prompt_invalid, ask, store_as}
use trt_whats.ChatGraph.Nodes.{send_and_log}

-- A prompt that is answered, rightly or wrongly, or asked, keeps the session's count of retries
-- below the node's max_retries.
pub exec_prompt-retries :
    (env : Env) (n : ChatNode) (r : Run) (limit : ℕ)
    → int_from_config env.lang.float n.config (codes "max_retries") (pos 3) ≡ pos limit
    → r.session.step_retries < limit
    → (exec_prompt env n r).0.session.step_retries < limit
unfolding exec_prompt prompt_invalid ask store_as send_and_log
exec_prompt-retries env n r limit e h = ground arith

clock_end-bound : (h m : ℕ) (s : Text) (t : ℕ) → clock_end h m s ≡ some t → t < 1440
clock_end-bound h m [] t e = ground arith
clock_end-bound h m (c ∷ s) t e = cc

-- A time of the day that parses is less than 24 hours.
pub parse_clock-bound : (s : Text) (t : ℕ) → parse_clock s ≡ some t → t < 1440
unfolding parse_clock
parse_clock-bound s t e = elim (Option-cases (get_number false s)) [
  | inl a ↦ absurd (ground arith)
  | inr ((hour, s1), a) ↦ elim (Option-cases (after_colon s1)) [
    | inl b ↦ absurd (ground arith)
    | inr (s2, b) ↦ elim (Option-cases (get_number true s2)) [
      | inl c ↦ absurd (ground arith)
      | inr ((minute, s3), c) ↦ clock_end-bound hour minute s3 t (ground arith)
    ]
  ]
]

abbrev pub is_day : (Text → Text) → Text → Data → Bool
is_day lower weekday entry = lower (string_at (codes "day") entry) == lower weekday

abbrev pub first {ℓ} : {A : Type ℓ} → List A → Option A
first [] = none
first (x ∷ xs) = some x

abbrev decide : ℕ → Option Data → Text
decide minutes none = out_of_hours
decide minutes (some entry) = evaluate_entry minutes entry

-- The first entry of the schedule that is for the day decides; without one it is out of hours.
schedule_lem :
    (lower : Text → Text) (weekday : Text) (minutes : ℕ) (vs : List Value)
    → evaluate_timing_schedule lower weekday minutes vs
      ≡ decide minutes (first (select (is_day lower weekday) (maps_of vs)))
unfolding evaluate_timing_schedule
schedule_lem lower weekday minutes [] = refl
schedule_lem lower weekday minutes (Value.obj fs ∷ vs) =
    ground (arith, schedule_lem lower weekday minutes vs)
schedule_lem lower weekday minutes (Value.null ∷ vs) = schedule_lem lower weekday minutes vs
schedule_lem lower weekday minutes (Value.bool b ∷ vs) = schedule_lem lower weekday minutes vs
schedule_lem lower weekday minutes (Value.str s ∷ vs) = schedule_lem lower weekday minutes vs
schedule_lem lower weekday minutes (Value.int z ∷ vs) = schedule_lem lower weekday minutes vs
schedule_lem lower weekday minutes (Value.float f ∷ vs) = schedule_lem lower weekday minutes vs
schedule_lem lower weekday minutes (Value.arr xs ∷ vs) = schedule_lem lower weekday minutes vs

-- The minutes from the entry's start to before its end.
abbrev pub IsOpen : ℕ → Data → Type 0
IsOpen minutes entry =
    (from : ℕ) × (until : ℕ) × (parse_clock (string_at (codes "start_time") entry) ≡ some from)
    × (parse_clock (string_at (codes "end_time") entry) ≡ some until)
    × (from ≤ minutes)
    × (minutes < until)
    × (until < 1440)

entry-IsOpen :
    (minutes : ℕ) (entry : Data) → evaluate_entry minutes entry ≡ in_hours → IsOpen minutes entry
unfolding evaluate_entry
entry-IsOpen minutes entry h =
    elim (Option-cases (parse_clock (string_at (codes "start_time") entry))) [
      | inl a ↦ absurd (ground arith)
      | inr (from, a) ↦ elim (Option-cases (parse_clock (string_at (codes "end_time") entry))) [
        | inl b ↦ absurd (ground arith)
        | inr (until, b) ↦ (
          from,
          until,
          a,
          b,
          ground arith,
          ground arith,
          parse_clock-bound (string_at (codes "end_time") entry) until b,
        )
      ]
    ]

-- A schedule is in hours only if its first entry for the day has a start and an end that parse, the
-- start not after and the end after the time of the day; so a day's hours do not pass midnight.
pub evaluate_timing_schedule-IsOpen :
    (lower : Text → Text) (weekday : Text) (minutes : ℕ) (vs : List Value)
    → evaluate_timing_schedule lower weekday minutes vs ≡ in_hours
    → (entry : Data) × (first (select (is_day lower weekday) (maps_of vs)) ≡ some entry)
      × IsOpen minutes entry
evaluate_timing_schedule-IsOpen lower weekday minutes vs h =
    elim (Option-cases (first (select (is_day lower weekday) (maps_of vs)))) [
      | inl e ↦ absurd (ground (arith, schedule_lem lower weekday minutes vs))
      | inr (entry, e) ↦ (
        entry,
        e,
        entry-IsOpen minutes entry (ground (arith, schedule_lem lower weekday minutes vs)),
      )
    ]

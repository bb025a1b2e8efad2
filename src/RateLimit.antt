-- ===== src/RateLimit.antt =====
-- internal/middleware/ratelimit.go: the fixed window of enforce over Redis's INCR, EXPIRE and TTL.
-- Redis is a map of counters, in which an entry past its expiry counts as missing. Times are
-- nanoseconds. A failing call of Redis leaves Redis as it is. The key of a client is any text.
mod Samples
pub mod Window
use trt_whats.Common.{
  ℕ, suc, ◌+◌, ◌-◌, ◌/◌, Bool, true, false, not, ◌&&◌, List, [], ◌∷◌, Option, none, some,
  if◌then◌else◌, ltb, leb, nat_eq, Text, Map, lookup, insert, text_eq_on, ◌==◌, ℤ, pos, ltb_ℤ,
}

pub record Entry : Type 0 where
  pub count : ℕ
  pub expires_at : Option ℕ

abbrev pub Redis : Type 0
Redis = Map Text Entry

pub record Opts : Type 0 where
  pub max : ℤ
  pub window : ℕ

pub record Faults : Type 0 where
  pub incr_fails : Bool
  pub expire_fails : Bool
  pub ttl_fails : Bool

pub data Decision : Type 0 where
  allowed : Decision
  too_many : ℕ → Decision  -- with the Retry-After header

abbrev pub is_allowed : Decision → Bool
is_allowed allowed = true
is_allowed (too_many n) = false

abbrev pub is_live : ℕ → Entry → Bool
is_live now e = elim e.expires_at [ none ↦ true | some t ↦ ltb now t ]

unfoldable pub get : ℕ → Text → Redis → Option Entry
get now key r = elim (lookup key r) [
  | none ↦ none
  | some e ↦ if is_live now e then some e else none
]

-- INCR, which keeps the expiry of a live entry.
abbrev pub incremented : Option Entry → Entry
incremented none = record { count = 1; expires_at = none }
incremented (some e) = record e { count = suc e.count }

abbrev pub with_expiry : ℕ → Entry → Entry
with_expiry t e = record e { expires_at = some t }

-- The remaining time (which Redis rounds to seconds), unless the entry does not expire.
abbrev pub ttl_of : ℕ → Entry → Option ℕ
ttl_of now e = elim e.expires_at [ none ↦ none | some t ↦ some (t - now) ]

abbrev pub at_least_one : ℕ → ℕ
at_least_one n = if ltb n 1 then 1 else n

abbrev pub retry_after : Opts → Faults → ℕ → Entry → ℕ
retry_after opts faults now e =
    let ttl =
      if faults.ttl_fails
      then opts.window
      else elim (ttl_of now e) [ none ↦ opts.window | some t ↦ t ] in
    at_least_one (ttl / 1000000000)

unfoldable pub enforce : Opts → Faults → ℕ → Text → Redis → Decision × Redis
unfolding get
enforce opts faults now key r =
    if faults.incr_fails
    then (allowed, r)
    else let e = incremented (get now key r) in
      let e' =
        if nat_eq e.count 1 && not faults.expire_fails
        then with_expiry (now + opts.window) e
        else e in
      (
        if ltb_ℤ opts.max (pos e.count) then too_many (retry_after opts faults now e') else allowed,
        insert key e' r,
      )

abbrev pub sound : Faults
sound = record { incr_fails = false; expire_fails = false; ttl_fails = false }

-- The requests of one key at the times given that are let through.
unfoldable pub count_allowed : Opts → Text → List ℕ → Redis → ℕ
unfolding enforce
count_allowed opts key [] r = 0
count_allowed opts key (t ∷ ts) r =
    let (d, r') = enforce opts sound t key r in
    let rest = count_allowed opts key ts r' in if is_allowed d then suc rest else rest

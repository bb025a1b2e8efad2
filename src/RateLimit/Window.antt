-- ===== src/RateLimit/Window.antt =====
-- internal/middleware/ratelimit.go: how many requests a window lets through.
use trt_whats.Common.{
  ℕ, suc, ◌+◌, ◌-◌, ◌≤◌, ◌<◌, ◌≡◌, refl, ap, ◌∙◌, true, false, List, [], ◌∷◌, Option, none, some,
  if◌then◌else◌, leb, lt→ltb, length, All, Text, lookup, insert, lookup-insert, text_eq_on, ==_refl,
  pos, arith,
}
use trt_whats.RateLimit.{
  Entry, Redis, Opts, Faults, is_allowed, is_live, get, enforce, sound, count_allowed,
}

abbrev pub min : ℕ → ℕ → ℕ
min a b = if leb a b then a else b

abbrev pub opts_of : ℕ → ℕ → Opts
opts_of max window = record { max = pos max; window = window }

abbrev entry : ℕ → Option ℕ → Entry
entry c x = record { count = c; expires_at = x }

insert-own : (key : Text) (e : Entry) (r : Redis) → lookup key (insert key e r) ≡ some e
insert-own key e r = lookup-insert key key e r ∙ rw (==_refl key) refl

get-live :
    (now : ℕ) (key : Text) (e : Entry) (r : Redis)
    → lookup key r ≡ some e
    → is_live now e ≡ true
    → get now key r ≡ some e
unfolding get
get-live now key e r h live = rw (h, get) (rw live refl)

module _ (max window : ℕ) (key : Text) where
  -- A request of a key with a live entry that has counted before.
  enforce-live :
      (faults : Faults) (now c : ℕ) (x : Option ℕ) (r : Redis)
      → faults.incr_fails ≡ false
      → lookup key r ≡ some (entry (suc c) x)
      → is_live now (entry (suc c) x) ≡ true
      → (is_allowed (enforce (opts_of max window) faults now key r).0 ≡ leb (suc (suc c)) max)
        × ((enforce (opts_of max window) faults now key r).1 ≡ insert key (entry (suc (suc c)) x) r)
  unfolding enforce get
  enforce-live faults now c x r f e live =
      rw (f, get-live now key (entry (suc c) x) r e live) (ground arith)

  count_allowed-live :
      (ts : List ℕ) (c x : ℕ) (r : Redis)
      → lookup key r ≡ some (entry (suc c) (some x))
      → All (λ t. t < x) ts
      → count_allowed (opts_of max window) key ts r ≡ min (length ts) (max - suc c)
  unfolding count_allowed
  count_allowed-live [] c x r e h = ground arith
  count_allowed-live (t ∷ ts) c x r e h =
      let (flag, next) = enforce-live sound t c (some x) r refl e (lt→ltb t x h.0) in
      let later : lookup key (enforce (opts_of max window) sound t key r).1
          ≡ some (entry (suc (suc c)) (some x)) =
        ap (lookup key) next ∙ insert-own key (entry (suc (suc c)) (some x)) r in
      rw
        (
          flag,
          count_allowed-live ts (suc c) x (enforce (opts_of max window) sound t key r).1 later h.1,
        )
        (ground arith)

  first-later :
      (start : ℕ) (r : Redis)
      → get start key r ≡ none
      → (is_allowed (enforce (opts_of max window) sound start key r).0 ≡ leb 1 max)
        × (lookup key (enforce (opts_of max window) sound start key r).1
            ≡ some (entry 1 (some (start + window))))
  unfolding enforce
  first-later start r e = rw e (ground arith, insert-own key (entry 1 (some (start + window))) r)

  -- Of the requests of a key from the start of a window to its end, as many are let through as
  -- there are, or the maximum if they are more, where Redis answers.
  pub count_allowed-window :
      (start : ℕ) (ts : List ℕ) (r : Redis)
      → get start key r ≡ none
      → All (λ t. t < start + window) ts
      → count_allowed (opts_of max window) key (start ∷ ts) r ≡ min (length (start ∷ ts)) max
  unfolding count_allowed
  count_allowed-window start ts r e h =
      let (flag, later) = first-later start r e in
      rw
        (
          flag,
          count_allowed-live ts 0 (start + window)
              (enforce (opts_of max window) sound start key r).1 later h,
        )
        (ground arith)

  -- A counter that has reached the maximum and has no expiry, as a failed EXPIRE leaves it, refuses
  -- every request from then on, however late it comes, and still has no expiry afterwards.
  pub enforce-unexpiring :
      (faults : Faults) (now c : ℕ) (r : Redis)
      → faults.incr_fails ≡ false
      → lookup key r ≡ some (entry (suc c) none)
      → max ≤ suc c
      → (is_allowed (enforce (opts_of max window) faults now key r).0 ≡ false)
        × (lookup key (enforce (opts_of max window) faults now key r).1
            ≡ some (entry (suc (suc c)) none))
  enforce-unexpiring faults now c r f e full =
      let (flag, next) = enforce-live faults now c none r f e refl in
      (
        flag ∙ ground (arith, full),
        ap (lookup key) next ∙ insert-own key (entry (suc (suc c)) none) r,
      )

  -- Once a counter has reached the maximum and has no expiry, as a failed EXPIRE leaves it, no
  -- request of the key is let through any more, however many come and however late, where Redis
  -- answers (a request whose INCR fails is let through).
  pub count_allowed-unexpiring :
      (ts : List ℕ) (c : ℕ) (r : Redis)
      → lookup key r ≡ some (entry (suc c) none)
      → max ≤ suc c
      → count_allowed (opts_of max window) key ts r ≡ 0
  unfolding count_allowed
  count_allowed-unexpiring [] c r e full = refl
  count_allowed-unexpiring (t ∷ ts) c r e full =
      let (flag, next) = enforce-unexpiring sound t c r refl e full in
      rw
        (
          flag,
          count_allowed-unexpiring ts (suc c) (enforce (opts_of max window) sound t key r).1 next
              (omega (arith, full)),
        )
        refl

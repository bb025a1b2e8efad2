-- ===== src/RateLimit/Samples.antt =====
-- internal/middleware/ratelimit.go: a limit of two in a minute, and the theorems at it.
use trt_whats.Common.{
  ◌+◌, ◌≡◌, ◌<◌, ◌≤◌, refl, [], ◌∷◌, none, some, All, codes, lookup, text_eq, text_eq_on, arith,
}
use trt_whats.RateLimit.{Redis, get, count_allowed}
use trt_whats.RateLimit.Window.{opts_of, count_allowed-window, count_allowed-unexpiring}

-- The entry of an earlier window, which has expired at 100.
abbrev redis : Redis
redis = (codes "login", record { count = 9; expires_at = some 50 }) ∷ []

abbrev stuck : Redis
stuck = (codes "login", record { count = 2; expires_at = none }) ∷ []

in_window : All (λ t. t < 100 + 60) (110 ∷ 120 ∷ 159 ∷ [])
in_window = ground arith

count_allowed-window_example :
    count_allowed (opts_of 2 60) (codes "login") (100 ∷ 110 ∷ 120 ∷ 159 ∷ []) redis ≡ 2
unfolding get lookup text_eq
count_allowed-window_example =
    count_allowed-window 2 60 (codes "login") 100 (110 ∷ 120 ∷ 159 ∷ []) redis refl in_window

two_le_two : 2 ≤ 2
two_le_two = ground arith

count_allowed-unexpiring_example :
    count_allowed (opts_of 2 60) (codes "login") (1000000 ∷ 2000000 ∷ []) stuck ≡ 0
unfolding lookup text_eq
count_allowed-unexpiring_example =
    count_allowed-unexpiring 2 60 (codes "login") (1000000 ∷ 2000000 ∷ []) 1 stuck refl two_le_two

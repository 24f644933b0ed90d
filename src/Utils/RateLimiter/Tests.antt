-- ===== src/Utils/RateLimiter/Tests.antt =====
-- Two connections and more in one window.
use aero_nyx_private_ed.Base.{ℕ, ◌≡◌, refl, true, [], ◌∷◌, nat_eq, arith, none}
use aero_nyx_private_ed.Base.HashMap
use aero_nyx_private_ed.Utils.RateLimiter.{RateLimiter, new, check_rate_limit}
use aero_nyx_private_ed.Utils.RateLimiter.Window.{active, IsDistinct, check_rate_limit-active}
use aero_nyx_private_ed.Utils.RateLimiter.Bound.{allowed, allowed-window}

abbrev last_part : ℕ → ℕ
last_part n = n

-- Two connections in a window of 60, which cleans up each 1.
abbrev limiter : RateLimiter ℕ
limiter = new 2 60 1 0

limiter-IsDistinct : IsDistinct limiter
unfolding new
limiter-IsDistinct i = tt

limiter-empty : active last_part limiter 7 5 ≡ none
unfolding new active HashMap.get
limiter-empty = refl

allowed-window_example : allowed last_part limiter 7 (5 ∷ 6 ∷ 7 ∷ []) ≡ 2
unfolding new
allowed-window_example =
    allowed-window last_part limiter 7 5 (6 ∷ 7 ∷ []) limiter-IsDistinct (omega arith) (omega arith)
      (omega arith) limiter-empty (omega arith, omega arith, (omega arith, omega arith, tt))

check_rate_limit-active_example :
    ((check_rate_limit last_part limiter 7 5).0 ≡ true)
    × (active last_part (check_rate_limit last_part limiter 7 5).1 23 9 ≡ none)
    × IsDistinct (check_rate_limit last_part limiter 7 5).1
unfolding new active HashMap.get
check_rate_limit-active_example =
    check_rate_limit-active last_part limiter 7 23 5 9 limiter-IsDistinct (omega arith)
      (omega arith) (omega arith) (omega arith)

-- ===== src/Window/Tests.antt =====
-- The window at concrete times.
use nexlog_server.Base.{◌≡◌, refl, [], ◌∷◌, arith}
use nexlog_server.Window.{WindowLimiter, new_window_limiter, answers}
use nexlog_server.Window.Bounds.{allowed_count, count-boundary}

abbrev two_a_minute : WindowLimiter
two_a_minute = new_window_limiter 2 60

count-boundary_example :
    allowed_count (answers (10 ∷ 70 ∷ 71 ∷ 71 ∷ []) "10.0.0.1" two_a_minute) ≡ 4
unfolding new_window_limiter
count-boundary_example = count-boundary 10 1 "10.0.0.1" two_a_minute (omega arith) refl

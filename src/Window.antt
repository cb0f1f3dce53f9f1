-- ===== src/Window.antt =====
-- cmd/server/middleware.go: the package's own rate limiter, which counts the requests of an IP in a
-- window that starts with the first request after the last one has ended. The server uses the
-- limiter of internal/middleware instead. Times are nanoseconds since the zero time of Go.
pub mod Bounds
pub mod Serve
mod Tests
use nexlog_server.Base.{
  ℕ, suc, ◌+◌, String, Bool, List, [], ◌∷◌, Option, none, some, not, ltb, leb, if◌then◌else◌,
}
use nexlog_server.GoMap
use nexlog_server.GoMap.{GoMap}

pub record IpEntry : Type 0 where
  pub count : ℕ
  pub reset_at : ℕ

-- The clock of `now.After(e.resetAt)` and the ticker of the cleanup are arguments.
pub record WindowLimiter : Type 0 where
  pub ips : GoMap IpEntry
  pub max : ℕ
  pub window : ℕ

unfoldable pub new_window_limiter : ℕ → ℕ → WindowLimiter
new_window_limiter max window = record { ips = GoMap.empty; max = max; window = window }

-- One tick of the goroutine started by newRateLimiter.
unfoldable pub cleanup : ℕ → WindowLimiter → WindowLimiter
cleanup now rl = record rl { ips = GoMap.keep (λ e. not (ltb e.reset_at now)) rl.ips }

-- `&ipEntry{}`
abbrev pub entry_or_new : Option IpEntry → IpEntry
entry_or_new none = record { count = 0; reset_at = 0 }
entry_or_new (some e) = e

-- A new window where the last one has ended.
unfoldable pub refresh : ℕ → ℕ → IpEntry → IpEntry
refresh now window e =
    if ltb e.reset_at now then record { count = 0; reset_at = now + window } else e

-- What `allow` does under the entry's lock: the entry after it, and the answer.
unfoldable pub count_request : ℕ → ℕ → ℕ → IpEntry → Bool × IpEntry
unfolding refresh
count_request now max window e =
    let e' = refresh now window e in (leb (suc e'.count) max, record e' { count = suc e'.count })

unfoldable pub allow : ℕ → String → WindowLimiter → Bool × WindowLimiter
allow now ip rl =
    let (allowed, e) = count_request now rl.max rl.window (entry_or_new (rl.ips ip)) in
    (allowed, record rl { ips = GoMap.insert ip e rl.ips })

-- The answers to the requests of one IP at the given times.
unfoldable pub answers : List ℕ → String → WindowLimiter → List Bool
answers [] ip rl = []
answers (now ∷ times) ip rl = let (allowed, rl') = allow now ip rl in allowed ∷ answers times ip rl'

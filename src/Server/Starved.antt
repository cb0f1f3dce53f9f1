-- ===== src/Server/Starved.antt =====
-- cmd/server/main.go with a RATE_LIMIT_PER_MIN below 4.
mod Tests
use nexlog_server.Base.{ℕ, ◌<◌, String, ◌≡◌, refl, sym, ◌∙◌, ap, subst, true, List, [], ◌∷◌, arith}
use nexlog_server.Int.{ℤ, pos, quotient}
use nexlog_server.Text.{has_prefix}
use nexlog_server.Http.{Request}
use nexlog_server.Sql.{Db}
use nexlog_server.Migrate.{Schema}
use nexlog_server.Middleware.RateLimit.{RateLimiter, new_rate_limiter, limited}
use nexlog_server.Middleware.RateLimit.Zero.{
  RefusesAtZero, AllZero, AllZero-new, AllZero-cleanup, AllZero-middleware, middleware-refuses,
}
use nexlog_server.Repository.Tables.{Tables}
use nexlog_server.Server.{stack, inner}
use nexlog_server.Server.Boot.{Host, Server, listening, boot}
use nexlog_server.Server.Boot.Ready.{boot-IsReady}
use nexlog_server.Server.Life.{Event, request, clean_limiter, evict_cache, handler, happen, live}

quotient_small : (n : ℕ) → n < 4 → quotient (pos n) 4 ≡ pos 0
quotient_small n small = ap pos (omega arith)

module _ (host : Host) (zero : RefusesAtZero host.rate_lib) (n : ℤ) where
  AllZero-happen :
      (s : Server host) (e : Event)
      → AllZero zero n s.limiter
      → AllZero zero n (happen host s e).limiter
  unfolding happen handler stack
  AllZero-happen s (request r) h =
      AllZero-middleware zero n (inner host.gzip_lib host.packages host.static s.config) r s.limiter
        s.app h
  AllZero-happen s (clean_limiter now) h = AllZero-cleanup zero n now s.limiter h
  AllZero-happen s (evict_cache now) h = h

  AllZero-live :
      (events : List Event) (s : Server host)
      → AllZero zero n s.limiter
      → AllZero zero n (live host s events).limiter
  unfolding live
  AllZero-live [] s h = h
  AllZero-live (e ∷ events) s h = AllZero-live events (happen host s e) (AllZero-happen s e h)

-- Where a bucket with a burst of 0 allows nothing, and the server listens with a RATE_LIMIT_PER_MIN
-- from 0 to 3: whatever has happened since the boot, and however much time has passed, every
-- request for a path under `/api/` is answered 429 and changes nothing behind the handlers. So the
-- first request of an address is refused as is every other, and nobody can log in.
pub live-limited :
    (host : Host) (zero : RefusesAtZero host.rate_lib) (db : Db (Schema Tables)) (s : Server host)
    (events : List Event) (r : Request) (n : ℕ)
    → (boot host db).0 ≡ listening s
    → s.config.rate_limit_per_min ≡ pos n
    → n < 4
    → has_prefix r.path "/api/" ≡ true
    → let now = live host s events in
      ((handler host now r (now.limiter, now.app)).0 ≡ limited)
      × ((handler host now r (now.limiter, now.app)).1.1 ≡ now.app)
unfolding handler stack
live-limited host zero db s events r n listens low small api =
    let now = live host s events in
    let made = (boot-IsReady host db s listens).new_limiter ∙ ap new_rate_limiter low in
    let at_first = AllZero-new zero (pos n) (quotient_small n small) in
    middleware-refuses zero (pos n) (inner host.gzip_lib host.packages host.static now.config) r
      now.limiter now.app
      (AllZero-live host zero (pos n) events s (subst (AllZero zero (pos n)) (sym made) at_first))
      api

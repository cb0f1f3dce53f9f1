-- ===== src/Middleware/RateLimit.antt =====
-- internal/middleware/ratelimit.go. The token bucket of golang.org/x/time/rate is a parameter. A
-- `*rate.Limiter` is a place in a store: the map holds places, a request fetches one under the lock
-- and calls Allow on it after the lock is released.
pub mod View
pub mod Requests
pub mod Zero
use Prim.Native.String
use nexlog_server.Base.{
  ℕ, suc, ◌+◌, ◌-◌, ◌*◌, String, Bool, true, false, not, List, [], ◌∷◌, Option, none, some, ltb,
  nat_eq, if◌then◌else◌, ◌==◌,
}
use nexlog_server.GoMap
use nexlog_server.GoMap.{GoMap}
use nexlog_server.Http.{Handler, Request, Action, set_header, get_header, http_error}
use nexlog_server.Int.{ℤ, quotient}
use nexlog_server.Text.{before, has_prefix, split_host, strip_prefix, trim_space}

-- What the program uses of golang.org/x/time/rate, and the floating-point division that gives the
-- rate. `allow now l` is `l.Allow()` at the time `now`, with what the call leaves of the bucket.
pub record RateLib : Type 1 where
  pub Limit : Type 0
  pub per_second : ℤ → Limit
  pub Limiter : Type 0
  pub new_limiter : Limit → ℤ → Limiter
  pub allow : ℕ → Limiter → Bool × Limiter

pub record Visitor : Type 0 where
  pub limiter : ℕ
  pub last_seen : ℕ

abbrev pub ten_minutes : ℕ
ten_minutes = 600 * 1_000_000_000

unfoldable pub real_ip : Request → String
unfolding before trim_space split_host
real_ip r =
    let xff = get_header "X-Forwarded-For" r.header in
    let xri = get_header "X-Real-IP" r.header in
    if not (xff == "")
    then trim_space (before b',' xff)
    else if not (xri == "")
    then xri
    else split_host r.remote_addr

abbrev pub put_limiter {ℓ} : {A : Type ℓ} → ℕ → A → (ℕ → A) → ℕ → A
put_limiter p l store q = if nat_eq p q then l else store q

abbrev pub limited : List Action
limited = set_header "Retry-After" "60" ∷ http_error "{\"error\":\"Too many requests\"}" 429

module _ (lib : RateLib) where
  -- `store` and `next` are the memory of the limiters: a place below `next` holds one.
  pub record RateLimiter : Type 0 where
    pub visitors : GoMap Visitor
    pub rps : lib.Limit
    pub burst : ℤ
    pub store : ℕ → lib.Limiter
    pub next : ℕ

module _ {lib : RateLib} where
  unfoldable pub new_rate_limiter : ℤ → RateLimiter lib
  new_rate_limiter per_minute = record {
    visitors = GoMap.empty;
    rps = lib.per_second per_minute;
    burst = quotient per_minute 4;
    store = λ p. lib.new_limiter (lib.per_second per_minute) (quotient per_minute 4);
    next = 0;
  }

  -- One tick of the goroutine started by `NewRateLimiter`.
  unfoldable pub cleanup : ℕ → RateLimiter lib → RateLimiter lib
  cleanup now rl = record rl {
    visitors = GoMap.keep (λ v. not (ltb ten_minutes (now - v.last_seen))) rl.visitors;
  }

  abbrev visit : ℕ → String → Option Visitor → RateLimiter lib → ℕ × RateLimiter lib
  visit now ip none rl = (
    rl.next,
    record rl {
      visitors = GoMap.insert ip (record { limiter = rl.next; last_seen = now }) rl.visitors;
      store = put_limiter rl.next (lib.new_limiter rl.rps rl.burst) rl.store;
      next = suc rl.next;
    },
  )
  visit now ip (some v) rl = (
    v.limiter,
    record rl { visitors = GoMap.insert ip (record v { last_seen = now }) rl.visitors },
  )

  -- The place of the visitor's limiter, made where there is none.
  unfoldable pub get_limiter : ℕ → String → RateLimiter lib → ℕ × RateLimiter lib
  get_limiter now ip rl = visit now ip (rl.visitors ip) rl

  -- Allow, on the limiter at a place.
  unfoldable pub allow_at : ℕ → ℕ → RateLimiter lib → Bool × RateLimiter lib
  allow_at now p rl =
      let (allowed, l) = lib.allow now (rl.store p) in
      (allowed, record rl { store = put_limiter p l rl.store })

  unfoldable pub admit : Request → RateLimiter lib → Bool × RateLimiter lib
  admit r rl = let (p, rl') = get_limiter (r.clock 0) (real_ip r) rl in allow_at (r.clock 1) p rl'

  module _ {ℓ} {W : Type ℓ} where
    unfoldable pub middleware : Handler W → Handler (RateLimiter lib × W)
    unfolding admit strip_prefix
    middleware next r (rl, w) =
        let (served, w') = next r w in
        let (allowed, rl') = admit r rl in
        if not (has_prefix r.path "/api/")
        then (served, (rl, w'))
        else if not allowed
        then (limited, (rl', w))
        else (served, (rl', w'))

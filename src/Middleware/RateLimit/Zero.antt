-- ===== src/Middleware/RateLimit/Zero.antt =====
-- internal/middleware/ratelimit.go, where the burst comes to 0: perMinute/4 is rounded down.
use nexlog_server.Base.{
  ℕ, String, ◌≡◌, refl, true, false, inl, inr, Option-cases, Bool-cases, if_cases, nat_eq,
}
use nexlog_server.Http.{Request, Handler}
use nexlog_server.Int.{ℤ, pos, quotient}
use nexlog_server.Text.{has_prefix}
use nexlog_server.Middleware.RateLimit.{
  RateLib, RateLimiter, new_rate_limiter, cleanup, get_limiter, allow_at, admit, real_ip, limited,
  middleware, put_limiter,
}

-- From the documentation of golang.org/x/time/rate: a zero burst allows no events, unless the limit
-- is infinite. What a bucket is like, and stays like, that was made with a burst of 0.
pub record RefusesAtZero (lib : RateLib) : Type 1 where
  pub IsZero : lib.Limiter → Type 0
  pub made : (n : ℤ) → IsZero (lib.new_limiter (lib.per_second n) (pos 0))
  pub refuses : (now : ℕ) (l : lib.Limiter) → IsZero l → (lib.allow now l).0 ≡ false
  pub kept : (now : ℕ) (l : lib.Limiter) → IsZero l → IsZero (lib.allow now l).1

module _ {lib : RateLib} (zero : RefusesAtZero lib) (n : ℤ) where
  -- Every bucket was made with a burst of 0, and every later one will be.
  pub record AllZero (rl : RateLimiter lib) : Type 0 where
    pub rps : rl.rps ≡ lib.per_second n
    pub burst : rl.burst ≡ pos 0
    pub buckets : (p : ℕ) → zero.IsZero (rl.store p)

  IsZero-new :
      (rps : lib.Limit) (burst : ℤ)
      → rps ≡ lib.per_second n
      → burst ≡ pos 0
      → zero.IsZero (lib.new_limiter rps burst)
  IsZero-new rps burst same none_left = rw (same, none_left) (zero.made n)

  pub AllZero-new : quotient n 4 ≡ pos 0 → AllZero (new_rate_limiter n)
  unfolding new_rate_limiter
  AllZero-new small = record { rps = refl; burst = small; buckets = λ p. IsZero-new _ _ refl small }

  pub AllZero-cleanup : (now : ℕ) (rl : RateLimiter lib) → AllZero rl → AllZero (cleanup now rl)
  unfolding cleanup
  AllZero-cleanup now rl h = record { rps = h.rps; burst = h.burst; buckets = h.buckets }

  put_zero :
      (p : ℕ) (l : lib.Limiter) (store : ℕ → lib.Limiter)
      → zero.IsZero l
      → ((q : ℕ) → zero.IsZero (store q))
      → (q : ℕ) → zero.IsZero (put_limiter p l store q)
  put_zero p l store here others q =
      if_cases zero.IsZero (nat_eq p q) l (store q) (λ same. here) (λ other. others q)

  AllZero-get_limiter :
      (now : ℕ) (ip : String) (rl : RateLimiter lib)
      → AllZero rl
      → AllZero (get_limiter now ip rl).1
  unfolding get_limiter
  AllZero-get_limiter now ip rl h = elim (Option-cases (rl.visitors ip)) [
    | inl fresh ↦ rw fresh (record {
      rps = h.rps;
      burst = h.burst;
      buckets = put_zero rl.next _ rl.store (IsZero-new _ _ h.rps h.burst) h.buckets;
    })
    | inr (v, known) ↦ rw known (record { rps = h.rps; burst = h.burst; buckets = h.buckets })
  ]

  AllZero-admit : (r : Request) (rl : RateLimiter lib) → AllZero rl → AllZero (admit r rl).1
  unfolding admit allow_at
  AllZero-admit r rl h =
      let g = AllZero-get_limiter (r.clock 0) (real_ip r) rl h in
      record {
        rps = g.rps;
        burst = g.burst;
        buckets = put_zero _ _ _ (zero.kept (r.clock 1) _ (g.buckets _)) g.buckets;
      }

  admit-refuses : (r : Request) (rl : RateLimiter lib) → AllZero rl → (admit r rl).0 ≡ false
  unfolding admit allow_at
  admit-refuses r rl h =
      let g = AllZero-get_limiter (r.clock 0) (real_ip r) rl h in
      zero.refuses (r.clock 1) _ (g.buckets _)

  module _ {ℓ} {W : Type ℓ} (next : Handler W) (r : Request) (rl : RateLimiter lib) (w : W)
      (h : AllZero rl) where
    pub AllZero-middleware : AllZero (middleware next r (rl, w)).1.0
    unfolding middleware
    AllZero-middleware = elim (Bool-cases (has_prefix r.path "/api/")) [
      | inl api ↦ rw (api, admit-refuses r rl h, middleware) (AllZero-admit r rl h)
      | inr other ↦ rw (other, middleware) h
    ]

    pub middleware-refuses :
        has_prefix r.path "/api/" ≡ true
        → ((middleware next r (rl, w)).0 ≡ limited) × ((middleware next r (rl, w)).1.1 ≡ w)
    unfolding middleware
    middleware-refuses api = rw (api, admit-refuses r rl h) (refl, refl)

-- ===== src/Middleware/RateLimit/View.antt =====
-- The map of places against its abstract view: a bucket for each IP, shared with no other IP.
use nexlog_server.Base.{
  ℕ, ◌<◌, ◌-◌, String, ◌≡◌, refl, Option, none, some, inl, inr, Option-cases, arith, ltb, eq_iff,
  if◌then◌else◌, ◌==◌,
}
use nexlog_server.Http.{Request}
use nexlog_server.Int.{ℤ}
use nexlog_server.Middleware.RateLimit.{
  RateLib, RateLimiter, Visitor, new_rate_limiter, cleanup, get_limiter, allow_at, admit, real_ip,
  ten_minutes,
}

-- The bucket that a request meets.
abbrev pub limiter_or_new : (lib : RateLib) → lib.Limit → ℤ → Option (lib.Limiter × ℕ) → lib.Limiter
limiter_or_new lib rps burst none = lib.new_limiter rps burst
limiter_or_new lib rps burst (some (l, t)) = l

-- A bucket unused for more than ten minutes is dropped.
abbrev pub expire {ℓ} : {A : Type ℓ} → ℕ → Option (A × ℕ) → Option (A × ℕ)
expire now none = none
expire now (some (l, t)) = if ltb ten_minutes (now - t) then none else some (l, t)

module _ {lib : RateLib} where
  -- Every visitor's limiter is a place in use, and no two visitors share one.
  pub record IsValid (rl : RateLimiter lib) : Type 0 where
    pub in_use : (ip : String) (v : Visitor) → rl.visitors ip ≡ some v → v.limiter < rl.next
    pub unshared :
        (ip j : String) (v u : Visitor)
        → rl.visitors ip ≡ some v
        → rl.visitors j ≡ some u
        → v.limiter ≡ u.limiter
        → ip ≡ j

  -- The bucket behind an IP, and the time of its last request.
  abbrev pub bucket_of : RateLimiter lib → Option Visitor → Option (lib.Limiter × ℕ)
  bucket_of rl none = none
  bucket_of rl (some v) = some (rl.store v.limiter, v.last_seen)

  abbrev pub view : RateLimiter lib → String → Option (lib.Limiter × ℕ)
  view rl ip = bucket_of rl (rl.visitors ip)

  pub new-IsValid : (per_minute : ℤ) → IsValid (new_rate_limiter {lib = lib} per_minute)
  unfolding new_rate_limiter
  new-IsValid n = record { in_use = λ ip v h. cc; unshared = λ ip j v u h k e. cc }

  pub cleanup-IsValid : (now : ℕ) (rl : RateLimiter lib) → IsValid rl → IsValid (cleanup now rl)
  unfolding cleanup
  cleanup-IsValid now rl ok = record {
    in_use = λ ip v h. ground (arith, ok.in_use ip v);
    unshared = λ ip j v u h k e. ground (arith, ok.unshared ip j v u);
  }

  get_limiter-IsValid :
      (now : ℕ) (ip : String) (rl : RateLimiter lib)
      → IsValid rl
      → IsValid (get_limiter now ip rl).1
  unfolding get_limiter
  get_limiter-IsValid now ip rl ok = elim (Option-cases (rl.visitors ip)) [
    | inl fresh ↦ rw fresh (record {
      in_use = λ i v h. ground (arith, ok.in_use i v);
      unshared = λ i j v u h k e.
          ground
            (arith, ok.unshared i j v u, ok.in_use i v, ok.in_use j u, eq_iff ip i, eq_iff ip j);
    })
    | inr (w, known) ↦ rw known (record {
      in_use = λ i v h. ground (arith, ok.in_use i v, ok.in_use ip w);
      unshared = λ i j v u h k e. ground (
        arith,
        ok.unshared i j v u,
        ok.unshared i ip v w,
        ok.unshared ip j w u,
        eq_iff ip i,
        eq_iff ip j,
      );
    })
  ]

  allow_at-IsValid : (now p : ℕ) (rl : RateLimiter lib) → IsValid rl → IsValid (allow_at now p rl).1
  unfolding allow_at
  allow_at-IsValid now p rl ok = record { in_use = ok.in_use; unshared = ok.unshared }

  pub admit-IsValid : (r : Request) (rl : RateLimiter lib) → IsValid rl → IsValid (admit r rl).1
  unfolding admit
  admit-IsValid r rl ok =
      allow_at-IsValid (r.clock 1) _ _ (get_limiter-IsValid (r.clock 0) (real_ip r) rl ok)

  -- What fetching the place leaves in view: the visitor's bucket, made where there was none.
  view-get_limiter :
      (now : ℕ) (ip j : String) (rl : RateLimiter lib)
      → IsValid rl
      → view (get_limiter now ip rl).1 j ≡ (
          if ip == j
          then some (limiter_or_new lib rl.rps rl.burst (view rl ip), now)
          else view rl j)
  unfolding get_limiter
  view-get_limiter now ip j rl ok = elim (Option-cases (rl.visitors ip)) [
    | inl fresh ↦ elim (Option-cases (rl.visitors j)) [
      | inl no_other ↦ rw fresh (ground (arith, eq_iff ip j))
      | inr (u, other) ↦ rw fresh (ground (arith, eq_iff ip j, ok.in_use j u))
    ]
    | inr (w, known) ↦ rw known (ground (arith, eq_iff ip j))
  ]

  store-get_limiter :
      (now : ℕ) (ip : String) (rl : RateLimiter lib)
      → (get_limiter now ip rl).1.store (get_limiter now ip rl).0
        ≡ limiter_or_new lib rl.rps rl.burst (view rl ip)
  unfolding get_limiter
  store-get_limiter now ip rl = ground arith

  visitors-get_limiter :
      (now : ℕ) (ip : String) (rl : RateLimiter lib)
      → (get_limiter now ip rl).1.visitors ip
        ≡ some (record { limiter = (get_limiter now ip rl).0; last_seen = now })
  unfolding get_limiter
  visitors-get_limiter now ip rl = ground (arith, eq_iff ip ip)

  view-allow_at :
      (now p : ℕ) (ip j : String) (v : Visitor) (rl : RateLimiter lib)
      → IsValid rl
      → rl.visitors ip ≡ some v
      → v.limiter ≡ p
      → view (allow_at now p rl).1 j
        ≡ (if ip == j then some ((lib.allow now (rl.store p)).1, v.last_seen) else view rl j)
  unfolding allow_at
  view-allow_at now p ip j v rl ok known at_p = elim (Option-cases (rl.visitors j)) [
    | inl no_other ↦ ground (arith, eq_iff ip j)
    | inr (u, other) ↦ ground (arith, eq_iff ip j, ok.unshared ip j v u)
  ]

  -- What a request does to the buckets: its own is used once and all others are left alone.
  pub view-admit :
      (r : Request) (j : String) (rl : RateLimiter lib)
      → IsValid rl
      → view (admit r rl).1 j ≡ (
          if real_ip r == j
          then some (
            (lib.allow (r.clock 1) (limiter_or_new lib rl.rps rl.burst (view rl (real_ip r)))).1,
            r.clock 0,
          )
          else view rl j)
  unfolding admit
  view-admit r j rl ok =
      let p = (get_limiter (r.clock 0) (real_ip r) rl).0 in
      let rl' = (get_limiter (r.clock 0) (real_ip r) rl).1 in
      let v : Visitor = record { limiter = p; last_seen = r.clock 0 } in
      rw
        (view-allow_at (r.clock 1) p (real_ip r) j v rl'
          (get_limiter-IsValid (r.clock 0) (real_ip r) rl ok)
          (visitors-get_limiter (r.clock 0) (real_ip r) rl) refl)
        (rw (store-get_limiter (r.clock 0) (real_ip r) rl)
          (ground (arith, view-get_limiter (r.clock 0) (real_ip r) j rl ok)))

  -- The decision is that of the IP's own bucket.
  pub decision-admit :
      (r : Request) (rl : RateLimiter lib)
      → (admit r rl).0
        ≡ (lib.allow (r.clock 1) (limiter_or_new lib rl.rps rl.burst (view rl (real_ip r)))).0
  unfolding admit allow_at
  decision-admit r rl = rw (store-get_limiter (r.clock 0) (real_ip r) rl)

  pub rates-admit :
      (r : Request) (rl : RateLimiter lib)
      → ((admit r rl).1.rps ≡ rl.rps) × ((admit r rl).1.burst ≡ rl.burst)
  unfolding admit allow_at get_limiter
  rates-admit r rl = ground arith

  pub view-cleanup :
      (now : ℕ) (j : String) (rl : RateLimiter lib)
      → view (cleanup now rl) j ≡ expire now (view rl j)
  unfolding cleanup
  view-cleanup now j rl = ground arith

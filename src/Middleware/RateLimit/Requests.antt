-- ===== src/Middleware/RateLimit/Requests.antt =====
-- The limiter after any history of requests and cleanups, for each IP on its own.
use nexlog_server.Base.{
  ℕ, String, ◌≡◌, refl, ◌∙◌, ap, not, List, [], ◌∷◌, Option, none, some, arith, Bool-cases, inl,
  inr, eq_iff, if◌then◌else◌, ◌==◌,
}
use nexlog_server.Int.{ℤ, quotient}
use nexlog_server.Http.{Request, Handler}
use nexlog_server.Text.{has_prefix}
use nexlog_server.Middleware.RateLimit.{
  RateLib, RateLimiter, new_rate_limiter, cleanup, admit, real_ip, middleware, limited,
}
use nexlog_server.Middleware.RateLimit.View.{
  IsValid, view, limiter_or_new, expire, new-IsValid, cleanup-IsValid, admit-IsValid, view-admit,
  decision-admit, rates-admit, view-cleanup,
}

pub data Event : Type 0 where
  request : Request → Event
  tick : ℕ → Event

module _ (lib : RateLib) (per_minute : ℤ) where
  -- The limiter of the server after the events, the latest first.
  pub run : List Event → RateLimiter lib
  run [] = new_rate_limiter per_minute
  run (request r ∷ h) = (admit r (run h)).1
  run (tick now ∷ h) = cleanup now (run h)

  abbrev pub fresh_or : Option (lib.Limiter × ℕ) → lib.Limiter
  fresh_or = limiter_or_new lib (lib.per_second per_minute) (quotient per_minute 4)

  -- The bucket of one IP, from that IP's own requests and the cleanups alone.
  pub bucket : String → List Event → Option (lib.Limiter × ℕ)
  bucket ip [] = none
  bucket ip (request r ∷ h) =
      if real_ip r == ip
      then some ((lib.allow (r.clock 1) (fresh_or (bucket ip h))).1, r.clock 0)
      else bucket ip h
  bucket ip (tick now ∷ h) = expire now (bucket ip h)

  run-IsValid : (h : List Event) → IsValid (run h)
  unfolding run
  run-IsValid [] = new-IsValid per_minute
  run-IsValid (request r ∷ h) = admit-IsValid r (run h) (run-IsValid h)
  run-IsValid (tick now ∷ h) = cleanup-IsValid now (run h) (run-IsValid h)

  rates-run :
      (h : List Event)
      → ((run h).rps ≡ lib.per_second per_minute) × ((run h).burst ≡ quotient per_minute 4)
  unfolding run new_rate_limiter cleanup
  rates-run [] = (refl, refl)
  rates-run (request r ∷ h) =
      let (a, b) = rates-admit r (run h) in let (c, d) = rates-run h in (a ∙ c, b ∙ d)
  rates-run (tick now ∷ h) = rates-run h

  -- After any history, what the limiter holds for an IP is determined by that IP's own requests
  -- and the cleanups.
  pub view-run : (ip : String) (h : List Event) → view (run h) ip ≡ bucket ip h
  unfolding run bucket new_rate_limiter
  view-run ip [] = refl
  view-run ip (request r ∷ h) = rw (view-admit r ip (run h) (run-IsValid h)) (
      rw ((rates-run h).0, (rates-run h).1, view-run (real_ip r) h, view-run ip h)
        (ground (arith, eq_iff (real_ip r) ip)))
  view-run ip (tick now ∷ h) = view-cleanup now ip (run h) ∙ ap (expire now) (view-run ip h)

  decision-run :
      (r : Request) (h : List Event)
      → (admit r (run h)).0 ≡ (lib.allow (r.clock 1) (fresh_or (bucket (real_ip r) h))).0
  decision-run r h =
      decision-admit r (run h) ∙ simp ((rates-run h).0, (rates-run h).1, view-run (real_ip r) h)

  -- After any history of requests and cleanups: a request outside `/api/` is served and the limiter
  -- does not see it; a request to the API is served exactly if the bucket of its IP, as the IP's own
  -- earlier requests and the cleanups left it, allows it, and is answered 429 without running the
  -- wrapped handler otherwise; the limiter then stands as after the history with that request.
  pub middleware-run {ℓ} :
      {W : Type ℓ} (next : Handler W) (r : Request) (h : List Event) (w : W)
      → middleware next r (run h, w) ≡ (
          if not (has_prefix r.path "/api/")
          then ((next r w).0, (run h, (next r w).1))
          else if (lib.allow (r.clock 1) (fresh_or (bucket (real_ip r) h))).0
          then ((next r w).0, (run (request r ∷ h), (next r w).1))
          else (limited, (run (request r ∷ h), w)))
  unfolding middleware run
  middleware-run next r h w = elim (Bool-cases (has_prefix r.path "/api/")) [
    | inl api ↦ elim (Bool-cases (admit r (run h)).0) [
      | inl allowed ↦ rw (api, ← decision-run r h, allowed) refl
      | inr refused ↦ rw (api, ← decision-run r h, refused) refl
    ]
    | inr other ↦ rw other refl
  ]

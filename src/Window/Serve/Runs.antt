-- ===== src/Window/Serve/Runs.antt =====
-- What rateLimitMiddleware lets through, and the code that cmd/server/middleware.go repeats.
use nexlog_server.Base.{
  ℕ, zero, suc, ◌+◌, ◌-◌, ◌≤◌, ◌<◌, String, ◌≡◌, refl, sym, ◌∙◌, ap, subst, Bool, true, false, List,
  [], ◌∷◌, ◌++◌, map, take, drop, All, inl, inr, Bool-cases, leb, arith, if◌then◌else◌, nat_eq,
}
use Prim.Native.Char.{Char, code}
use nexlog_server.Http.{Request, Handler, Action}
use nexlog_server.Text.{split, before, grow, has_prefix}
use nexlog_server.Middleware.Gzip.{GzipLib, gzip}
use nexlog_server.Middleware.RateLimit
use nexlog_server.Window.{WindowLimiter, count_request, allow}
use nexlog_server.Window.Bounds.{entry, entry-allow}
use nexlog_server.Window.Serve.{
  first, real_ip, limited, passed, rate_limit_middleware, gzip_middleware,
}

first-grow : (c : Char) (l : List String) → first (grow c l) ≡ String.◌∷◌ c (first l)
first-grow c [] = refl
first-grow c (s ∷ l) = refl

first-split : (sep : ℕ) (s : String) → first (split sep s) ≡ before sep s
unfolding split before
first-split sep String.[] = refl
first-split sep (String.◌∷◌ c s) = elim (Bool-cases (nat_eq (code c) sep)) [
  | inl here ↦ rw (here, split, before) refl
  | inr further ↦
      rw (further, split, before)
        (first-grow c (split sep s) ∙ ap (λ t. String.◌∷◌ c t) (first-split sep s))
]

-- Both limiters take the same address for that of the client.
pub real_ip-same : (r : Request) → real_ip r ≡ RateLimit.real_ip r
unfolding real_ip RateLimit.real_ip
real_ip-same r = rw (first-split b',') refl

-- Both compress in the same way.
pub gzip_middleware-same {ℓ} :
    {W : Type ℓ} (g : GzipLib) (next : Handler W) (r : Request) (w : W)
    → gzip_middleware g next r w ≡ gzip g next r w
unfolding gzip_middleware gzip
gzip_middleware-same g next r w = refl

module _ {ℓ} {W : Type ℓ} (next : Handler W) where
  -- The answers to the requests, one after the other, and the state after them.
  unfoldable pub serve_all : List Request → WindowLimiter → W → List (List Action) × W
  serve_all [] rl w = ([], w)
  serve_all (r ∷ rs) rl w =
      let (acts, (rl', w')) = rate_limit_middleware next r (rl, w) in
      let (more, last) = serve_all rs rl' w' in (acts ∷ more, last)

  -- The same without a limit.
  unfoldable pub serve_freely : List Request → W → List (List Action) × W
  serve_freely [] w = ([], w)
  serve_freely (r ∷ rs) w =
      let (acts, w') = next r w in
      let (more, last) = serve_freely rs w' in (passed acts ∷ more, last)

  -- The first `n` are served, the others refused.
  abbrev pub first_served : ℕ → List Request → W → List (List Action) × W
  first_served n rs w =
      let (acts, last) = serve_freely (take n rs) w in
      (acts ++ map (λ r. limited) (drop n rs), last)

  -- A request to the API from one address, with its time at most `until`.
  abbrev pub FromIp : String → ℕ → Request → Type 0
  FromIp ip until r = (has_prefix r.path "/api/" ≡ true) × (real_ip r ≡ ip) × (r.clock 0 ≤ until)

  middleware_api :
      (r : Request) (rl : WindowLimiter) (w : W)
      → has_prefix r.path "/api/" ≡ true
      → rate_limit_middleware next r (rl, w) ≡ (
          if (allow (r.clock 0) (real_ip r) rl).0
          then (passed (next r w).0, ((allow (r.clock 0) (real_ip r) rl).1, (next r w).1))
          else (limited, ((allow (r.clock 0) (real_ip r) rl).1, w)))
  unfolding rate_limit_middleware
  middleware_api r rl w api = elim (Bool-cases (allow (r.clock 0) (real_ip r) rl).0) [
    | inl granted ↦ rw (api, granted, rate_limit_middleware) refl
    | inr refused ↦ rw (api, refused, rate_limit_middleware) refl
  ]

  -- Inside a window a request is counted, and served if the count allows it.
  allow_in_window :
      (now : ℕ) (ip : String) (rl : WindowLimiter)
      → now ≤ (entry ip rl).reset_at
      → ((allow now ip rl).0 ≡ leb (suc (entry ip rl).count) rl.max)
        × (entry ip (allow now ip rl).1 ≡ record (entry ip rl) { count = suc (entry ip rl).count })
        × ((allow now ip rl).1.max ≡ rl.max)
  unfolding count_request
  allow_in_window now ip rl early =
      let (same, max_same, window_same, decision) = entry-allow now ip rl in
      (decision ∙ ground arith, same ∙ ground arith, max_same)

  first_served-nil : (n : ℕ) (w : W) → first_served n [] w ≡ ([], w)
  unfolding serve_freely
  first_served-nil zero w = refl
  first_served-nil (suc n) w = refl

  -- An answer, and the answers to the rest.
  abbrev and_rest : List Request → List Action × (WindowLimiter × W) → List (List Action) × W
  and_rest rs (acts, (rl, w)) = (acts ∷ (serve_all rs rl w).0, (serve_all rs rl w).1)

  -- One request of those in a window; `rest` is what is known of the others.
  serve_one :
      (granted : Bool) (r : Request) (rs : List Request) (rl : WindowLimiter) (w : W)
      (max count : ℕ)
      → granted ≡ leb (suc count) max
      → ((w : W) → serve_all rs rl w ≡ first_served (max - suc count) rs w)
      → and_rest rs
          (if granted then (passed (next r w).0, (rl, (next r w).1)) else (limited, (rl, w)))
        ≡ first_served (max - count) (r ∷ rs) w
  unfolding serve_freely
  serve_one true r rs rl w max count is rest =
      let more : max - count ≡ suc (max - suc count) = ground arith in rw (more, rest) refl
  serve_one false r rs rl w max count is rest =
      let none_left : max - count ≡ 0 = ground arith in
      let none_next : max - suc count ≡ 0 = ground arith in rw (none_left, rest, none_next) refl

  -- The same of a request to the API.
  serve_next :
      (r : Request) (rs : List Request) (ip : String) (rl : WindowLimiter) (w : W) (count : ℕ)
      → has_prefix r.path "/api/" ≡ true
      → real_ip r ≡ ip
      → (allow (r.clock 0) ip rl).0 ≡ leb (suc count) rl.max
      → ((w : W)
          → serve_all rs (allow (r.clock 0) ip rl).1 w ≡ first_served (rl.max - suc count) rs w)
      → serve_all (r ∷ rs) rl w ≡ first_served (rl.max - count) (r ∷ rs) w
  unfolding serve_all
  serve_next r rs ip rl w count api from decision rest =
      ap (and_rest rs) (middleware_api r rl w api)
      ∙ (ap
            (λ i. and_rest rs (
              if (allow (r.clock 0) i rl).0
              then (passed (next r w).0, ((allow (r.clock 0) i rl).1, (next r w).1))
              else (limited, ((allow (r.clock 0) i rl).1, w))))
            from
          ∙ serve_one (allow (r.clock 0) ip rl).0 r rs (allow (r.clock 0) ip rl).1 w rl.max count
              decision rest)

  -- The first request after a window opens another.
  allow_over :
      (now : ℕ) (ip : String) (rl : WindowLimiter)
      → (entry ip rl).reset_at < now
      → ((allow now ip rl).0 ≡ leb 1 rl.max)
        × (entry ip (allow now ip rl).1 ≡ record { count = 1; reset_at = now + rl.window })
        × ((allow now ip rl).1.max ≡ rl.max)
  unfolding count_request
  allow_over now ip rl over =
      let (same, max_same, window_same, decision) = entry-allow now ip rl in
      (decision ∙ ground arith, same ∙ ground arith, max_same)

  serve_in_window :
      (rs : List Request) (ip : String) (rl : WindowLimiter) (w : W)
      → All (FromIp ip (entry ip rl).reset_at) rs
      → serve_all rs rl w ≡ first_served (rl.max - (entry ip rl).count) rs w
  unfolding serve_all
  serve_in_window [] ip rl w h = sym (first_served-nil (rl.max - (entry ip rl).count) w)
  serve_in_window (r ∷ rs) ip rl w ((api, from, early), h) =
      let (decision, same, max_same) = allow_in_window (r.clock 0) ip rl early in
      let next_rl = (allow (r.clock 0) ip rl).1 in
      let inside = subst (λ e. All (FromIp ip e.reset_at) rs) (sym same) h in
      let rest : (w : W)
          → serve_all rs next_rl w ≡ first_served (rl.max - suc (entry ip rl).count) rs w =
        λ w.
          serve_in_window rs ip next_rl w inside
          ∙ ap (λ n. first_served n rs w) (omega (arith, max_same, ap (λ e. e.count) same)) in
      serve_next r rs ip rl w (entry ip rl).count api from decision rest

  -- The first request of an address after its window has ended opens another. Of all its requests to
  -- the API until that ends exactly the first `max` are answered by the wrapped handler, and only
  -- those reach it; the others are answered 429.
  pub serve_all_lem :
      (r : Request) (rs : List Request) (ip : String) (rl : WindowLimiter) (w : W)
      → (entry ip rl).reset_at < r.clock 0
      → FromIp ip (r.clock 0) r
      → All (FromIp ip (r.clock 0 + rl.window)) rs
      → serve_all (r ∷ rs) rl w ≡ first_served rl.max (r ∷ rs) w
  serve_all_lem r rs ip rl w over (api, from, now) h =
      let (decision, same, max_same) = allow_over (r.clock 0) ip rl over in
      let next_rl = (allow (r.clock 0) ip rl).1 in
      let inside = subst (λ e. All (FromIp ip e.reset_at) rs) (sym same) h in
      let rest : (w : W) → serve_all rs next_rl w ≡ first_served (rl.max - 1) rs w = λ w.
        serve_in_window rs ip next_rl w inside
        ∙ ap (λ n. first_served n rs w) (omega (arith, max_same, ap (λ e. e.count) same)) in
      serve_next r rs ip rl w 0 api from decision rest
      ∙ ap (λ n. first_served n (r ∷ rs) w) (omega arith)

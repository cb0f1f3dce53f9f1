-- ===== src/Server/Headers.antt =====
-- Which header entries reach the client.
use nexlog_server.Base.{
  String, ◌≡◌, refl, ◌≢◌, Bool-cases, inl, inr, List, [], ◌∷◌, ◌++◌, map, Option, none, some, All,
  true, false, ◌==◌, eq_iff,
}
use nexlog_server.GoMap
use nexlog_server.Http.{
  Request, Action, Handler, Header, set_header, del_header, write_header, write, respond,
  get_header,
}
use nexlog_server.Http.Laws.{header_from, header-respond}
use nexlog_server.Http.Untouched.{Keeps, header_from-Keeps}
use nexlog_server.Text.{contains}
use nexlog_server.Config.{Config}
use nexlog_server.Middleware.Cors.{cors, cors_actions, parse_origins, origin_allowed}
use nexlog_server.Middleware.Security.{security_headers, security_actions}
use nexlog_server.Middleware.Security.Laws.{promised}
use nexlog_server.Middleware.Gzip.{GzipLib, gzip, through, compressed}
use nexlog_server.Handlers.{Packages, App}
use nexlog_server.Handlers.Routes.{Static, mux}
use nexlog_server.Handlers.Routes.Headers.{StaticKeeps, Keeps-mux}
use nexlog_server.Server.{inner}

module _ (k v : String) (g : GzipLib) where
  Keeps-map : (bs : List String) (l : List Action) → Keeps k v l → Keeps k v (map write bs ++ l)
  Keeps-map [] l h = h
  Keeps-map (b ∷ bs) l h = Keeps-map bs l h

  Keeps-close : (bs : List String) → Keeps k v (map write bs)
  Keeps-close [] = tt
  Keeps-close (b ∷ bs) = Keeps-close bs

  Keeps-through : (st : g.State) (l : List Action) → Keeps k v l → Keeps k v (through g st l)
  unfolding through
  Keeps-through st [] h = Keeps-close (g.close st)
  Keeps-through st (set_header j u ∷ l) (same, h) = (same, Keeps-through st l h)
  Keeps-through st (del_header j ∷ l) (ne, h) = (ne, Keeps-through st l h)
  Keeps-through st (write_header c ∷ l) h = Keeps-through st l h
  Keeps-through st (write b ∷ l) h =
      Keeps-map (g.write_to b st).0 _ (Keeps-through (g.write_to b st).1 l h)

  Keeps-compressed :
      (o : Option g.State) (l : List Action)
      → "Content-Encoding" ≢ k
      → "Content-Length" ≢ k
      → Keeps k v l
      → Keeps k v (compressed g o l)
  Keeps-compressed none l encoding length h = h
  Keeps-compressed (some st) l encoding length h =
      ((λ e. absurd (encoding e)), (length, Keeps-through st l h))

  Keeps-gzip :
      {W : Type 0} (next : Handler W) (r : Request) (w : W)
      → "Content-Encoding" ≢ k
      → "Content-Length" ≢ k
      → Keeps k v (next r w).0
      → Keeps k v (gzip g next r w).0
  unfolding gzip
  Keeps-gzip next r w encoding length h =
      elim (Bool-cases (contains (get_header "Accept-Encoding" r.header) "gzip")) [
        | inl accepts ↦ rw (accepts, gzip) (Keeps-compressed g.new_writer_level _ encoding length h)
        | inr plain ↦ rw (plain, gzip) h
      ]

-- Whatever CORS sets first, an entry that the security headers set and no later call touches is
-- there in the end.
header_from-cors :
    (origins : List String) (r : Request) (l : List Action) (k v : String)
    → ((h : Header) → header_from h l k ≡ some v)
    → header_from GoMap.empty (cors_actions origins r ++ l) k ≡ some v
unfolding cors_actions header_from
header_from-cors origins r l k v set =
    elim (Bool-cases (origin_allowed origins (get_header "Origin" r.header))) [
      | inl listed ↦ rw (listed, cors_actions) (set _)
      | inr other ↦ rw (other, cors_actions) (set _)
    ]

apart : (s t : String) → (s == t) ≡ false → s ≢ t
apart s t h e = let same : (s == t) ≡ true = (eq_iff s t).1 e in cc

header_from-security :
    (k v : String) (h : Header) (l : List Action)
    → header_from h security_actions k ≡ some v
    → Keeps k v l
    → header_from h (security_actions ++ l) k ≡ some v
unfolding security_actions header_from
header_from-security k v h l set kept =
    header_from-Keeps k v (header_from h security_actions) l kept set

module _ (g : GzipLib) (pk : Packages) (static : Static) (cfg : Config) (r : Request) (app : App)
    (other : r.method ≢ "OPTIONS") where
  bears :
      (k v : String)
      → ((h : Header) → header_from h security_actions k ≡ some v)
      → "Content-Type" ≢ k
      → "Cache-Control" ≢ k
      → "Content-Encoding" ≢ k
      → "Content-Length" ≢ k
      → ("X-Content-Type-Options" ≡ k → "nosniff" ≡ v)
      → StaticKeeps k v static
      → (respond (inner g pk static cfg r app).0).header k ≡ some v
  unfolding inner cors security_headers
  bears k v set content_type cache_control encoding length nosniff served =
      let routed =
        Keeps-mux pk static cfg.jwt_secret k v content_type cache_control nosniff served r app in
      let zipped = Keeps-gzip k v g (mux pk static cfg.jwt_secret) r app encoding length routed in
      elim (Bool-cases (r.method == "OPTIONS")) [
        | inl options ↦ absurd (other ((eq_iff _ _).0 options))
        | inr served ↦
            rw (header-respond (inner g pk static cfg r app).0, served, cors)
              (header_from-cors (parse_origins cfg.allowed_origins) r _ k v
                λ h. header_from-security k v h _ (set h) zipped)
      ]

  -- Every response of the routes, errors of `Auth` and redirects included, bears the six security
  -- headers behind CORS and gzip, if the request is no preflight request and the file servers keep
  -- to those values.
  pub inner-promised :
      All (λ e. StaticKeeps e.0 e.1 static) promised
      → All (λ e. (respond (inner g pk static cfg r app).0).header e.0 ≡ some e.1) promised
  unfolding security_actions header_from
  inner-promised (s1, (s2, (s3, (s4, (s5, (s6, _)))))) = (
    bears _ _ (λ h. refl) (apart _ _ refl) (apart _ _ refl) (apart _ _ refl) (apart _ _ refl)
        (λ e. refl) s1,
    (
      bears _ _ (λ h. refl) (apart _ _ refl) (apart _ _ refl) (apart _ _ refl) (apart _ _ refl)
          (λ e. absurd (apart _ _ refl e)) s2,
      (
        bears _ _ (λ h. refl) (apart _ _ refl) (apart _ _ refl) (apart _ _ refl) (apart _ _ refl)
            (λ e. absurd (apart _ _ refl e)) s3,
        (
          bears _ _ (λ h. refl) (apart _ _ refl) (apart _ _ refl) (apart _ _ refl) (apart _ _ refl)
              (λ e. absurd (apart _ _ refl e)) s4,
          (
            bears _ _ (λ h. refl) (apart _ _ refl) (apart _ _ refl) (apart _ _ refl)
                (apart _ _ refl) (λ e. absurd (apart _ _ refl e)) s5,
            (
              bears _ _ (λ h. refl) (apart _ _ refl) (apart _ _ refl) (apart _ _ refl)
                  (apart _ _ refl) (λ e. absurd (apart _ _ refl e)) s6,
              tt,
            ),
          ),
        ),
      ),
    ),
  )

-- ===== src/Middleware/Cors/Laws.antt =====
-- Which origins are allowed, and what a preflight request does.
use nexlog_server.Base.{
  String, ◌≡◌, refl, sym, ◌≢◌, ◌∙◌, ap, List, [], ◌∷◌, ◌++◌, Option, none, some, inl, inr,
  Bool-cases, eq_iff, if◌then◌else◌, ◌==◌,
}
use nexlog_server.GoMap
use nexlog_server.Http.{Handler, Request, Action, write_header, respond, get_header}
use nexlog_server.Http.Laws.{header_from, header-respond, first_status, status-respond}
use nexlog_server.Http.Untouched.{Leaves, header_from-Leaves}
use nexlog_server.Middleware.Cors.{parse_origins, origin_allowed, cors_actions, cors}

abbrev pub allow_origin : String
allow_origin = "Access-Control-Allow-Origin"

-- The answer names the request's origin, or no origin.
abbrev pub named : String → Request → Option String
named allowed r =
    let origin = get_header "Origin" r.header in
    if origin_allowed (parse_origins allowed) origin then some origin else none

-- After the calls of `CORS` come others that leave the entry alone.
first_named :
    (allowed : String) (r : Request) (l : List Action)
    → Leaves allow_origin l
    → header_from GoMap.empty (cors_actions (parse_origins allowed) r ++ l) allow_origin
      ≡ named allowed r
unfolding cors_actions header_from
first_named allowed r l ok =
    elim (Bool-cases (origin_allowed (parse_origins allowed) (get_header "Origin" r.header))) [
      | inl listed ↦ rw (listed, cors_actions) (header_from-Leaves allow_origin _ l ok)
      | inr other ↦ rw (other, cors_actions) (header_from-Leaves allow_origin _ l ok)
    ]

first_sends :
    (allowed : String) (r : Request) (l : List Action)
    → first_status (cors_actions (parse_origins allowed) r ++ l) ≡ first_status l
unfolding cors_actions first_status
first_sends allowed r l =
    elim (Bool-cases (origin_allowed (parse_origins allowed) (get_header "Origin" r.header))) [
      | inl listed ↦ rw (listed, cors_actions) refl
      | inr other ↦ rw (other, cors_actions) refl
    ]

module _ {ℓ} {W : Type ℓ} (allowed : String) (next : Handler W) (r : Request) (w : W) where
  cors_preflight :
      r.method ≡ "OPTIONS"
      → cors allowed next r w ≡ (cors_actions (parse_origins allowed) r ++ write_header 204 ∷ [], w)
  unfolding cors
  cors_preflight options = rw ((eq_iff _ _).1 options, cors) refl

  cors_other :
      r.method ≢ "OPTIONS"
      → cors allowed next r w
        ≡ (cors_actions (parse_origins allowed) r ++ (next r w).0, (next r w).1)
  unfolding cors
  cors_other ne = elim (Bool-cases (r.method == "OPTIONS")) [
    | inl options ↦ absurd (ne ((eq_iff _ _).0 options))
    | inr other ↦ rw (other, cors) refl
  ]

  -- A preflight request is answered 204 without running the wrapped handler; the answer names the
  -- request's origin as allowed exactly if no origin is configured, or the origin or `*` is.
  pub cors-preflight :
      r.method ≡ "OPTIONS"
      → ((respond (cors allowed next r w).0).status ≡ 204)
        × ((cors allowed next r w).1 ≡ w)
        × ((respond (cors allowed next r w).0).header allow_origin ≡ named allowed r)
  unfolding first_status
  cors-preflight options = rw (cors_preflight options) (
    status-respond _ ∙ first_sends allowed r (write_header 204 ∷ []),
    refl,
    ap (λ h. h allow_origin) (header-respond _) ∙ first_named allowed r (write_header 204 ∷ []) tt,
  )

  -- Any other request is served by the wrapped handler with its status; if that leaves the entry
  -- alone, the answer names the origin on the same condition.
  pub cors-served :
      r.method ≢ "OPTIONS"
      → Leaves allow_origin (next r w).0
      → ((respond (cors allowed next r w).0).status ≡ (respond (next r w).0).status)
        × ((cors allowed next r w).1 ≡ (next r w).1)
        × ((respond (cors allowed next r w).0).header allow_origin ≡ named allowed r)
  cors-served ne ok = rw (cors_other ne) (
    status-respond _ ∙ (first_sends allowed r (next r w).0 ∙ sym (status-respond _)),
    refl,
    ap (λ h. h allow_origin) (header-respond _) ∙ first_named allowed r (next r w).0 ok,
  )

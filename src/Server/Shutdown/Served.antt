-- ===== src/Server/Shutdown/Served.antt =====
-- What the requests of the process have done.
use nexlog_server.Base.{
  ℕ, suc, ◌+◌, ◌≡◌, refl, sym, ◌∙◌, ap, List, [], ◌∷◌, ◌++◌, true, none, some, arith,
}
use nexlog_server.Sql.{Err}
use nexlog_server.Server.Boot.{Host, Server}
use nexlog_server.Server.Life.{Event, request, clean_limiter, evict_cache, happen, live}
use nexlog_server.Server.Shutdown.{
  Process, announce, serve_returned, announce_pprof, take_signal, make_context, begin_shutdown,
  finish, started,
}
use nexlog_server.Server.Shutdown.Steps.{
  Step, signal, takes, makes, begins, listen, serve_fails, serve_closed, profile, profile_fails,
  accept, answers, answers_late, tick_limiter, tick_cache, pass, drained, expired, pool_closed,
  Reach, here, next,
}

-- How many of the events are requests.
abbrev pub requests_in : List Event → ℕ
requests_in [] = 0
requests_in (request r ∷ events) = suc (requests_in events)
requests_in (clean_limiter now ∷ events) = requests_in events
requests_in (evict_cache now ∷ events) = requests_in events

requests_in-snoc :
    (events : List Event) (e : Event)
    → requests_in (events ++ e ∷ []) ≡ requests_in events + requests_in (e ∷ [])
requests_in-snoc [] e = omega arith
requests_in-snoc (request r ∷ events) e = omega (arith, requests_in-snoc events e)
requests_in-snoc (clean_limiter now ∷ events) e = requests_in-snoc events e
requests_in-snoc (evict_cache now ∷ events) e = requests_in-snoc events e

-- The process is another one with the same server, as many requests were answered, and the pool is
-- open in it only if it was.
abbrev Unserved : {host : Host} → Process host → Process host → Type 0
Unserved p q =
    (q.server ≡ p.server) × (q.answered ≡ p.answered) × (q.pool_open ≡ true → p.pool_open ≡ true)

module _ {host : Host} (p : Process host) where
  announce-server : Unserved p (announce p)
  unfolding announce
  announce-server = ground arith

  announce_pprof-server : Unserved p (announce_pprof p)
  unfolding announce_pprof
  announce_pprof-server = ground arith

  serve_returned-server : (e : Err) → Unserved p (serve_returned e p)
  unfolding serve_returned
  serve_returned-server e = ground arith

  take_signal-server : Unserved p (take_signal p)
  unfolding take_signal
  take_signal-server = (refl, refl, λ kept. kept)

  make_context-server : Unserved p (make_context p)
  unfolding make_context
  make_context-server = ground arith

  begin_shutdown-server : (t d : ℕ) → Unserved p (begin_shutdown t d p)
  unfolding begin_shutdown
  begin_shutdown-server t d = (refl, refl, λ kept. kept)

  finish-server : (t d : ℕ) (e : Err) → Unserved p (finish t d e p)
  unfolding finish
  finish-server t d e = ground arith

module _ {host : Host} (s : Server host) where
  -- The server is as some events have left it, of which as many are requests as were answered.
  pub record Served (p : Process host) : Type 0 where
    pub events : List Event
    pub same : p.server ≡ live host s events
    pub counted : requests_in events ≡ p.answered

  Served-same : (p q : Process host) → Served p → Unserved p q → Served q
  Served-same p q h (server, answered, kept) = record {
    events = h.events;
    same = server ∙ h.same;
    counted = h.counted ∙ sym answered;
  }

  -- As long as the pool is open.
  abbrev pub ServedIfOpen : Process host → Type 0
  ServedIfOpen p = p.pool_open ≡ true → Served p

  open_same : (p q : Process host) → ServedIfOpen p → Unserved p q → ServedIfOpen q
  open_same p q h (server, answered, kept) is_open =
      Served-same p q (h (kept is_open)) (server, answered, kept)

  live-snoc :
      (events : List Event) (e : Event) (s : Server host)
      → live host s (events ++ e ∷ []) ≡ happen host (live host s events) e
  unfolding live
  live-snoc [] e s = refl
  live-snoc (f ∷ events) e s = live-snoc events e (happen host s f)

  Served-happen :
      (p q : Process host) (e : Event)
      → Served p
      → q.server ≡ happen host p.server e
      → q.answered ≡ p.answered + requests_in (e ∷ [])
      → Served q
  Served-happen p q e h server answered = record {
    events = h.events ++ e ∷ [];
    same = server ∙ (ap (λ x. happen host x e) h.same ∙ sym (live-snoc h.events e s));
    counted =
        requests_in-snoc h.events e ∙ (ap (λ n. n + requests_in (e ∷ [])) h.counted ∙ sym answered);
  }

  ServedIfOpen-Step : {p q : Process host} → ServedIfOpen p → Step p q → ServedIfOpen q
  ServedIfOpen-Step {p} h (signal s running) = open_same p _ h (refl, refl, λ kept. kept)
  ServedIfOpen-Step {p} h (takes s waits there) = open_same p _ h (take_signal-server p)
  ServedIfOpen-Step {p} h (makes is) = open_same p _ h (make_context-server p)
  ServedIfOpen-Step {p} h (begins t d is) = open_same p _ h (begin_shutdown-server p t d)
  ServedIfOpen-Step {p} h (listen running starts) = open_same p _ h (announce-server p)
  ServedIfOpen-Step {p} h (serve_fails e running up own) =
      open_same p _ h (serve_returned-server p (some e))
  ServedIfOpen-Step {p} h (serve_closed running closes) =
      open_same p _ h (serve_returned-server p _)
  ServedIfOpen-Step {p} h (profile running starts) = open_same p _ h (announce_pprof-server p)
  ServedIfOpen-Step {p} h (profile_fails running up) = open_same p _ h (refl, refl, λ kept. kept)
  ServedIfOpen-Step {p} h (accept r running up) = open_same p _ h (refl, refl, λ kept. kept)
  ServedIfOpen-Step {p} h (answers before after r running pool there) =
      λ is_open. Served-happen p _ (request r) (h is_open) refl (omega arith)
  ServedIfOpen-Step {p} h (answers_late outcomes before after r running pool there) =
      λ is_open. absurd (let f : ⊥ = cc (pool, is_open) in f)
  ServedIfOpen-Step {p} h (tick_limiter now running) =
      λ is_open. Served-happen p _ (clean_limiter now) (h is_open) refl (omega arith)
  ServedIfOpen-Step {p} h (tick_cache now running) =
      λ is_open. Served-happen p _ (evict_cache now) (h is_open) refl (omega arith)
  ServedIfOpen-Step {p} h (pass n) = open_same p _ h (refl, refl, λ kept. kept)
  ServedIfOpen-Step {p} h (drained t d is empty) = open_same p _ h (finish-server p t d none)
  ServedIfOpen-Step {p} h (expired t d is late) = open_same p _ h (finish-server p t d _)
  ServedIfOpen-Step {p} h (pool_closed t d u is) = open_same p _ h (refl, refl, λ kept. kept)

  pub ServedIfOpen-Reach : (now : ℕ) {p : Process host} → Reach (started s now) p → ServedIfOpen p
  unfolding live
  ServedIfOpen-Reach now here = λ is_open. record { events = []; same = refl; counted = refl }
  ServedIfOpen-Reach now (next reach step) = ServedIfOpen-Step (ServedIfOpen-Reach now reach) step

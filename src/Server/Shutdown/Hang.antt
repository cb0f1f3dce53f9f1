-- ===== src/Server/Shutdown/Hang.antt =====
-- What becomes of the process where ListenAndServe has failed.
use nexlog_server.Base.{
  ℕ, ◌≡◌, ◌≢◌, refl, ap, String, Bool, true, false, Bool-cases, inl, inr, none, some, sym, ◌∙◌,
  arith, eq_iff, ◌==◌,
}
use nexlog_server.Sql.{Db}
use nexlog_server.Migrate.{Schema}
use nexlog_server.Repository.Tables.{Tables}
use nexlog_server.Logger.{HasLogger, info-HasLogger, error-HasLogger}
use nexlog_server.Server.Boot
use nexlog_server.Server.Boot.{Host, Server, boot}
use nexlog_server.Server.Boot.Ready.{boot-IsReady}
use nexlog_server.Server.Shutdown.{
  waiting, listening, stopped, Process, err_server_closed, announce, serve_returned, announce_pprof,
  started,
}
use nexlog_server.Server.Shutdown.Steps.{
  is_over, Step, signal, takes, makes, begins, listen, serve_fails, serve_closed, profile,
  profile_fails, accept, answers, answers_late, tick_limiter, tick_cache, pass, drained, expired,
  pool_closed, Reach, here, next,
}
use nexlog_server.Server.Shutdown.Graceful.{
  Written-announced, at_logged, Inv, Inv-Step, Inv-started,
}

module _ {host : Host} where
  abbrev is_signal : {p q : Process host} → Step p q → Bool
  is_signal (signal s running) = true
  is_signal _ = false

  -- Steps of which none is a signal.
  pub data Quiet (p : Process host) : Process host → Type 0 where
    at_once : Quiet p p
    quietly :
        {q r : Process host} → Quiet p q → (step : Step q r) → is_signal step ≡ false → Quiet p r

  -- Waiting for a signal, with nothing that listens and no request.
  pub record Hangs (p : Process host) : Type 0 where
    pub waits : p.main ≡ waiting
    pub unsignalled : p.quit ≡ none
    pub no_listener : p.serving ≡ stopped
    pub none_accepted : p.accepted ≡ 0

  Hangs-profile : (p : Process host) → Inv p → Hangs p → Hangs (announce_pprof p)
  unfolding announce_pprof
  Hangs-profile p v h =
      at_logged Hangs p _ _ (info-HasLogger _ _ p.log v.logs) λ w logs. ground arith

  Hangs-Step :
      {p q : Process host} → Inv p → Hangs p → (step : Step p q) → is_signal step ≡ false → Hangs q
  Hangs-Step {p} v h (signal s running) quiet = cc
  Hangs-Step {p} v h (takes s waits there) quiet =
      let f : none ≡ some s = sym h.unsignalled ∙ there in cc
  Hangs-Step {p} v h (makes is) quiet = cc h.waits
  Hangs-Step {p} v h (begins t d is) quiet = cc h.waits
  Hangs-Step {p} v h (pool_closed t d u is) quiet = cc h.waits
  Hangs-Step {p} v h (answers_late outcomes before after r running pool there) quiet = ground arith
  Hangs-Step {p} v h (listen running starts) quiet = cc h.no_listener
  Hangs-Step {p} v h (serve_fails e running up own) quiet = cc h.no_listener
  Hangs-Step {p} v h (serve_closed running closes) quiet = cc h.no_listener
  Hangs-Step {p} v h (profile running starts) quiet = Hangs-profile p v h
  Hangs-Step {p} v h (profile_fails running up) quiet = ground arith
  Hangs-Step {p} v h (accept r running up) quiet = cc h.no_listener
  Hangs-Step {p} v h (answers before after r running pool there) quiet = ground arith
  Hangs-Step {p} v h (tick_limiter now running) quiet = ground arith
  Hangs-Step {p} v h (tick_cache now running) quiet = ground arith
  Hangs-Step {p} v h (pass n) quiet = ground arith
  Hangs-Step {p} v h (drained t d is empty) quiet = cc h.waits
  Hangs-Step {p} v h (expired t d is late) quiet = cc h.waits

  Quiet-Hangs : {p q : Process host} → Inv p → Hangs p → Quiet p q → Inv q × Hangs q
  Quiet-Hangs v h at_once = (v, h)
  Quiet-Hangs v h (quietly run step quiet) =
      let (v', h') = Quiet-Hangs v h run in (Inv-Step v' step, Hangs-Step v' h' step quiet)

  announce-listening :
      (s : Server host) (now : ℕ)
      → HasLogger s.log
      → ((announce (started s now)).main ≡ waiting)
        × ((announce (started s now)).serving ≡ listening)
        × ((announce (started s now)).quit ≡ none)
        × ((announce (started s now)).accepted ≡ 0)
  unfolding announce
  announce-listening s now logs =
      at_logged
        (λ q. (q.main ≡ waiting) × (q.serving ≡ listening) × (q.quit ≡ none) × (q.accepted ≡ 0))
        (started s now) _ _ (Written-announced s.config s.log logs)
        λ w logs. (refl, refl, refl, refl)

  -- What the goroutine does with an error of its own.
  fails_Hangs :
      (p : Process host) (e : String)
      → Inv p
      → e ≢ err_server_closed
      → p.main ≡ waiting
      → p.quit ≡ none
      → p.accepted ≡ 0
      → Hangs (serve_returned (some e) p)
  unfolding serve_returned
  fails_Hangs p e v own waits unsignalled new = elim (Bool-cases (e == err_server_closed)) [
    | inl closed ↦ absurd (own ((eq_iff e err_server_closed).0 closed))
    | inr fatal ↦
        rw fatal (at_logged Hangs p _ _ (error-HasLogger _ _ p.log v.logs) λ w logs. ground arith)
  ]

  -- Where ListenAndServe fails, as on a port that is taken, the process goes on: whatever happens
  -- then and for however long, as long as no signal comes `main` does not return, nothing listens and
  -- no request is ever accepted.
  pub Quiet-serve_returned :
      (db : Db (Schema Tables)) (s : Server host) (now : ℕ) (e : String) (q : Process host)
      → (boot host db).0 ≡ Boot.listening s
      → e ≢ err_server_closed
      → Quiet (serve_returned (some e) (announce (started s now))) q
      → Reach (started s now) (serve_returned (some e) (announce (started s now))) × Hangs q
  Quiet-serve_returned db s now e q listens own quiet =
      let logs = (boot-IsReady host db s listens).logs in
      let start : Step (started s now) (announce (started s now)) = listen refl refl in
      let (waits, up, unsignalled, new) = announce-listening s now logs in
      let v = Inv-Step (Inv-started s now logs) start in
      let fails : Step (announce (started s now)) _ = serve_fails e (ap is_over waits) up own in
      (
        next (next here start) fails,
        (Quiet-Hangs (Inv-Step v fails) (fails_Hangs _ e v own waits unsignalled new) quiet).1,
      )

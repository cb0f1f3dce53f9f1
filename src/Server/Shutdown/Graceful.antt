-- ===== src/Server/Shutdown/Graceful.antt =====
-- How the process ends.
use nexlog_server.Base.{
  ℕ, String, suc, ◌+◌, ◌≤◌, ◌<◌, ◌≡◌, refl, sym, subst, ap, ◌⊎◌, inl, inr, Bool, true, false, List,
  [], ◌∷◌, ◌++◌, Option, none, some, Bool-cases, ◌∙◌, ◌==◌, length, length-append, arith,
}
use nexlog_server.Logger.{Log, HasLogger, info-HasLogger, error-HasLogger}
use nexlog_server.Sql.{Err}
use nexlog_server.Config.{Config}
use nexlog_server.Http.{Request}
use nexlog_server.Repository.Tables.{Tables}
use nexlog_server.Server.Boot
use nexlog_server.Server.Boot.{Host, Server}
use nexlog_server.Server.Shutdown.{
  Signal, Main, waiting, told, timed, shutting, closing_pool, panicked, ended, Serving, listening,
  stopped, Process, err_server_closed, announce, serve_returned, announce_pprof, take_signal,
  make_context, begin_shutdown, finish, logged, started, and_info, announced, shutdown_error,
}
use nexlog_server.Server.Shutdown.Steps.{
  is_over, deliver, Step, signal, takes, makes, begins, listen, serve_fails, serve_closed, profile,
  profile_fails, accept, answers, answers_late, tick_limiter, tick_cache, pass, drained, expired,
  pool_closed, Reach, here, next,
}

abbrev pub is_listening : Serving → Bool
is_listening listening = true
is_listening _ = false

-- A line was written, and there is a logger still.
abbrev pub Written : Option Log → Type 0
Written o = (w : Log) × (o ≡ some w) × HasLogger w

pub Written-and_info :
    (message : String) (args : List String) (o : Option Log)
    → Written o
    → Written (and_info message args o)
Written-and_info message args o (w, is, logs) =
    subst (λ x. Written (and_info message args x)) (sym is) (info-HasLogger message args w logs)

pub Written-announced : (cfg : Config) (log : Log) → HasLogger log → Written (announced cfg log)
Written-announced cfg log logs =
    Written-and_info _ _ _ (Written-and_info _ _ _ (info-HasLogger _ _ log logs))

pub Written-shutdown_error :
    (err : Err) (log : Log) → HasLogger log → Written (shutdown_error err log)
Written-shutdown_error none log logs = (log, refl, logs)
Written-shutdown_error (some e) log logs = error-HasLogger _ _ log logs

module _ {host : Host} where
  -- After Shutdown has returned, at `u`.
  abbrev Drained : ℕ → ℕ → ℕ → Process host → Type 0
  Drained t d u p =
      (p.pool_open ≡ false)
      × (is_listening p.serving ≡ false)
      × (d ≡ t + 15_000_000_000)
      × (t ≤ u)
      × (u ≤ p.clock)
      × ((p.active ≡ []) ⊎ (d ≤ u))
      × (0 < p.signals)

  -- What holds at each place of `main`, which never panics.
  abbrev pub Orderly : Main → Process host → Type 0
  Orderly waiting p = (p.pool_open ≡ true) × (p.quit ≡ none → p.signals ≡ 0)
  Orderly panicked p = ⊥
  Orderly told p = (p.pool_open ≡ true) × (0 < p.signals)
  Orderly (timed t d) p =
      (p.pool_open ≡ true) × (d ≡ t + 15_000_000_000) × (t ≤ p.clock) × (0 < p.signals)
  Orderly (shutting t d) p =
      (p.pool_open ≡ true)
      × (is_listening p.serving ≡ false)
      × (d ≡ t + 15_000_000_000)
      × (t ≤ p.clock)
      × (0 < p.signals)
  Orderly (closing_pool t d u) p = Drained t d u p
  Orderly (ended t d u) p = Drained t d u p

  pub record Inv (p : Process host) : Type 0 where
    pub logs : HasLogger p.log
    pub accounts : p.accepted ≡ p.answered + length p.active
    pub sent : (s : Signal) → p.quit ≡ some s → 0 < p.signals
    pub at_main : Orderly p.main p

  Inv-signal :
      (p : Process host) (s : Signal)
      → Inv p
      → is_over p.main ≡ false
      → Inv (record p { quit = deliver s p.quit; signals = suc p.signals })
  Inv-signal p s h running = ground arith

  Inv-accept :
      (p : Process host) (r : Request)
      → Inv p
      → is_over p.main ≡ false
      → p.serving ≡ listening
      → Inv (record p { active = r ∷ p.active; accepted = suc p.accepted })
  Inv-accept p r h running up = ground arith

  Inv-pass : (p : Process host) (n : ℕ) → Inv p → Inv (record p { clock = p.clock + n })
  Inv-pass p n h = ground arith

  -- A line of the log does not panic.
  pub at_logged :
      (P : Process host → Type 0) (p : Process host) (o : Option Log)
      (rest : Process host → Process host)
      → Written o
      → ((w : Log) → HasLogger w → P (rest (record p { log = w })))
      → P (logged o rest p)
  at_logged P p o rest (w, is, logs) k = subst (λ x. P (logged x rest p)) (sym is) (k w logs)

  Inv-announce : (p : Process host) → Inv p → is_over p.main ≡ false → Inv (announce p)
  unfolding announce
  Inv-announce p h running =
      at_logged Inv p _ _ (Written-announced p.server.config p.log h.logs) λ w logs. ground arith

  Inv-announce_pprof : (p : Process host) → Inv p → Inv (announce_pprof p)
  unfolding announce_pprof
  Inv-announce_pprof p h =
      at_logged Inv p _ _ (info-HasLogger _ _ p.log h.logs) λ w logs. ground arith

  Inv-stop : (p : Process host) → Inv p → Inv (record p { serving = stopped })
  Inv-stop p h = ground arith

  Inv-serve_returned : (p : Process host) (e : Err) → Inv p → Inv (serve_returned e p)
  unfolding serve_returned
  Inv-serve_returned p none h = Inv-stop p h
  Inv-serve_returned p (some e) h = elim (Bool-cases (e == err_server_closed)) [
    | inl closed ↦ rw closed (Inv-stop p h)
    | inr fatal ↦
        rw fatal (at_logged Inv p _ _ (error-HasLogger _ _ p.log h.logs) λ w logs. ground arith)
  ]

  Inv-take_signal :
      (p : Process host) (s : Signal)
      → Inv p
      → p.main ≡ waiting
      → p.quit ≡ some s
      → Inv (take_signal p)
  unfolding take_signal
  Inv-take_signal p s h waits there = let sent = h.sent s there in ground arith

  Inv-make_context : (p : Process host) → Inv p → p.main ≡ told → Inv (make_context p)
  unfolding make_context
  Inv-make_context p h is =
      at_logged Inv p _ _ (info-HasLogger _ _ p.log h.logs) λ w logs. ground arith

  Inv-begin_shutdown :
      (p : Process host) (t d : ℕ) → Inv p → p.main ≡ timed t d → Inv (begin_shutdown t d p)
  unfolding begin_shutdown
  Inv-begin_shutdown p t d h is = ground arith

  Inv-finish :
      (p : Process host) (t d : ℕ) (err : Err)
      → Inv p
      → p.main ≡ shutting t d
      → (p.active ≡ []) ⊎ (d ≤ p.clock)
      → Inv (finish t d err p)
  unfolding finish
  Inv-finish p t d err h is done =
      at_logged Inv p _ _ (Written-and_info _ _ _ (Written-shutdown_error err p.log h.logs))
        λ w logs. ground arith

  Inv-pool_closed :
      (p : Process host) (t d u : ℕ)
      → Inv p
      → p.main ≡ closing_pool t d u
      → Inv (record p { main = ended t d u })
  Inv-pool_closed p t d u h is = ground arith

  Inv-answers :
      (p : Process host) (s : Server host) (before after : List Request) (r : Request)
      → Inv p
      → is_over p.main ≡ false
      → p.active ≡ before ++ r ∷ after
      → Inv (record p { server = s; active = before ++ after; answered = suc p.answered })
  Inv-answers p s before after r h running there =
      let size : length p.active ≡ length before + suc (length after) =
        ap length there ∙ length-append before (r ∷ after) in
      ground (arith, length-append before after)

  Inv-server : (p : Process host) (s : Server host) → Inv p → Inv (record p { server = s })
  Inv-server p s h = ground arith

  Inv-profile_fails : (p : Process host) → Inv p → Inv (record p { pprof = stopped })
  Inv-profile_fails p h = ground arith

  pub Inv-Step : {p q : Process host} → Inv p → Step p q → Inv q
  Inv-Step {p} h (signal s running) = Inv-signal p s h running
  Inv-Step {p} h (takes s waits there) = Inv-take_signal p s h waits there
  Inv-Step {p} h (makes is) = Inv-make_context p h is
  Inv-Step {p} h (begins t d is) = Inv-begin_shutdown p t d h is
  Inv-Step {p} h (listen running starts) = Inv-announce p h running
  Inv-Step {p} h (serve_fails e running up own) = Inv-serve_returned p (some e) h
  Inv-Step {p} h (serve_closed running closes) = Inv-serve_returned p _ h
  Inv-Step {p} h (profile running starts) = Inv-announce_pprof p h
  Inv-Step {p} h (profile_fails running up) = Inv-profile_fails p h
  Inv-Step {p} h (accept r running up) = Inv-accept p r h running up
  Inv-Step {p} h (answers before after r running pool there) =
      Inv-answers p _ before after r h running there
  Inv-Step {p} h (answers_late outcomes before after r running pool there) =
      Inv-answers p _ before after r h running there
  Inv-Step {p} h (tick_limiter now running) = Inv-server p _ h
  Inv-Step {p} h (tick_cache now running) = Inv-server p _ h
  Inv-Step {p} h (pass n) = Inv-pass p n h
  Inv-Step {p} h (drained t d is empty) = Inv-finish p t d none h is (inl empty)
  Inv-Step {p} h (expired t d is late) = Inv-finish p t d _ h is (inr late)
  Inv-Step {p} h (pool_closed t d u is) = Inv-pool_closed p t d u h is

  pub Inv-started : (s : Server host) (now : ℕ) → HasLogger s.log → Inv (started s now)
  Inv-started s now logs = record {
    logs = logs;
    accounts = refl;
    sent = λ s none_yet. cc;
    at_main = (refl, λ none_yet. refl);
  }

  pub Inv-Reach : {p q : Process host} → Inv p → Reach p q → Inv q
  Inv-Reach h here = h
  Inv-Reach h (next reach step) = Inv-Step (Inv-Reach h reach) step

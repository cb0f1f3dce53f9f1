-- ===== src/Server/Shutdown/Ends.antt =====
-- That the process can be stopped.
use nexlog_server.Base.{
  ℕ, suc, ◌+◌, ◌-◌, ◌≤◌, ◌<◌, ◌≡◌, refl, sym, ◌∙◌, subst, false, some, inl, inr, Option-cases,
  arith,
}
use nexlog_server.Sql.{Db, Err}
use nexlog_server.Migrate.{Schema}
use nexlog_server.Repository.Tables.{Tables}
use nexlog_server.Logger.{info-HasLogger}
use nexlog_server.Server.Boot
use nexlog_server.Server.Boot.{Host, Server, boot}
use nexlog_server.Server.Boot.Ready.{boot-IsReady}
use nexlog_server.Server.Shutdown.{
  Signal, Main, waiting, told, timed, shutting, closing_pool, panicked, ended, Process, limit,
  take_signal, make_context, begin_shutdown, finish, started,
}
use nexlog_server.Server.Shutdown.Steps.{
  is_over, deliver, Step, signal, takes, makes, begins, pass, expired, pool_closed, Reach, here,
  next,
}
use nexlog_server.Server.Shutdown.Graceful.{
  Orderly, Written-and_info, Written-shutdown_error, at_logged, Inv, Inv-Step, Inv-started,
  Inv-Reach,
}

module _ {host : Host} where
  -- The second is the first with nothing accepted or answered, and no signal.
  abbrev Same : Process host → Process host → Type 0
  Same p q = (q.accepted ≡ p.accepted) × (q.answered ≡ p.answered) × (q.signals ≡ p.signals)

  -- `main` can return from the place by that time, without a signal and with the requests as they are.
  abbrev pub EndsBy : ℕ → Process host → Type 0
  EndsBy last p =
      (q : Process host) × (t : ℕ) × (d : ℕ) × (u : ℕ) × Reach p q
      × (q.main ≡ ended t d u)
      × (q.clock ≤ last)
      × Same p q

  finish-closing :
      (p : Process host) (t d : ℕ) (e : Err)
      → Inv p
      → ((finish t d e p).main ≡ closing_pool t d p.clock)
        × ((finish t d e p).clock ≡ p.clock)
        × Same p (finish t d e p)
  unfolding finish
  finish-closing p t d e h =
      at_logged (λ q. (q.main ≡ closing_pool t d p.clock) × (q.clock ≡ p.clock) × Same p q) p _ _
        (Written-and_info _ _ _ (Written-shutdown_error e p.log h.logs))
        λ w logs. (refl, refl, (refl, refl, refl))

  make_context-timed :
      (p : Process host)
      → Inv p
      → ((make_context p).main ≡ timed p.clock (p.clock + limit))
        × ((make_context p).clock ≡ p.clock)
        × Same p (make_context p)
  unfolding make_context
  make_context-timed p h =
      at_logged (λ q. (q.main ≡ timed p.clock (p.clock + limit)) × (q.clock ≡ p.clock) × Same p q) p
        _ _ (info-HasLogger _ _ p.log h.logs) λ w logs. (refl, refl, (refl, refl, refl))

  Reach-trans : {p q r : Process host} → Reach p q → Reach q r → Reach p r
  Reach-trans first here = first
  Reach-trans first (next second step) = next (Reach-trans first second) step

  -- One step more before.
  EndsBy-after :
      (last : ℕ) {p q : Process host} → Step p q → Same p q → EndsBy last q → EndsBy last p
  EndsBy-after last step (accepted, answered, signals)
        (q, t, d, u, reach, is, early, (accepted', answered', signals')) =
      (
        q,
        t,
        d,
        u,
        Reach-trans (next here step) reach,
        is,
        early,
        (accepted' ∙ accepted, answered' ∙ answered, signals' ∙ signals),
      )

  EndsBy-closing :
      (last : ℕ) (p : Process host) (t d u : ℕ)
      → p.main ≡ closing_pool t d u
      → p.clock ≤ last
      → EndsBy last p
  EndsBy-closing last p t d u is early = (
    record p { main = ended t d u },
    t,
    d,
    u,
    next here (pool_closed t d u is),
    refl,
    early,
    (refl, refl, refl),
  )

  -- Past the deadline.
  EndsBy-late :
      (last : ℕ) (p : Process host) (t d : ℕ)
      → Inv p
      → p.main ≡ shutting t d
      → d ≤ p.clock
      → p.clock ≤ last
      → EndsBy last p
  EndsBy-late last p t d h is late early =
      let (closing, at, same) = finish-closing p t d (some "context deadline exceeded") h in
      EndsBy-after last (expired t d is late) same
        (EndsBy-closing last _ t d p.clock closing (subst (λ c. c ≤ last) (sym at) early))

  EndsBy-shutting :
      (last : ℕ) (p : Process host) (t d : ℕ)
      → Inv p
      → p.main ≡ shutting t d
      → p.clock ≤ last
      → d ≤ last
      → EndsBy last p
  EndsBy-shutting last p t d h is early due =
      let wait : Step p (record p { clock = p.clock + (d - p.clock) }) = pass (d - p.clock) in
      EndsBy-after last wait (refl, refl, refl)
        (EndsBy-late last _ t d (Inv-Step h wait) is (omega arith) (omega arith))

  EndsBy-timed :
      (last : ℕ) (p : Process host) (t d : ℕ)
      → Inv p
      → p.main ≡ timed t d
      → p.clock ≤ last
      → d ≤ last
      → EndsBy last p
  unfolding begin_shutdown
  EndsBy-timed last p t d h is early due =
      let step : Step p (begin_shutdown t d p) = begins t d is in
      EndsBy-after last step (refl, refl, refl)
        (EndsBy-shutting last _ t d (Inv-Step h step) refl early due)

  EndsBy-told : (p : Process host) → Inv p → p.main ≡ told → EndsBy (p.clock + 15_000_000_000) p
  EndsBy-told p h is =
      let step : Step p (make_context p) = makes is in
      let (timed_now, at, same) = make_context-timed p h in
      EndsBy-after _ step same (
        EndsBy-timed _ _ p.clock (p.clock + limit) (Inv-Step h step) timed_now
          (subst (λ c. c ≤ p.clock + 15_000_000_000) (sym at) (omega arith)) (omega arith))

  EndsBy-signalled :
      (p : Process host) (s : Signal)
      → Inv p
      → p.main ≡ waiting
      → p.quit ≡ some s
      → EndsBy (p.clock + 15_000_000_000) p
  unfolding take_signal
  EndsBy-signalled p s h waits there =
      let step : Step p (take_signal p) = takes s waits there in
      EndsBy-after _ step (refl, refl, refl) (EndsBy-told _ (Inv-Step h step) refl)

  -- Where a signal has come.
  EndsBy-main :
      (p : Process host) (m : Main)
      → Inv p
      → p.main ≡ m
      → is_over p.main ≡ false
      → 0 < p.signals
      → EndsBy (p.clock + 15_000_000_000) p
  EndsBy-main p panicked h is running come = absurd (let f : ⊥ = ground arith in f)
  EndsBy-main p (ended t d u) h is running come = absurd (let f : ⊥ = ground arith in f)
  EndsBy-main p (closing_pool t d u) h is running come = EndsBy-closing _ p t d u is (omega arith)
  EndsBy-main p (shutting t d) h is running come =
      let (pool, shut, due, after, sent) = subst (λ m. Orderly m p) is h.at_main in
      EndsBy-shutting _ p t d h is (omega arith) (omega arith)
  EndsBy-main p (timed t d) h is running come =
      let (pool, due, after, sent) = subst (λ m. Orderly m p) is h.at_main in
      EndsBy-timed _ p t d h is (omega arith) (omega arith)
  EndsBy-main p told h is running come = EndsBy-told p h is
  EndsBy-main p waiting h is running come = elim (Option-cases p.quit) [
    | inl nothing ↦
        let (pool, unheard) = subst (λ m. Orderly m p) is h.at_main in
        absurd (let f : ⊥ = omega (arith, unheard nothing) in f)
    | inr (s, there) ↦ EndsBy-signalled p s h is there
  ]

  -- The process can be stopped from wherever it has come to after its boot, although no request that
  -- is under way is ever answered: where a signal has come, `main` can return at most 15 seconds
  -- later without another one; and where none has come it can, once one comes. That the queries which
  -- had started end is part of such a run, since db.Close waits for them.
  pub Reach-CanEnd :
      (db : Db (Schema Tables)) (s : Server host) (now : ℕ) (p : Process host) (sig : Signal)
      → (boot host db).0 ≡ Boot.listening s
      → Reach (started s now) p
      → is_over p.main ≡ false
      → (0 < p.signals → EndsBy (p.clock + 15_000_000_000) p)
        × EndsBy
            (p.clock + 15_000_000_000)
            (record p { quit = deliver sig p.quit; signals = suc p.signals })
  Reach-CanEnd db s now p sig listens reach running =
      let v = Inv-Reach (Inv-started s now (boot-IsReady host db s listens).logs) reach in
      let sent : Step p (record p { quit = deliver sig p.quit; signals = suc p.signals }) =
        signal sig running in
      (
        EndsBy-main p p.main v refl running,
        EndsBy-main _ p.main (Inv-Step v sent) refl running (omega arith),
      )

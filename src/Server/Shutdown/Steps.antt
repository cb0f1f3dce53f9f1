-- ===== src/Server/Shutdown/Steps.antt =====
-- The steps of the process: one that the code makes, or one that the kernel and net/http make as they
-- are documented. ListenAndServe returns an error of its own, or ErrServerClosed once Shutdown has
-- begun; Shutdown closes the listener and returns when no request is left, or with the context's
-- error at its deadline or later. db.Close returns when the queries that had started have ended. A
-- request runs as a whole when it is answered; where that is after db.Close began, its calls of the
-- database may come to anything.
use nexlog_server.Base.{
  ℕ, suc, ◌+◌, ◌≤◌, String, ◌≡◌, ◌≢◌, Bool, true, false, List, [], ◌∷◌, ◌++◌, Option, none, some,
}
use nexlog_server.Http.{Request}
use nexlog_server.Sql.{Outcome}
use nexlog_server.Server.Boot.{Host, Server}
use nexlog_server.Server.Life.{request, clean_limiter, evict_cache, happen}
use nexlog_server.Server.Shutdown.{
  Signal, Main, waiting, told, timed, shutting, closing_pool, panicked, ended, starting, listening,
  closing, stopped, Process, err_server_closed, announce, serve_returned, announce_pprof,
  take_signal, make_context, begin_shutdown, finish,
}

abbrev pub is_over : Main → Bool
is_over waiting = false
is_over told = false
is_over (timed t d) = false
is_over (shutting t d) = false
is_over (closing_pool t d u) = false
is_over panicked = true
is_over (ended t d u) = true

-- A signal for which there is no room in the channel is dropped.
abbrev pub deliver : Signal → Option Signal → Option Signal
deliver s none = some s
deliver s (some earlier) = some earlier

module _ {host : Host} where
  -- The database with other outcomes to come.
  abbrev pub with_outcomes : List Outcome → Server host → Server host
  with_outcomes outcomes s = record s {
    app = record s.app { db = record s.app.db { outcomes = outcomes } };
  }

  abbrev answer : Request → List Request → Process host → Process host
  answer r rest p = record p {
    server = happen host p.server (request r);
    active = rest;
    answered = suc p.answered;
  }

  pub data Step (p : Process host) : Process host → Type 0 where
    signal :
        (s : Signal)
        → is_over p.main ≡ false
        → Step p (record p { quit = deliver s p.quit; signals = suc p.signals })
    takes : (s : Signal) → p.main ≡ waiting → p.quit ≡ some s → Step p (take_signal p)
    makes : p.main ≡ told → Step p (make_context p)
    begins : (t d : ℕ) → p.main ≡ timed t d → Step p (begin_shutdown t d p)
    listen : is_over p.main ≡ false → p.serving ≡ starting → Step p (announce p)
    serve_fails :
        (e : String)
        → is_over p.main ≡ false
        → p.serving ≡ listening
        → e ≢ err_server_closed
        → Step p (serve_returned (some e) p)
    serve_closed :
        is_over p.main ≡ false
        → p.serving ≡ closing
        → Step p (serve_returned (some err_server_closed) p)
    profile : is_over p.main ≡ false → p.pprof ≡ starting → Step p (announce_pprof p)
    profile_fails :
        is_over p.main ≡ false → p.pprof ≡ listening → Step p (record p { pprof = stopped })
    accept :
        (r : Request)
        → is_over p.main ≡ false
        → p.serving ≡ listening
        → Step p (record p { active = r ∷ p.active; accepted = suc p.accepted })
    answers :
        (before after : List Request) (r : Request)
        → is_over p.main ≡ false
        → p.pool_open ≡ true
        → p.active ≡ before ++ r ∷ after
        → Step p (answer r (before ++ after) p)
    answers_late :
        (outcomes : List Outcome) (before after : List Request) (r : Request)
        → is_over p.main ≡ false
        → p.pool_open ≡ false
        → p.active ≡ before ++ r ∷ after
        → Step p
            (answer r (before ++ after) (record p { server = with_outcomes outcomes p.server }))
    tick_limiter :
        (now : ℕ)
        → is_over p.main ≡ false
        → Step p (record p { server = happen host p.server (clean_limiter now) })
    tick_cache :
        (now : ℕ)
        → is_over p.main ≡ false
        → Step p (record p { server = happen host p.server (evict_cache now) })
    pass : (n : ℕ) → Step p (record p { clock = p.clock + n })
    drained : (t d : ℕ) → p.main ≡ shutting t d → p.active ≡ [] → Step p (finish t d none p)
    expired :
        (t d : ℕ)
        → p.main ≡ shutting t d
        → d ≤ p.clock
        → Step p (finish t d (some "context deadline exceeded") p)
    pool_closed :
        (t d u : ℕ) → p.main ≡ closing_pool t d u → Step p (record p { main = ended t d u })

  pub data Reach (p : Process host) : Process host → Type 0 where
    here : Reach p p
    next : {q r : Process host} → Reach p q → Step q r → Reach p r

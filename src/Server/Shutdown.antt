-- ===== src/Server/Shutdown.antt =====
-- cmd/server/main.go: the process from signal.Notify on, where `main` waits for a signal, a goroutine
-- listens, another one serves the profiler, and requests run: its state, and what the code does.
pub mod Steps
pub mod Served
pub mod Graceful
pub mod Ends
pub mod Hang
mod Tests
use nexlog_server.Base.{
  ℕ, suc, ◌+◌, ◌≤◌, String, ◌≡◌, ◌≢◌, Bool, true, false, List, [], ◌∷◌, ◌++◌, Option, none, some,
  if◌then◌else◌, ◌==◌,
}
use Prim.Native.String
use nexlog_server.Config.{Config}
use nexlog_server.Http.{Request}
use nexlog_server.Logger
use nexlog_server.Logger.{Log}
use nexlog_server.Sql.{Err}
use nexlog_server.Server.Boot.{Host, Server}
use nexlog_server.Server.Life.{request, clean_limiter, evict_cache, happen}

pub data Signal : Type 0 where
  sigint sigterm : Signal

-- Where `main` is: at `<-quit`; past it; with the context, made at the first time and with the second
-- as its deadline; in Shutdown with the listener closed; in the deferred db.Close, Shutdown having
-- returned at the third time; and returned.
pub data Main : Type 0 where
  waiting panicked told : Main
  timed shutting : ℕ → ℕ → Main
  closing_pool ended : ℕ → ℕ → ℕ → Main

-- Where a goroutine with ListenAndServe is; `closing`: it is about to return ErrServerClosed.
pub data Serving : Type 0 where
  starting listening closing stopped : Serving

pub record Process (host : Host) : Type 0 where
  pub server : Server host
  pub log : Log
  pub clock : ℕ
  -- the channel, which holds one signal
  pub quit : Option Signal
  pub main : Main
  pub serving : Serving
  pub pprof : Serving
  -- the requests that are accepted and not answered
  pub active : List Request
  pub pool_open : Bool
  -- how many signals came, and how many requests were accepted and answered
  pub signals : ℕ
  pub accepted : ℕ
  pub answered : ℕ

-- 15*time.Second
abbrev pub limit : ℕ
limit = 15_000_000_000

abbrev pub err_server_closed : String
err_server_closed = "http: Server closed"

-- The goroutine before ListenAndServe, which returns at once where Shutdown has begun.
abbrev start_listening : Main → Serving
start_listening waiting = listening
start_listening told = listening
start_listening (timed t d) = listening
start_listening _ = closing

abbrev env_name : Bool → String
env_name is_dev = if is_dev then "development" else "production"

abbrev pub and_info : String → List String → Option Log → Option Log
and_info message args none = none
and_info message args (some log) = Logger.info message args log

abbrev pub announced : Config → Log → Option Log
announced cfg log = and_info "🔑 Default password: password  ← change immediately!" [] (
    and_info "🔧 Admin panel"
      ("url" ∷ String.◌++◌ "http://localhost:" (String.◌++◌ cfg.port "/admin") ∷ [])
      (Logger.info "✅ NexLog server started" ("port" ∷ cfg.port ∷ "env" ∷ env_name cfg.is_dev ∷ [])
        log))

abbrev close : Serving → Serving
close listening = closing
close s = s

abbrev pub shutdown_error : Err → Log → Option Log
shutdown_error none log = some log
shutdown_error (some e) log = Logger.error "Shutdown error" ("err" ∷ e ∷ []) log

module _ {host : Host} where
  -- What follows a line of the log; the panic of any goroutine ends the process.
  abbrev pub logged : Option Log → (Process host → Process host) → Process host → Process host
  logged none rest p = record p { main = panicked }
  logged (some log) rest p = rest (record p { log = log })

  unfoldable pub announce : Process host → Process host
  announce p =
      logged (announced p.server.config p.log) (λ q. record q { serving = start_listening q.main })
        p

  abbrev stop_serving : Process host → Process host
  stop_serving p = record p { serving = stopped }

  -- What ListenAndServe returned.
  unfoldable pub serve_returned : Err → Process host → Process host
  serve_returned none p = stop_serving p
  serve_returned (some e) p =
      if e == err_server_closed
      then stop_serving p
      else logged (Logger.error "Server fatal error" ("err" ∷ e ∷ []) p.log) stop_serving p

  -- The goroutine of the profiler; what its ListenAndServe returns is dropped.
  unfoldable pub announce_pprof : Process host → Process host
  announce_pprof p =
      logged (Logger.info "🔬 pprof listening on :6060" [] p.log)
        (λ q. record q { pprof = listening }) p

  -- `<-quit`
  unfoldable pub take_signal : Process host → Process host
  take_signal p = record p { quit = none; main = told }

  -- The line, and context.WithTimeout
  unfoldable pub make_context : Process host → Process host
  make_context p =
      logged (Logger.info "🛑 Graceful shutdown..." [] p.log)
        (λ q. record q { main = timed q.clock (q.clock + limit) }) p

  -- Shutdown closes the listener before it waits.
  unfoldable pub begin_shutdown : ℕ → ℕ → Process host → Process host
  begin_shutdown t d p = record p { main = shutting t d; serving = close p.serving }

  -- What follows Shutdown, into the deferred db.Close, from which on no query starts.
  unfoldable pub finish : ℕ → ℕ → Err → Process host → Process host
  finish t d err p =
      logged (and_info "👋 Server stopped" [] (shutdown_error err p.log))
        (λ q. record q { main = closing_pool t d q.clock; pool_open = false }) p

  -- The process when `main` has come to `<-quit`.
  abbrev pub started : Server host → ℕ → Process host
  started s now = record {
    server = s;
    log = s.log;
    clock = now;
    quit = none;
    main = waiting;
    serving = starting;
    pprof = elim s.pprof [ none ↦ stopped | some addr ↦ starting ];
    active = [];
    pool_open = true;
    signals = 0;
    accepted = 0;
    answered = 0;
  }

-- ===== src/Logger.antt =====
-- internal/logger/logger.go. A *slog.Logger is the format and the level of its handler, none where it
-- is nil; how a line is printed belongs to log/slog. A context of the package context is the list of
-- its pairs, the innermost first.
use nexlog_server.Base.{
  ℕ, String, ◌≡◌, refl, ◌∙◌, Bool, List, [], ◌∷◌, Option, none, some, leb, eq_iff, arith, ◌==◌,
  if◌then◌else◌,
}

pub data Format : Type 0 where
  text json : Format

-- slog's levels, which are the numbers -4, 0, 4 and 8
pub data Level : Type 0 where
  level_debug level_info level_warn level_error : Level

abbrev rank : Level → ℕ
rank level_debug = 0
rank level_info = 4
rank level_warn = 8
rank level_error = 12

pub record SlogLogger : Type 0 where
  pub format : Format
  pub level : Level

pub record Line : Type 0 where
  pub format : Format
  pub level : Level
  pub message : String
  -- keys and values by turns
  pub args : List String

-- The variable L, the default logger of log/slog where the package has set it, and the lines on
-- os.Stdout, the last one first.
pub record Log : Type 0 where
  pub global : Option SlogLogger
  pub default_logger : Option SlogLogger
  pub lines : List Line

-- As the process starts.
abbrev pub no_log : Log
no_log = record { global = none; default_logger = none; lines = [] }

abbrev pub slog_logger : Bool → SlogLogger
slog_logger is_dev = record { format = if is_dev then text else json; level = level_debug }

abbrev pub init : Bool → Log → Log
init is_dev log = record log {
  global = some (slog_logger is_dev);
  default_logger = some (slog_logger is_dev);
}

-- A method of a *slog.Logger; on a nil pointer it panics, which is none.
abbrev write_by : Option SlogLogger → Level → String → List String → Log → Option Log
write_by none level message args log = none
write_by (some l) level message args log = some (
    if leb (rank l.level) (rank level)
    then record log {
      lines =
          record { format = l.format; level = level; message = message; args = args } ∷ log.lines;
    }
    else log)

abbrev pub info : String → List String → Log → Option Log
info message args log = write_by log.global level_info message args log

abbrev pub warn : String → List String → Log → Option Log
warn message args log = write_by log.global level_warn message args log

abbrev pub error : String → List String → Log → Option Log
error message args log = write_by log.global level_error message args log

abbrev pub debug : String → List String → Log → Option Log
debug message args log = write_by log.global level_debug message args log

abbrev pub Context : Type 0
Context = List (String × SlogLogger)

-- The key of a pair is that of its type.
abbrev pub ctx_key : String
ctx_key = "nexlog/internal/logger.ctxKey"

-- ctx.Value(key)
unfoldable pub value : String → Context → Option SlogLogger
value k [] = none
value k ((j, l) ∷ c) = if j == k then some l else value k c

abbrev or_global : Option SlogLogger → Option SlogLogger → Option SlogLogger
or_global global none = global
or_global global (some l) = some l

unfoldable pub from_ctx : Log → Context → Option SlogLogger
unfolding value
from_ctx log c = or_global log.global (value ctx_key c)

abbrev pub with_ctx : Context → SlogLogger → Context
with_ctx c l = (ctx_key, l) ∷ c

-- A logger that is put into a context is the one that is found there, and no other value of the
-- context changes.
pub from_ctx-with_ctx :
    (log : Log) (l : SlogLogger) (c : Context) (k : String)
    → (from_ctx log (with_ctx c l) ≡ some l)
      × ((k ≡ ctx_key → ⊥) → value k (with_ctx c l) ≡ value k c)
unfolding from_ctx value
from_ctx-with_ctx log l c k =
    (ground (arith, eq_iff ctx_key ctx_key), λ other. ground (arith, eq_iff ctx_key k))

-- After Init each of the four functions writes its line, debug lines and production included.
pub write-init :
    (is_dev : Bool) (log : Log) (level : Level) (message : String) (args : List String)
    → (written : Log) × (write_by (init is_dev log).global level message args (init is_dev log)
        ≡ some written)
      × (written.lines
          ≡ record {
            format = if is_dev then text else json;
            level = level;
            message = message;
            args = args;
          }
            ∷ log.lines)
write-init is_dev log level_debug message args = (_, refl, refl)
write-init is_dev log level_info message args = (_, refl, refl)
write-init is_dev log level_warn message args = (_, refl, refl)
write-init is_dev log level_error message args = (_, refl, refl)

-- There is a logger, so that no call of one panics.
abbrev pub HasLogger : Log → Type 0
HasLogger log = (l : SlogLogger) × (log.global ≡ some l)

written_by :
    (g : Option SlogLogger) (l : SlogLogger) (level : Level) (message : String) (args : List String)
    (log : Log)
    → g ≡ some l
    → (written : Log) × (write_by g level message args log ≡ some written)
      × (written.global ≡ log.global)
written_by none l level message args log has = cc
written_by (some m) l level message args log has = (_, refl, ground arith)

pub info-HasLogger :
    (message : String) (args : List String) (log : Log)
    → HasLogger log
    → (written : Log) × (info message args log ≡ some written) × HasLogger written
info-HasLogger message args log (l, has) =
    let (written, is, same) = written_by log.global l level_info message args log has in
    (written, is, (l, same ∙ has))

pub error-HasLogger :
    (message : String) (args : List String) (log : Log)
    → HasLogger log
    → (written : Log) × (error message args log ≡ some written) × HasLogger written
error-HasLogger message args log (l, has) =
    let (written, is, same) = written_by log.global l level_error message args log has in
    (written, is, (l, same ∙ has))

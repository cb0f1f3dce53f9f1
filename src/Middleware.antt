-- ===== src/Middleware.antt =====
-- internal/middleware: what wraps every request. A middleware is a function from handlers to
-- handlers; `next.ServeHTTP(w, r)` is the call of the wrapped handler, whose calls of the
-- ResponseWriter follow those made before.
pub mod Auth
pub mod Cors
pub mod Security
pub mod Gzip
pub mod RateLimit
mod Tests

-- ===== src/Http.antt =====
-- net/http as the program uses it. A handler is a function of the request and the state of the
-- program; it returns its calls of the ResponseWriter, in order, and the new state. `respond` is
-- the server's reading of those calls. A header name is compared as it is written: the program
-- spells each name in one way. Informational statuses (1xx) are not sent by the program.
pub mod Laws
pub mod Untouched
use Prim.Native.String
use Prim.Native.String.{len}
use nexlog_server.Base.{
  ℕ, String, List, [], ◌∷◌, ◌++◌, Option, none, some, Bool, true, not, ◌||◌, ◌&&◌, ◌+◌, leb, nat_eq,
  if◌then◌else◌,
}
use nexlog_server.GoMap
use nexlog_server.GoMap.{GoMap}
use nexlog_server.Text.{or_else, atoi}
use nexlog_server.Int.{ℤ, pos}

abbrev pub Header : Type 0
Header = GoMap String

-- h.Get(key)
abbrev pub get_header : String → Header → String
get_header key h = or_else "" (h key)

-- `clock i` and `random i` are what time.Now() (in nanoseconds) and the random generators return at
-- the i-th place of the code that reads them while the request is served.
pub record Request : Type 0 where
  pub method : String
  pub path : String
  pub header : Header
  pub remote_addr : String
  pub body : String
  pub clock : ℕ → ℕ
  pub random : ℕ → ℕ

pub data Action : Type 0 where
  set_header : String → String → Action
  del_header : String → Action
  write_header : ℕ → Action
  write : String → Action

abbrev pub Handler {ℓ} : Type ℓ → Type ℓ
Handler W = Request → W → List Action × W

-- The header that was sent, with its status.
pub record Sent : Type 0 where
  pub status : ℕ
  pub header : Header

pub record Writer : Type 0 where
  pub header : Header
  pub sent : Option Sent
  -- how many bytes the handler has written
  pub count : ℕ
  pub body : String

abbrev pub new_writer : Writer
new_writer = record { header = GoMap.empty; sent = none; count = 0; body = "" }

-- A second WriteHeader is ignored.
abbrev pub send : ℕ → Option Sent → Header → Option Sent
send code none h = some (record { status = code; header = h })
send code (some s) h = some s

unfoldable pub body_allowed : ℕ → Bool
body_allowed status = not (nat_eq status 204 || nat_eq status 304)

-- The length that a Content-Length declares; one that is no number from 0 on is dropped.
abbrev length_of : Option ℤ → Option ℕ
length_of (some (pos n)) = some n
length_of _ = none

abbrev pub declared : Option String → Option ℕ
declared none = none
declared (some text) = length_of (atoi text)

-- A write beyond the declared length fails with ErrContentLength, and none of it is sent.
abbrev pub within : ℕ → Option ℕ → Bool
within count none = true
within count (some n) = leb count n

abbrev pub add_body : Option Sent → ℕ → String → String → String
add_body none count body b = body
add_body (some s) count body b =
    if body_allowed s.status && within count (declared (s.header "Content-Length"))
    then String.◌++◌ body b
    else body

unfoldable pub act : Writer → Action → Writer
act w (set_header k v) = record w { header = GoMap.insert k v w.header }
act w (del_header k) = record w { header = GoMap.erase k w.header }
act w (write_header code) = record w { sent = send code w.sent w.header }
act w (write b) =
    let sent : Option Sent = send 200 w.sent w.header in
    let count = w.count + len b in
    record w { sent = sent; count = count; body = add_body sent count w.body b }

unfoldable pub perform : Writer → List Action → Writer
unfolding act
perform w [] = w
perform w (a ∷ acts) = perform (act w a) acts

pub record Response : Type 0 where
  pub status : ℕ
  pub header : Header
  pub body : String

abbrev finish : Option Sent → Header → String → Response
finish none h body = record { status = 200; header = h; body = body }
finish (some s) h body = record { status = s.status; header = s.header; body = body }

abbrev pub result : Writer → Response
result w = finish w.sent w.header w.body

-- What the server sends for the calls of a handler.
abbrev pub respond : List Action → Response
respond acts = result (perform new_writer acts)

-- http.Error(w, message, code)
unfoldable pub http_error : String → ℕ → List Action
http_error message code =
    set_header "Content-Type" "text/plain; charset=utf-8"
    ∷ set_header "X-Content-Type-Options" "nosniff"
    ∷ write_header code
    ∷ write (String.◌++◌ message "\n")
    ∷ []

-- ===== src/Middleware/Auth.antt =====
-- internal/middleware/auth.go. The package jwt is not part of the program: it is a parameter.
pub mod Laws
use nexlog_server.Base.{ℕ, String, Bool, not, List, Option, none, some, if◌then◌else◌}
use nexlog_server.Http.{Handler, Action, get_header, http_error}
use nexlog_server.Text.{strip_prefix, has_prefix, trim_prefix}

-- What the program uses of github.com/golang-jwt/jwt/v5. `parse token_str key_func now` is
-- `jwt.Parse` at the time `now` (nanoseconds), `none` if it returns an error. `sign_admin key iat exp`
-- is the string of a token with the method HS256 and the claims of the login, the times in seconds.
pub record Jwt : Type 1 where
  pub Token : Type 0
  -- Whether `t.Method` is a `*jwt.SigningMethodHMAC`.
  pub is_hmac : Token → Bool
  pub valid : Token → Bool
  pub parse : String → (Token → Option String) → ℕ → Option Token
  pub sign_admin : String → ℕ → ℕ → String
  -- The signature of the token string was made with the key.
  pub SignedWith : String → String → Type 0

-- The key function that `Auth` hands to `jwt.Parse`.
abbrev pub key_func : (j : Jwt) → String → j.Token → Option String
key_func j secret t = if not (j.is_hmac t) then none else some secret

module _ {ℓ} {W : Type ℓ} (j : Jwt) where
  abbrev check_token : Option j.Token → List Action × W → W → List Action × W
  check_token none served w = (http_error "{\"error\":\"Invalid token\"}" 401, w)
  check_token (some token) served w =
      if not (j.valid token) then (http_error "{\"error\":\"Invalid token\"}" 401, w) else served

  unfoldable pub auth : String → Handler W → Handler W
  unfolding strip_prefix
  auth secret next r w =
      let header = get_header "Authorization" r.header in
      if not (has_prefix header "Bearer ")
      then (http_error "{\"error\":\"Unauthorized\"}" 401, w)
      else check_token (j.parse (trim_prefix header "Bearer ") (key_func j secret) (r.clock 2))
          (next r w) w

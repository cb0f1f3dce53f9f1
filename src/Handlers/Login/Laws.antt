-- ===== src/Handlers/Login/Laws.antt =====
-- The password and the token.
use Prim.Native.String
use Prim.Native.String.{len}
use nexlog_server.Base.{
  ℕ, ◌+◌, ◌*◌, ◌<◌, ◌≤◌, String, ◌≡◌, true, false, [], Option, none, some, eq_iff, arith, ◌/◌,
  if◌then◌else◌,
}
use nexlog_server.Http.{Request, Handler, get_header}
use nexlog_server.Sql.{exec, query_row}
use nexlog_server.Repository.Reads.{get_admin_password_hash}
use nexlog_server.Repository.Writes.{update_admin_password}
use nexlog_server.Middleware.Auth.{Jwt, key_func, auth}
use nexlog_server.Middleware.Auth.Laws.{IsJwt, auth_complete}
use nexlog_server.Handlers.{Packages, App, failure, success, token, write_json, limited_body}
use nexlog_server.Handlers.Login.{second, issued, login, change_password}

-- Documented of bcrypt: a hash that it makes accepts its password, a password of more than 72 bytes
-- gives an error and no hash, and a text of less than 59 bytes is no hash of any password.
pub record IsBcrypt (pk : Packages) : Type 0 where
  pub accepts :
      (salt : ℕ) (password hash : String)
      → pk.hash_password salt password ≡ (hash, none)
      → pk.compare_password hash password ≡ true
  pub too_long :
      (salt : ℕ) (password : String)
      → 72 < len password
      → pk.hash_password salt password ≡ ("", some "bcrypt: password length exceeds 72 bytes")
  pub too_short :
      (hash password : String) → len hash < 59 → pk.compare_password hash password ≡ false

module _ (pk : Packages) (secret : String) (r : Request) (app : App) (password : String)
    (is_post : r.method ≡ "POST")
    (sent : pk.decode_new_password (limited_body r) ≡ (password, none)) (long : 6 ≤ len password)
    (old : String) (row : app.db.tables.admin_password ≡ some old)
    (fine : app.db.outcomes ≡ []) where
  changed :
      ((change_password pk r app).0 ≡ write_json pk 200 success)
      × ((change_password pk r app).1.db.tables.admin_password
          ≡ some (pk.hash_password (r.random 0) password).0)
      × ((change_password pk r app).1.db.outcomes ≡ [])
  unfolding change_password update_admin_password exec
  changed = ground (arith, eq_iff r.method "POST")

  module _ (bcrypt : IsBcrypt pk) (r' : Request) (is_post' : r'.method ≡ "POST")
      (password' : String) (sent' : pk.decode_password (limited_body r') ≡ (password', none)) where
    login_with : (login pk secret r' (change_password pk r app).1).0 ≡ (
        if pk.compare_password (pk.hash_password (r.random 0) password).0 password'
        then write_json pk 200 (token (issued pk secret r'))
        else write_json pk 401 (failure "Invalid password"))
    unfolding login get_admin_password_hash query_row
    login_with =
        let (reply, stored, none_left) = changed in
        ground (arith, eq_iff r'.method "POST", stored, none_left)

    -- A password is stored, the database answers, and both requests are POST requests that decode:
    -- after a change to a password of at least 6 bytes that bcrypt hashed, a login with the new
    -- password is answered with a token.
    pub login-change_password :
        (hash : String)
        → pk.hash_password (r.random 0) password ≡ (hash, none)
        → password' ≡ password
        → (login pk secret r' (change_password pk r app).1).0
          ≡ write_json pk 200 (token (issued pk secret r'))
    login-change_password hash hashed same =
        let matches = bcrypt.accepts (r.random 0) password hash hashed in
        rw login_with (ground (arith, matches, hashed, same))

    -- Under the same conditions, a change to a password of more than 72 bytes is answered with
    -- success, and after it no password at all is accepted by a login.
    pub change_password_locks_out :
        72 < len password
        → ((change_password pk r app).0 ≡ write_json pk 200 success)
          × ((login pk secret r' (change_password pk r app).1).0
              ≡ write_json pk 401 (failure "Invalid password"))
    change_password_locks_out over =
        let nothing = bcrypt.too_long (r.random 0) password over in
        let closed = bcrypt.too_short "" password' (omega arith) in
        (changed.0, rw login_with (ground (arith, nothing, closed)))

-- Documented of jwt: a token that was signed with a key and has not expired parses as a valid HMAC
-- token under a key function that returns the key for it.
pub record IsIssuer (j : Jwt) : Type 0 where
  pub token_of : String → ℕ → ℕ → j.Token
  pub hmac : (key : String) (iat exp : ℕ) → j.is_hmac (token_of key iat exp) ≡ true
  pub valid : (key : String) (iat exp : ℕ) → j.valid (token_of key iat exp) ≡ true
  pub signed : (key : String) (iat exp : ℕ) → j.SignedWith (j.sign_admin key iat exp) key
  pub parses :
      (key : String) (iat exp now : ℕ) (f : j.Token → Option String)
      → f (token_of key iat exp) ≡ some key
      → now < exp * second
      → j.parse (j.sign_admin key iat exp) f now ≡ some (token_of key iat exp)

-- The token of a login passes `Auth` for a day, less the second that is cut off its expiry.
pub auth-login {ℓ} :
    {W : Type ℓ} (pk : Packages) (secret : String)
    → IsJwt pk.jwt
    → IsIssuer pk.jwt
    → (r r' : Request) (next : Handler W) (w : W)
    → get_header "Authorization" r'.header ≡ String.◌++◌ "Bearer " (issued pk secret r)
    → r'.clock 2 + second ≤ r.clock 3 + 24 * 3600 * second
    → auth pk.jwt secret next r' w ≡ next r' w
auth-login pk secret jwt issuer r r' next w bearer early =
    let exp = (r.clock 3 + 24 * 3600 * second) / second in
    let iat = r.clock 4 / second in
    let hmac = issuer.hmac secret iat exp in
    auth_complete pk.jwt secret jwt next r' w (record {
      text = issued pk secret r;
      token = issuer.token_of secret iat exp;
      bearer = bearer;
      parsed =
          issuer.parses secret iat exp (r'.clock 2) (key_func pk.jwt secret) (ground (arith, hmac))
            (omega arith);
      hmac = hmac;
      signed = issuer.signed secret iat exp;
      valid = issuer.valid secret iat exp;
    })

-- ===== src/Handlers/Login.antt =====
-- internal/handlers/handlers.go: Login and ChangePassword. The pause of 300 ms before a refused
-- login is not modelled.
pub mod Laws
use Prim.Native.String.{len}
use nexlog_server.Base.{
  ℕ, ◌+◌, ◌*◌, ◌/◌, String, Bool, true, false, List, Option, none, some, not, ◌||◌, ltb, ◌==◌,
  if◌then◌else◌,
}
use nexlog_server.Http.{Request, Action, Handler}
use nexlog_server.Sql.{Err}
use nexlog_server.Service
use nexlog_server.Handlers.{
  Packages, App, failure, success, token, write_json, not_allowed, limited_body, call_db,
}

abbrev pub second : ℕ
second = 1_000_000_000

abbrev pub is_error : Err → Bool
is_error none = false
is_error (some e) = true

module _ (pk : Packages) (secret : String) where
  -- The token for a request: it expires a day after the third reading of the clock.
  abbrev pub issued : Request → String
  issued r =
      pk.jwt.sign_admin secret ((r.clock 4) / second) ((r.clock 3 + 24 * 3600 * second) / second)

  abbrev pub check_password : Request → String → (String × Err) × App → List Action × App
  check_password r password ((hash, e), app) =
      if is_error e || not (pk.compare_password hash password)
      then (write_json pk 401 (failure "Invalid password"), app)
      else (write_json pk 200 (token (issued r)), app)

  unfoldable pub login : Handler App
  login r app =
      let (password, e) = pk.decode_password (limited_body r) in
      if not (r.method == "POST")
      then (not_allowed pk, app)
      else if is_error e
      then (write_json pk 400 (failure "bad request"), app)
      else check_password r password (call_db Service.get_admin_password_hash app)

-- The errors of bcrypt and of the database are dropped.
unfoldable pub change_password : Packages → Handler App
change_password pk r app =
    let (password, e) = pk.decode_new_password (limited_body r) in
    let hash = (pk.hash_password (r.random 0) password).0 in
    let (e', app') = call_db (Service.update_admin_password hash) app in
    if not (r.method == "POST")
    then (not_allowed pk, app)
    else if is_error e || ltb (len password) 6
    then (write_json pk 400 (failure "Password must be at least 6 characters"), app)
    else (write_json pk 200 success, app')

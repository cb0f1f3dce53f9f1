-- ===== src/Handlers.antt =====
-- internal/handlers/handlers.go: the state behind the handlers, what they use of other packages,
-- and writeJSON, readBody and the closing of an administrator's change.
pub mod Public
pub mod Login
pub mod Upload
pub mod Admin
pub mod Routes
pub mod Kinds
pub mod Interleaving
mod Tests
use Prim.Native.String.{slice}
use nexlog_server.Base.{
  ℕ, ◌*◌, String, Bool, List, [], ◌∷◌, Option, none, some, ◌==◌, if◌then◌else◌,
}
use nexlog_server.GoMap.{GoMap}
use nexlog_server.Http.{Request, Action, Handler, set_header, write_header, write}
use nexlog_server.Json.{Fields, Codec}
use nexlog_server.Cache
use nexlog_server.Cache.{Cache}
use nexlog_server.Sql.{Db, Err}
use nexlog_server.Middleware.Auth.{Jwt}
use nexlog_server.Repository.Models.{
  Site, HeroSlide, Stat, About, Service, NewsItem, Partner, Contact,
}
use nexlog_server.Repository.Tables.{Tables}

-- The payload of /api/content; none is a nil slice.
pub record Payload : Type 0 where
  pub site : Site
  pub slides : Option (List HeroSlide)
  pub stats : Option (List Stat)
  pub about : About
  pub services : Option (List Service)
  pub news : Option (List NewsItem)
  pub partners : Option (List Partner)
  pub contact : Contact

-- What is handed to writeJSON. `failure` is the map with the one key "error", `status_ok` the map
-- with "status" and "time".
pub data Reply : Type 0 where
  failure : String → Reply
  success : Reply
  status_ok : ℕ → Reply
  token : String → Reply
  url : String → Reply
  content : Payload → Reply
  object : Option Fields → Reply

-- What http.MaxBytesReader, ParseMultipartForm and FormFile make of an upload: an error of the
-- parser, no file under "image", or a file with its name and content.
pub data Form : Type 0 where
  too_large : Form
  no_file : Form
  image : String → String → Form

-- Packages that are not part of the program. A decoder returns the value that json.Decode leaves in
-- the variable, with its error. `hash_password salt password` is bcrypt.GenerateFromPassword, the
-- salt being what its random source gives.
pub record Packages : Type 1 where
  pub codec : Codec
  pub jwt : Jwt
  pub encode : Reply → String
  pub decode_site : String → Site × Err
  pub decode_slides : String → List HeroSlide × Err
  pub decode_stats : String → List Stat × Err
  pub decode_about : String → About × Err
  pub decode_services : String → List Service × Err
  pub decode_news : String → List NewsItem × Err
  pub decode_partners : String → List Partner × Err
  pub decode_contact : String → Contact × Err
  pub decode_object : String → Option Fields × Err
  pub decode_password : String → String × Err
  pub decode_new_password : String → String × Err
  pub compare_password : String → String → Bool
  pub hash_password : ℕ → String → String × Err
  pub parse_form : Request → Form
  pub to_lower : String → String

-- The upload directory; an outcome for each attempt to make it or to create a file in it.
pub record Disk : Type 0 where
  pub files : GoMap String
  pub mkdir_fails : ℕ → Bool
  pub create_fails : String → Bool
  -- what io.Copy leaves of a text in a new file; its error is dropped
  pub copied : String → String → String

pub record App : Type 0 where
  pub cache : Cache Reply
  pub db : Db Tables
  pub disk : Disk

module _ (pk : Packages) where
  unfoldable pub write_json : ℕ → Reply → List Action
  write_json code v =
      set_header "Content-Type" "application/json; charset=utf-8"
      ∷ write_header code
      ∷ write (pk.encode v)
      ∷ []

  abbrev pub not_allowed : List Action
  not_allowed = write_json 405 (failure "method not allowed")

-- The bytes that readBody hands to the decoder: at most 1 MB.
abbrev pub limited_body : Request → String
limited_body r = slice r.body 0 (1024 * 1024)

-- A call of the database through the service.
abbrev pub call_db {ℓ} : {A : Type ℓ} → (Db Tables → A × Db Tables) → App → A × App
call_db f app = let (a, db) = f app.db in (a, record app { db = db })

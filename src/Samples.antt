-- ===== src/Samples.antt =====
-- Concrete packages, requests and states, which the tests use.
use Prim.Native.String
use Prim.Native.String.{len}
use text.Mathlib.TextPositions.{len-append}
use nexlog_server.Base.{
  ℕ, String, true, false, ◌≡◌, refl, sym, ◌∙◌, [], Option, none, some, arith, eq_iff, ltb,
  if◌then◌else◌, ◌==◌, ◌∷◌, suc, ap, zero, Bool,
}
use nexlog_server.GoMap
use nexlog_server.Http.{Request, Handler, Header, write_header, write}
use nexlog_server.Json.{end}
use nexlog_server.Middleware.Auth.{Jwt}
use nexlog_server.Middleware.Auth.Laws.{IsJwt}
use nexlog_server.Repository.Tables.{Tables}
use nexlog_server.Sql.{Db}
use nexlog_server.Handlers.{Packages, App, no_file, image}
use nexlog_server.Handlers.Routes.{Static}
use nexlog_server.Middleware.Auth.Laws.{HasToken}
use nexlog_server.Middleware.Gzip.{GzipLib}
use nexlog_server.Middleware.RateLimit.{RateLib}
use nexlog_server.Int.{ℤ, pos}
use nexlog_server.Text.{strip_prefix}
use nexlog_server.Text.Laws.{strip_prefix-append}
use nexlog_server.Handlers.Login.Laws.{IsBcrypt, IsIssuer}

-- A token is its key, and does not expire.
abbrev pub parse_key : String → Option String → Option String
parse_key s none = none
parse_key s (some key) = if key == s then some s else none

abbrev pub plain_jwt : Jwt
plain_jwt = record {
  Token = String;
  is_hmac = λ t. true;
  valid = λ t. true;
  parse = λ s f now. parse_key s (f s);
  sign_admin = λ key iat exp. key;
  SignedWith = λ s key. s ≡ key;
}

parse_key_lem :
    (s : String) (key : Option String) (t : String)
    → parse_key s key ≡ some t
    → (k : String) × (key ≡ some k) × (s ≡ k) × (s ≡ t)
parse_key_lem s none t h = cc
parse_key_lem s (some k) t h = (k, refl, ground (arith, eq_iff k s), ground (arith, eq_iff k s))

pub plain_jwt-IsJwt : IsJwt plain_jwt
plain_jwt-IsJwt = record {
  verified = λ s f now t h.
      let (k, is_key, same, named) = parse_key_lem s (f s) t h in
      (k, ap f (sym named) ∙ is_key, same);
}

pub plain_jwt-IsIssuer : IsIssuer plain_jwt
plain_jwt-IsIssuer = record {
  token_of = λ key iat exp. key;
  hmac = λ key iat exp. refl;
  valid = λ key iat exp. refl;
  signed = λ key iat exp. refl;
  parses = λ key iat exp now f h early. rw h (ground (arith, eq_iff key key));
}

-- A hash is its password, after as many bytes as a hash has.
abbrev pub padding : String
padding = "$2a$10$----------------------------------------------------"

abbrev pub pad_password : ℕ → String → String × Option String
pad_password salt password =
    if ltb 72 (len password)
    then ("", some "bcrypt: password length exceeds 72 bytes")
    else (String.◌++◌ padding password, none)

abbrev pub plain_packages : Packages
plain_packages = record {
  codec = record { marshal = λ m. "{}"; unmarshal = λ s. some end; jsonb = λ s. some s };
  jwt = plain_jwt;
  encode = λ v. "{}";
  decode_site = λ s. (record { company_name = ""; tagline = "" }, some "invalid character");
  decode_slides = λ s. ([], none);
  decode_stats = λ s. ([], none);
  decode_about = λ s. (record { title = ""; description = ""; image = "" }, none);
  decode_services = λ s. ([], none);
  decode_news = λ s. ([], none);
  decode_partners = λ s. ([], none);
  decode_contact = λ s. (record { address = ""; phone = ""; email = ""; whatsapp = "" }, none);
  decode_object = λ s. (some end, none);
  decode_password = λ s. (s, none);
  decode_new_password = λ s. (s, none);
  compare_password = λ hash password. hash == String.◌++◌ padding password;
  hash_password = pad_password;
  parse_form = λ r. if r.body == "" then no_file else image "../photo.jpg" r.body;
  to_lower = λ s. s;
}

pub plain_packages-IsBcrypt : IsBcrypt plain_packages
plain_packages-IsBcrypt = record {
  accepts = λ salt password hash h. ground (arith, eq_iff hash (String.◌++◌ padding password));
  too_long = λ salt password long. ground arith;
  too_short = λ hash password short.
      ground (arith, eq_iff hash (String.◌++◌ padding password), len-append padding password);
}

abbrev pub no_header : Header
no_header = GoMap.empty

-- A request, its clock at one reading.
abbrev pub request_of : String → String → Header → String → ℕ → Request
request_of method path header body now = record {
  method = method;
  path = path;
  header = header;
  remote_addr = "10.0.0.1:4000";
  body = body;
  clock = λ i. now;
  random = λ i. 7;
}

abbrev pub some_tables : Tables
some_tables = record {
  site = some (record { company_name = "NexLog"; tagline = "Moving" });
  admin_password = some "old";
  hero_slides = [];
  stats = [];
  about = none;
  services = [];
  news = [];
  partners = [];
  contact = none;
  languages = [];
  sidepanel = none;
}

abbrev pub some_db : Db Tables
some_db = record {
  tables = some_tables;
  outcomes = [];
  violation = "duplicate key";
  aborted = "current transaction is aborted";
}

abbrev pub some_app : App
some_app = record {
  cache = record { m = GoMap.empty; ttl = 30_000_000_000 };
  db = some_db;
  disk = record {
    files = GoMap.empty;
    mkdir_fails = λ i. false;
    create_fails = λ s. false;
    copied = λ name bytes. bytes;
  };
}

-- A handler that counts its calls, and answers 201 with a body.
abbrev pub counting : Handler ℕ
counting r n = (write_header 201 ∷ write "hello" ∷ [], suc n)

abbrev pub no_files : Static
no_files = record {
  serve_file = λ name r disk. [];
  file_server = λ r disk. [];
  upload_server = λ r disk. [];
  in_public = λ path disk. false;
  redirect = λ path r. [];
  not_found = λ r. [];
}

abbrev pub put_site : Request
put_site = request_of "PUT" "/api/admin/site" no_header "{" 5

pub anonymous : (secret : String) → ¬ HasToken plain_jwt secret put_site
unfolding strip_prefix
anonymous secret h =
    let cut : strip_prefix "Bearer " "" ≡ some h.text =
      ap (strip_prefix "Bearer ") h.bearer ∙ strip_prefix-append "Bearer " h.text in
    cc

-- A compressor that writes what it gets.
abbrev pub copying : GzipLib
copying = record {
  State = Unit;
  new_writer_level = some tt;
  write_to = λ b st. (b ∷ [], st);
  close = λ st. [];
  decode = λ s. s;
}

-- A bucket that is never filled again.
abbrev pub draw : ℕ → Bool × ℕ
draw zero = (false, 0)
draw (suc n) = (true, n)

abbrev pub burst_of : ℤ → ℕ
burst_of (pos n) = n
burst_of (ℤ.negsuc n) = 0

abbrev pub draining : RateLib
draining = record {
  Limit = ℤ;
  per_second = λ n. n;
  Limiter = ℕ;
  new_limiter = λ limit burst. burst_of burst;
  allow = λ now l. draw l;
}

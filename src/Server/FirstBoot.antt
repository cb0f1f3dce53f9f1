-- ===== src/Server/FirstBoot.antt =====
-- The first boot, up to the first login.
use nexlog_server.Base.{ℕ, String, ◌≡◌, refl, ◌∙◌, ap, List, [], none, some, arith, eq_iff, All}
use nexlog_server.Http.{Request}
use nexlog_server.Json.{Codec}
use nexlog_server.Sql.{Db, query_row}
use nexlog_server.Repository.Tables.{Tables}
use nexlog_server.Repository.Reads.{get_admin_password_hash}
use nexlog_server.Service.Languages.{Texts}
use nexlog_server.Service.Seed.{default_hash, seed_if_empty, plain_texts, panel}
use nexlog_server.Service.Seed.Extends.{Accepts}
use nexlog_server.Service.Seed.Complete.{seed_if_empty-Fine}
use nexlog_server.Service.Seed.Default.{no_rows, DistinctCodes, default_made}
use nexlog_server.Handlers.{Packages, App, token, write_json, limited_body}
use nexlog_server.Handlers.Login.{issued, login}
use nexlog_server.Handlers.Login.Laws.{IsBcrypt}

-- The type JSONB takes the texts of the default data, and no language is listed twice.
abbrev pub TakesDefaults : Codec → List (String × Texts) → Type 0
TakesDefaults codec langs =
    All (λ l. Accepts codec (plain_texts l.1)) langs × Accepts codec panel × DistinctCodes langs

module _ (pk : Packages) (salt : ℕ) (violation aborted : String)
    (langs : List (String × Texts)) where
  abbrev pub empty_db : Db Tables
  empty_db = record { tables = no_rows; outcomes = []; violation = violation; aborted = aborted }

  seeded :
      TakesDefaults pk.codec langs
      → ((seed_if_empty pk.codec (pk.hash_password salt) langs empty_db).1.outcomes ≡ [])
        × ((seed_if_empty pk.codec (pk.hash_password salt) langs empty_db).1.tables.admin_password
            ≡ some (default_hash (pk.hash_password salt)))
  seeded (taken, panel_taken, distinct) =
      let (u, made, is_hash) =
        default_made pk.codec (pk.hash_password salt) langs taken panel_taken distinct in
      let (ok, same, still_fine) =
        seed_if_empty-Fine pk.codec (pk.hash_password salt) langs empty_db u refl refl made in
      (still_fine, ap (λ t. t.admin_password) same ∙ is_hash)

  -- After the seed of an empty database that answers, a login with "password" is answered with a
  -- token, whatever bcrypt draws for the hash, as long as it makes one; the languages are listed in
  -- any order, none twice, with texts that the type JSONB takes.
  pub login-seed_if_empty :
      (secret hash : String) (r : Request) (app : App)
      → TakesDefaults pk.codec langs
      → IsBcrypt pk
      → pk.hash_password salt "password" ≡ (hash, none)
      → r.method ≡ "POST"
      → pk.decode_password (limited_body r) ≡ ("password", none)
      → (login pk secret r
          (record app { db = (seed_if_empty pk.codec (pk.hash_password salt) langs empty_db).1 })).0
        ≡ write_json pk 200 (token (issued pk secret r))
  unfolding login default_hash get_admin_password_hash query_row
  login-seed_if_empty secret hash r app taken bcrypt hashed is_post sent =
      let (still_fine, stored) = seeded taken in
      ground (
        arith,
        eq_iff r.method "POST",
        still_fine,
        stored,
        bcrypt.accepts salt "password" hash hashed,
      )

-- ===== src/Handlers/Admin/Laws.antt =====
-- How an administrator's change ends.
use nexlog_server.Base.{String, ◌≡◌, refl, none, some, eq_iff, arith, []}
use nexlog_server.Cache
use nexlog_server.Http.{Request}
use nexlog_server.Sql.{Err, exec}
use nexlog_server.Repository.Models.{Site}
use nexlog_server.Repository.Writes.{update_site}
use nexlog_server.Handlers.{Packages, App, success, write_json, limited_body}
use nexlog_server.Handlers.Admin.{admin_put, finish_put, admin_site}

module _ (pk : Packages) where
  finish_put_done :
      (result : Err × App)
      → result.0 ≡ none
      → finish_put pk result
        ≡ (write_json pk 200 success, record result.1 { cache = Cache.flush result.1.cache })
  finish_put_done (none, app) done = refl
  finish_put_done (some e, app) done = cc

  pub put_done :
      (fn : Request → App → Err × App) (r : Request) (app : App)
      → r.method ≡ "PUT"
      → (fn r app).0 ≡ none
      → admin_put pk fn r app ≡ (
        write_json pk 200 success,
        record (fn r app).1 { cache = Cache.flush (fn r app).1.cache },
      )
  unfolding admin_put
  put_done fn r app is_put done =
      rw ((eq_iff _ _).1 is_put, admin_put) (finish_put_done (fn r app) done)

  -- A body that cannot be decoded wipes the site: where the decoder fails and leaves the zero value,
  -- a PUT to a database that answers is reported as a success and empties both texts of the site.
  pub admin_site_wipes :
      (r : Request) (app : App) (old : Site) (message : String)
      → r.method ≡ "PUT"
      → pk.decode_site (limited_body r) ≡ (record { company_name = ""; tagline = "" }, some message)
      → app.db.outcomes ≡ []
      → app.db.tables.site ≡ some old
      → ((admin_site pk r app).0 ≡ write_json pk 200 success)
        × ((admin_site pk r app).1.db.tables.site
            ≡ some (record { company_name = ""; tagline = "" }))
  unfolding admin_site update_site exec
  admin_site_wipes r app old message is_put bad fine row = ground (arith, eq_iff r.method "PUT")

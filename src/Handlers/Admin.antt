-- ===== src/Handlers/Admin.antt =====
-- internal/handlers/handlers.go: adminPUT and the changes that an administrator makes. The error of
-- readBody is dropped, so that a body which cannot be decoded writes what the decoder left.
pub mod Laws
use nexlog_server.Base.{ℕ, String, List, Option, none, some, not, ◌==◌, if◌then◌else◌}
use nexlog_server.Http.{Request, Action, Handler}
use nexlog_server.Json.{Fields, end}
use nexlog_server.Cache
use nexlog_server.Sql.{Err}
use nexlog_server.Service
use nexlog_server.Handlers.{
  Packages, App, failure, success, write_json, not_allowed, limited_body, call_db,
}

module _ (pk : Packages) where
  abbrev pub finish_put : Err × App → List Action × App
  finish_put (some e, app) = (write_json pk 500 (failure e), app)
  finish_put (none, app) = (write_json pk 200 success, record app { cache = Cache.flush app.cache })

  unfoldable pub admin_put : (Request → App → Err × App) → Handler App
  admin_put fn r app =
      if not (r.method == "PUT") then (not_allowed pk, app) else finish_put (fn r app)

  unfoldable pub admin_site : Handler App
  unfolding admin_put
  admin_site = admin_put λ r. call_db (Service.update_site (pk.decode_site (limited_body r)).0)

  unfoldable pub admin_hero : Handler App
  unfolding admin_put
  admin_hero =
      admin_put λ r. call_db (Service.update_hero_slides (pk.decode_slides (limited_body r)).0)

  unfoldable pub admin_stats : Handler App
  unfolding admin_put
  admin_stats = admin_put λ r. call_db (Service.update_stats (pk.decode_stats (limited_body r)).0)

  unfoldable pub admin_about : Handler App
  unfolding admin_put
  admin_about = admin_put λ r. call_db (Service.update_about (pk.decode_about (limited_body r)).0)

  unfoldable pub admin_services : Handler App
  unfolding admin_put
  admin_services =
      admin_put λ r. call_db (Service.update_services (pk.decode_services (limited_body r)).0)

  unfoldable pub admin_news : Handler App
  unfolding admin_put
  admin_news = admin_put λ r. call_db (Service.update_news (pk.decode_news (limited_body r)).0)

  unfoldable pub admin_partners : Handler App
  unfolding admin_put
  admin_partners =
      admin_put λ r. call_db (Service.update_partners (pk.decode_partners (limited_body r)).0)

  unfoldable pub admin_contact : Handler App
  unfolding admin_put
  admin_contact =
      admin_put λ r. call_db (Service.update_contact (pk.decode_contact (limited_body r)).0)

  -- A range over the nil map is empty.
  abbrev pub or_end : Option Fields → Fields
  or_end none = end
  or_end (some fs) = fs

  unfoldable pub admin_languages : Handler App
  unfolding admin_put
  admin_languages = admin_put λ r.
      call_db (Service.update_languages pk.codec (or_end (pk.decode_object (limited_body r)).0))

  unfoldable pub admin_side_panel : Handler App
  unfolding admin_put
  admin_side_panel =
      admin_put
        λ r. call_db (Service.update_side_panel pk.codec (pk.decode_object (limited_body r)).0)

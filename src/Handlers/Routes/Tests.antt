-- ===== src/Handlers/Routes/Tests.antt =====
-- Runs of the choice of a handler.
use nexlog_server.Base.{◌≡◌, refl}
use nexlog_server.Handlers.Routes.{
  find, serve, redirect_to, guarded, site, sign_in, uploads, fallback, admin_page,
}

find_runs :
    (find "/api/admin/site" ≡ serve (guarded site))
    × (find "/api/admin/login" ≡ serve sign_in)
    × (find "/uploads/a.png" ≡ serve uploads)
    × (find "/uploads" ≡ redirect_to "/uploads/")
    × (find "/api/admin/other" ≡ serve fallback)
    × (find "/admin/x" ≡ serve admin_page)
    × (find "/api/admin/../admin/site" ≡ redirect_to "/api/admin/site")
    × (find "//api/admin/site" ≡ redirect_to "/api/admin/site")
unfolding find
find_runs = (refl, refl, refl, refl, refl, refl, refl, refl)

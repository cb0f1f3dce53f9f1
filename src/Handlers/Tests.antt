-- ===== src/Handlers/Tests.antt =====
-- The handlers at concrete requests.
use nexlog_server.Base.{String, ◌≡◌, refl, [], arith, none, some}
use nexlog_server.GoMap
use nexlog_server.Http.{Request}
use nexlog_server.Json.{Fields, field_at}
use nexlog_server.Json.Sample.{years_codec, years_codec-IsCodec, some_languages}
use nexlog_server.Text.{strip_prefix}
use nexlog_server.Repository.Tables.{has_code}
use nexlog_server.Repository.Languages.{object_of, LanguageAt}
use nexlog_server.Cache
use nexlog_server.Handlers.Public.Outage.{outage, serve_content-outage}
use nexlog_server.Handlers.Interleaving.{unread}
use nexlog_server.Handlers.Public.Languages.{languages-admin_languages}
use nexlog_server.Sql.{Err, exec, begin, tx_exec, commit}
use nexlog_server.Service
use nexlog_server.Repository.Writes.{
  update_site, update_languages, insert_languages, insert_language, without_names,
}
use nexlog_server.Samples.{
  plain_jwt, plain_jwt-IsJwt, plain_jwt-IsIssuer, plain_packages, put_site, plain_packages-IsBcrypt,
  no_header, request_of, some_app, counting,
}
use nexlog_server.Middleware.Auth.{auth}
use nexlog_server.Handlers.{
  Packages, App, success, token, failure, content, object, write_json, call_db,
}
use nexlog_server.Handlers.Public.{serve_content, serve_languages}
use nexlog_server.Handlers.Public.Freshness.{payload_of, content-admin_put}
use nexlog_server.Handlers.Login.{issued, login, change_password}
use nexlog_server.Handlers.Login.Laws.{login-change_password, change_password_locks_out, auth-login}
use nexlog_server.Handlers.Upload.{upload}
use nexlog_server.Handlers.Upload.Laws.{Ends, upload_cases}
use nexlog_server.Handlers.Admin.{admin_put, admin_site, admin_languages}
use nexlog_server.Handlers.Admin.Laws.{admin_site_wipes}

abbrev get_content : Request
get_content = request_of "GET" "/api/content" no_header "" 9

abbrev rename : Request → App → Err × App
rename r = call_db (Service.update_site (record { company_name = "New"; tagline = "Name" }))

content-admin_put_example :
    (serve_content plain_packages get_content
      (admin_put plain_packages rename put_site some_app).1).0
    ≡ write_json plain_packages 200 (content (payload_of (rename put_site some_app).1.db.tables))
unfolding update_site exec
content-admin_put_example =
    content-admin_put plain_packages get_content refl rename put_site some_app refl refl refl

abbrev post_password : Request
post_password = request_of "POST" "/api/admin/change-password" no_header "secret" 5

abbrev post_login : Request
post_login = request_of "POST" "/api/admin/login" no_header "secret" 6

login-change_password_example :
    (login plain_packages "key" post_login
      (change_password plain_packages post_password some_app).1).0
    ≡ write_json plain_packages 200 (token (issued plain_packages "key" post_login))
login-change_password_example =
    login-change_password plain_packages "key" post_password some_app "secret" refl refl
      (omega arith) "old" refl refl plain_packages-IsBcrypt post_login refl "secret" refl
      "$2a$10$----------------------------------------------------secret" refl refl

abbrev long_password : String
long_password = "0123456789012345678901234567890123456789012345678901234567890123456789012"

abbrev post_long : Request
post_long = request_of "POST" "/api/admin/change-password" no_header long_password 5

change_password_locks_out_example :
    ((change_password plain_packages post_long some_app).0 ≡ write_json plain_packages 200 success)
    × ((login plain_packages "key" post_login
          (change_password plain_packages post_long some_app).1).0
        ≡ write_json plain_packages 401 (failure "Invalid password"))
change_password_locks_out_example =
    change_password_locks_out plain_packages "key" post_long some_app long_password refl refl
      (omega arith) "old" refl refl plain_packages-IsBcrypt post_login refl "secret" refl
      (omega arith)

abbrev bearing : Request
bearing =
    request_of "PUT" "/api/admin/site" (GoMap.insert "Authorization" "Bearer key" no_header) "{}"
      2_000_000_000

auth-login_example : auth plain_jwt "key" counting bearing 3 ≡ counting bearing 3
auth-login_example =
    auth-login plain_packages "key" plain_jwt-IsJwt plain_jwt-IsIssuer post_login bearing counting 3
      refl (omega arith)

abbrev post_photo : Request
post_photo = request_of "POST" "/api/admin/upload" no_header "bytes" 5_000_000

upload_cases_example :
    Ends plain_packages post_photo some_app (upload plain_packages post_photo some_app)
upload_cases_example = upload_cases plain_packages post_photo some_app

admin_site_wipes_example :
    ((admin_site plain_packages put_site some_app).0 ≡ write_json plain_packages 200 success)
    × ((admin_site plain_packages put_site some_app).1.db.tables.site
        ≡ some (record { company_name = ""; tagline = "" }))
admin_site_wipes_example =
    admin_site_wipes plain_packages put_site some_app
      (record { company_name = "NexLog"; tagline = "Moving" }) "invalid character" refl refl refl
      refl

abbrev language_packages : Packages
language_packages = record plain_packages {
  codec = years_codec;
  decode_object = λ s. (some some_languages, none);
}

abbrev put_languages : Request
put_languages = request_of "PUT" "/api/admin/languages" no_header "{" 5

abbrev get_all_languages : Request
get_all_languages = request_of "GET" "/api/languages" no_header "" 9

languages-admin_languages_example :
    (out : Fields) × ((serve_languages language_packages get_all_languages
        (admin_languages language_packages put_languages some_app).1).0
      ≡ write_json language_packages 200 (object (some out)))
    × ((code : String) → LanguageAt (object_of (field_at code some_languages)) (field_at code out))
unfolding field_at update_languages insert_languages begin tx_exec commit insert_language has_code
    without_names strip_prefix
languages-admin_languages_example =
    languages-admin_languages language_packages get_all_languages refl put_languages some_app
      some_languages years_codec-IsCodec refl refl (refl, (refl, tt)) ((refl, (refl, tt)), (tt, tt))
      refl refl

-- An app whose database refuses the next eight calls.
abbrev failing_app : App
failing_app = record some_app {
  db = record some_app.db { outcomes = outage "connection refused" [] };
}

abbrev get_again : Request
get_again = request_of "GET" "/api/content" no_header "" 29_000_000_000

serve_content-outage_example :
    ((serve_content plain_packages get_content failing_app).0
      ≡ write_json plain_packages 200 (content unread))
    × ((serve_content plain_packages get_again
          (record (serve_content plain_packages get_content failing_app).1 { db = some_app.db })).0
        ≡ write_json plain_packages 200 (content unread))
unfolding Cache.get
serve_content-outage_example =
    serve_content-outage plain_packages get_content get_again failing_app some_app.db
      "connection refused" [] refl refl refl refl (omega arith)

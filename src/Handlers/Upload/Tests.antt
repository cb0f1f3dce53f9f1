-- ===== src/Handlers/Upload/Tests.antt =====
-- Two uploads, three milliseconds apart.
use nexlog_server.Base.{ℕ, String, ◌≡◌, refl, inl, arith}
use nexlog_server.Http.{Request}
use nexlog_server.Samples.{plain_packages, request_of, no_header, some_app}
use nexlog_server.Handlers.{App}
use nexlog_server.Handlers.Upload.{one_of, stored_name, upload}
use nexlog_server.Handlers.Upload.Names.{files-upload}

abbrev upload_at : String → ℕ → Request
upload_at body now = request_of "POST" "/api/upload" no_header body now

abbrev after_first : App
after_first = (upload plain_packages (upload_at "one" 5) some_app).1

files-upload_example :
    (upload plain_packages (upload_at "two" 3_000_005) after_first).1.disk.files
      (stored_name (upload_at "one" 5) ".jpg")
    ≡ after_first.disk.files (stored_name (upload_at "one" 5) ".jpg")
unfolding one_of
files-upload_example =
    files-upload plain_packages (upload_at "one" 5) (upload_at "two" 3_000_005) after_first ".jpg"
      refl (inl λ same. omega (arith, same))

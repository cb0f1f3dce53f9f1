-- ===== src/Handlers/Upload.antt =====
-- internal/handlers/handlers.go: Upload.
pub mod Laws
pub mod Names
mod Tests
use Prim.Native.String
use nexlog_server.Base.{
  ℕ, ◌/◌, ◌%◌, ◌*◌, String, Bool, false, List, [], ◌∷◌, Option, none, some, not, ◌||◌, ◌==◌,
  if◌then◌else◌,
}
use nexlog_server.GoMap
use nexlog_server.Http.{Request, Action, Handler}
use nexlog_server.Text.{ext, itoa}
use nexlog_server.Handlers.{
  Packages, App, Form, too_large, no_file, image, failure, url, write_json, not_allowed,
}

-- The keys of `allowed`.
abbrev pub allowed_types : List String
allowed_types = ".jpg" ∷ ".jpeg" ∷ ".png" ∷ ".gif" ∷ ".webp" ∷ ".svg" ∷ []

unfoldable pub one_of : String → List String → Bool
one_of s [] = false
one_of s (t ∷ l) = t == s || one_of s l

-- fmt.Sprintf("%d-%d%s", time.Now().UnixMilli(), rand.Int63n(1e9), ext)
abbrev pub stored_name : Request → String → String
stored_name r e =
    String.◌++◌ (itoa (r.clock 3 / 1_000_000))
      (String.◌++◌ "-" (String.◌++◌ (itoa (r.random 0 % 1_000_000_000)) e))

abbrev pub add_file : String → String → App → App
add_file name bytes app = record app {
  disk = record app.disk { files = GoMap.insert name bytes app.disk.files };
}

module _ (pk : Packages) where
  abbrev pub save : Request → String → String → App → List Action × App
  save r e bytes app =
      if not (one_of e allowed_types)
      then (write_json pk 400 (failure "Invalid file type"), app)
      else if app.disk.mkdir_fails (r.clock 3)
      then (write_json pk 500 (failure "Cannot create upload dir"), app)
      else if app.disk.create_fails (stored_name r e)
      then (write_json pk 500 (failure "Cannot save file"), app)
      else (
        write_json pk 200 (url (String.◌++◌ "/uploads/" (stored_name r e))),
        add_file (stored_name r e) (app.disk.copied (stored_name r e) bytes) app,
      )

  abbrev pub from_form : Form → Request → App → List Action × App
  from_form too_large r app = (write_json pk 400 (failure "File too large (max 5MB)"), app)
  from_form no_file r app = (write_json pk 400 (failure "No file uploaded"), app)
  from_form (image name bytes) r app = save r (pk.to_lower (ext name)) bytes app

  unfoldable pub upload : Handler App
  unfolding one_of
  upload r app =
      if not (r.method == "POST") then (not_allowed pk, app) else from_form (pk.parse_form r) r app

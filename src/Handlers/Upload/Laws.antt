-- ===== src/Handlers/Upload/Laws.antt =====
-- What an upload may write.
use Prim.Native.String
use Prim.Native.String.{[], ◌∷◌}
use mathlib.Core.List.{[], ◌∷◌}
use nexlog_server.Base.{
  ℕ, String, ◌≡◌, refl, ◌⊎◌, inl, inr, true, false, arith, eq_iff, Bool-cases, List, All, subst,
  ◌==◌,
}
use nexlog_server.Text.{has_char, itoa, ext}
use nexlog_server.Text.Decimal.{has_char-append, has_char-all_digits, all_digits-itoa}
use nexlog_server.Http.{Request, Action}
use nexlog_server.Handlers.{Packages, App, Form, too_large, no_file, image, url, write_json}
use nexlog_server.Handlers.Upload.{
  allowed_types, one_of, stored_name, add_file, save, from_form, upload,
}

slash-itoa : (n : ℕ) → has_char b'/' (itoa n) ≡ false
slash-itoa n = has_char-all_digits b'/' (itoa n) (omega arith) (all_digits-itoa n)

pub one_of-All {ℓ} :
    (P : String → Type ℓ) (s : String) (l : List String) → All P l → one_of s l ≡ true → P s
unfolding one_of
one_of-All P s [] all h = cc
one_of-All P s (t ∷ l) (p, all) h = elim (Bool-cases (t == s)) [
  | inl same ↦ subst P ((eq_iff t s).0 same) p
  | inr other ↦ one_of-All P s l all (rw other at h)
]

slash-allowed : (e : String) → one_of e allowed_types ≡ true → has_char b'/' e ≡ false
unfolding one_of has_char
slash-allowed e h =
    one_of-All (λ t. has_char b'/' t ≡ false) e allowed_types
      (refl, (refl, (refl, (refl, (refl, (refl, tt)))))) h

slash-stored_name :
    (r : Request) (e : String) → has_char b'/' e ≡ false → has_char b'/' (stored_name r e) ≡ false
unfolding has_char
slash-stored_name r e h =
    rw (has_char-append, slash-itoa, has_char-append, has_char-append, slash-itoa, h) refl

module _ (pk : Packages) (r : Request) (app : App) where
  -- The result adds one file in the upload directory itself (its name has no slash), with one of
  -- the allowed extensions, and gives the file's address.
  pub record Stored (result : List Action × App) (e bytes : String) : Type 0 where
    pub allowed : one_of e allowed_types ≡ true
    pub inside : has_char b'/' (stored_name r e) ≡ false
    pub added : result.1 ≡ add_file (stored_name r e) bytes app
    pub told : result.0 ≡ write_json pk 200 (url (String.◌++◌ "/uploads/" (stored_name r e)))

  abbrev pub Ends : List Action × App → Type 0
  Ends result = (result.1 ≡ app) ⊎ ((e : String) × (bytes : String) × Stored result e bytes)

  save_cases : (e bytes : String) → Ends (save pk r e bytes app)
  save_cases e bytes = elim (Bool-cases (one_of e allowed_types)) [
    | inr other ↦ inl (rw (other, save) refl)
    | inl allowed ↦ elim (Bool-cases (app.disk.mkdir_fails (r.clock 3))) [
      | inl no_dir ↦ inl (rw (allowed, no_dir, save) refl)
      | inr dir ↦ elim (Bool-cases (app.disk.create_fails (stored_name r e))) [
        | inl no_create ↦ inl (rw (allowed, dir, no_create, save) refl)
        | inr create ↦ inr (
          e,
          app.disk.copied (stored_name r e) bytes,
          record {
            allowed = allowed;
            inside = slash-stored_name r e (slash-allowed e allowed);
            added = rw (allowed, dir, create, save) refl;
            told = rw (allowed, dir, create, save) refl;
          },
        )
      ]
    ]
  ]

  form_cases : (f : Form) → Ends (from_form pk f r app)
  form_cases too_large = inl refl
  form_cases no_file = inl refl
  form_cases (image name bytes) = save_cases (pk.to_lower (ext name)) bytes

  -- Whatever the name of the file that is sent: an upload changes nothing, or its only change is one
  -- file, whose name has no slash and ends in an allowed extension, and the answer is its address.
  pub upload_cases : Ends (upload pk r app)
  unfolding upload
  upload_cases = elim (Bool-cases (r.method == "POST")) [
    | inl post ↦ rw (post, upload) (form_cases (pk.parse_form r))
    | inr other ↦ inl (rw (other, upload) refl)
  ]

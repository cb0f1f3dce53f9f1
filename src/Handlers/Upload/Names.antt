-- ===== src/Handlers/Upload/Names.antt =====
-- The files of two uploads.
use Prim.Native.Char.{Char, code}
use Prim.Native.String
use Prim.Native.String.{[], ◌∷◌}
use text.Mathlib.TextLemmas.{nil-append, cons-append}
use nexlog_server.Base.{
  ℕ, ◌/◌, ◌%◌, ◌<◌, String, ◌≡◌, ◌≢◌, refl, sym, ◌∙◌, ap, ◌⊎◌, inl, inr, true, false, none, some,
  arith, eq_iff, Bool-cases, ◌==◌,
}
use nexlog_server.Text.{has_char, before, after, itoa}
use nexlog_server.Text.Decimal.{
  has_char-all_digits, all_digits-itoa, itoa_injective, before-separator, after-separator,
}
use nexlog_server.Http.{Request}
use nexlog_server.Handlers.{Packages, App}
use nexlog_server.Handlers.Upload.{allowed_types, one_of, stored_name, upload}
use nexlog_server.Handlers.Upload.Laws.{one_of-All, upload_cases}

abbrev pub millisecond : Request → ℕ
millisecond r = r.clock 3 / 1_000_000

abbrev pub number : Request → ℕ
number r = r.random 0 % 1_000_000_000

abbrev dash : Char
dash = "-"

abbrev dot : Char
dot = "."

dotted : (e : String) → one_of e allowed_types ≡ true → (t : String) × (e ≡ dot ∷ t)
dotted e h =
    one_of-All (λ e. (t : String) × (e ≡ dot ∷ t)) e allowed_types
      ((_, refl), ((_, refl), ((_, refl), ((_, refl), ((_, refl), ((_, refl), tt)))))) h

-- The part of a name after its first dash.
abbrev rest_of : Request → String → String
rest_of r e = String.◌++◌ (itoa (number r)) e

stored_name-dash :
    (r : Request) (e : String)
    → stored_name r e ≡ String.◌++◌ (itoa (millisecond r)) (dash ∷ rest_of r e)
stored_name-dash r e = ap (String.◌++◌ (itoa (millisecond r))) (rw (cons-append, nil-append) refl)

no_sign : (c : Char) (n : ℕ) → code c < 48 → has_char (code c) (itoa n) ≡ false
no_sign c n small = has_char-all_digits (code c) (itoa n) small (all_digits-itoa n)

before_dash : (r : Request) (e : String) → before b'-' (stored_name r e) ≡ itoa (millisecond r)
before_dash r e =
    ap (before b'-') (stored_name-dash r e)
    ∙ before-separator dash (itoa (millisecond r)) (rest_of r e)
        (no_sign dash (millisecond r) (omega arith))

after_dash : (r : Request) (e : String) → after b'-' (stored_name r e) ≡ some (rest_of r e)
after_dash r e =
    ap (after b'-') (stored_name-dash r e)
    ∙ after-separator dash (itoa (millisecond r)) (rest_of r e)
        (no_sign dash (millisecond r) (omega arith))

before_dot :
    (r : Request) (e : String)
    → one_of e allowed_types ≡ true
    → before b'.' (rest_of r e) ≡ itoa (number r)
before_dot r e allowed =
    let (t, is) = dotted e allowed in
    ap (λ x. before b'.' (rest_of r x)) is
    ∙ before-separator dot (itoa (number r)) t (no_sign dot (number r) (omega arith))

-- A name tells the millisecond and the number that it was made of.
stored_name_injective :
    (r r' : Request) (e e' : String)
    → one_of e allowed_types ≡ true
    → one_of e' allowed_types ≡ true
    → stored_name r e ≡ stored_name r' e'
    → (millisecond r ≡ millisecond r') × (number r ≡ number r')
stored_name_injective r r' e e' allowed allowed' same = (
  itoa_injective (millisecond r) (millisecond r')
      (sym (before_dash r e) ∙ (ap (before b'-') same ∙ before_dash r' e')),
  itoa_injective (number r) (number r') (
      sym (before_dot r e allowed)
      ∙ (ap (λ o. elim o [ none ↦ "" | some s ↦ before b'.' s ])
            (sym (after_dash r e) ∙ (ap (after b'-') same ∙ after_dash r' e'))
          ∙ before_dot r' e' allowed')),
)

-- An upload leaves the file of another one as it is, if they have come in different milliseconds or
-- drawn different numbers.
pub files-upload :
    (pk : Packages) (r r' : Request) (app : App) (e : String)
    → one_of e allowed_types ≡ true
    → (millisecond r ≢ millisecond r') ⊎ (number r ≢ number r')
    → (upload pk r' app).1.disk.files (stored_name r e) ≡ app.disk.files (stored_name r e)
files-upload pk r r' app e allowed differs = elim (upload_cases pk r' app) [
  | inl same ↦ ap (λ a. a.disk.files (stored_name r e)) same
  | inr (e', bytes, stored) ↦
      ap (λ a. a.disk.files (stored_name r e)) stored.added
      ∙ elim (Bool-cases (stored_name r' e' == stored_name r e)) [
        | inl same ↦
            let (times, numbers) =
              stored_name_injective r r' e e' allowed stored.allowed
                (sym ((eq_iff (stored_name r' e') (stored_name r e)).0 same)) in
            elim differs [
              | inl other_time ↦ elim (other_time times) [ ]
              | inr other_number ↦ elim (other_number numbers) [ ]
            ]
        | inr other ↦ rw other refl
      ]
]

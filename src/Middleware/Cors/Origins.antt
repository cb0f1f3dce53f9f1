-- ===== src/Middleware/Cors/Origins.antt =====
-- What a configured list of origins allows.
use Prim.Native.Char.{Char, code}
use nexlog_server.Base.{
  String, ◌≡◌, ◌≢◌, refl, sym, ◌∙◌, ap, Bool, true, false, ◌&&◌, ◌||◌, List, [], ◌∷◌, All, inl, inr,
  Bool-cases, eq_iff, ◌==◌,
}
use nexlog_server.Text.{has_char, trim_space}
use nexlog_server.Text.Split.{join_with, split-join_with}
use nexlog_server.Middleware.Cors.{add_origins, parse_origins, has_origin, is_nil, origin_allowed}

abbrev pub comma : Char
comma = ","

-- The origin is one of the entries, less the spaces around it.
unfoldable pub listed : String → List String → Bool
listed origin [] = false
listed origin (s ∷ l) = trim_space s == origin || listed origin l

unfoldable pub all_blank : List String → Bool
all_blank [] = true
all_blank (s ∷ l) = trim_space s == "" && all_blank l

has_origin-add_origins :
    (origin : String) (l : List String)
    → origin ≢ ""
    → has_origin origin (add_origins l) ≡ listed origin l
unfolding has_origin add_origins listed
has_origin-add_origins origin [] some_text = refl
has_origin-add_origins origin (s ∷ l) some_text =
    let rest = has_origin-add_origins origin l some_text in
    elim (Bool-cases (trim_space s == "")) [
      | inl blank ↦ elim (Bool-cases (trim_space s == origin)) [
        | inl same ↦
            elim (some_text (
              sym ((eq_iff (trim_space s) origin).0 same) ∙ (eq_iff (trim_space s) "").0 blank)) [ ]
        | inr other ↦ rw (blank, other, add_origins) rest
      ]
      | inr named ↦ rw (named, add_origins) (ap (λ b. trim_space s == origin || b) rest)
    ]

is_nil-add_origins : (l : List String) → is_nil (add_origins l) ≡ all_blank l
unfolding add_origins all_blank
is_nil-add_origins [] = refl
is_nil-add_origins (s ∷ l) = elim (Bool-cases (trim_space s == "")) [
  | inl blank ↦ rw (blank, add_origins) (is_nil-add_origins l)
  | inr named ↦ rw (named, add_origins) refl
]

-- Entries without a comma, joined by commas, allow an origin that is not empty exactly if it is one
-- of them, less the spaces around it, or `*` is, or all are blank.
pub origin_allowed-parse_origins :
    (s : String) (l : List String) (origin : String)
    → All (λ t. has_char (code comma) t ≡ false) (s ∷ l)
    → origin ≢ ""
    → origin_allowed (parse_origins (join_with comma (s ∷ l))) origin
      ≡ (all_blank (s ∷ l) || listed origin (s ∷ l) || listed "*" (s ∷ l))
unfolding origin_allowed parse_origins
origin_allowed-parse_origins s l origin no_comma some_text =
    ap (λ m. origin_allowed (add_origins m) origin) (split-join_with comma s l no_comma)
    ∙ rw
        (
          is_nil-add_origins (s ∷ l),
          has_origin-add_origins origin (s ∷ l) some_text,
          has_origin-add_origins "*" (s ∷ l) (λ h. cc),
        )
        refl

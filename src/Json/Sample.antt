-- ===== src/Json/Sample.antt =====
-- A codec that stores the empty map and a map with one text under "years", and refuses all else.
use Prim.Native.String
use nexlog_server.Base.{
  String, ◌≡◌, refl, sym, ap, subst, Option, none, some, inl, inr, Bool-cases, eq_iff,
  if◌then◌else◌, ◌==◌,
}
use nexlog_server.Text.{strip_prefix}
use nexlog_server.Text.Laws.{strip_prefix-append}
use nexlog_server.Json.{Value, text, number, object, Fields, end, field, field_at, Codec}
use nexlog_server.Json
use nexlog_server.Json.Maps.{SameText, SameText-refl, IsCodec}

abbrev years_text : String → Value → Fields → String
years_text k (text s) end = if k == "years" then String.◌++◌ "y" s else "?"
years_text k _ _ = "?"

abbrev print_years : Option Fields → String
print_years none = "?"
print_years (some end) = "{}"
print_years (some (field k v fs)) = years_text k v fs

abbrev years_of : Option String → Option Fields
years_of none = some end
years_of (some s) = some (field "years" (text s) end)

abbrev taken : String → Option String → Option String
taken s none = if s == "{}" then some s else none
taken s (some v) = some s

abbrev pub years_codec : Codec
years_codec = record {
  marshal = print_years;
  unmarshal = λ s. years_of (strip_prefix "y" s);
  jsonb = λ s. taken s (strip_prefix "y" s);
}

-- What the codec makes of the text of a map that it took.
abbrev Reads : Fields → String → Type 0
Reads fs s =
    (gs : Fields) × (years_of (strip_prefix "y" s) ≡ some gs)
    × ((k : String) → SameText (field_at k fs) (field_at k gs))

Reads-years :
    (v s : String)
    → taken (String.◌++◌ "y" v) (strip_prefix "y" (String.◌++◌ "y" v)) ≡ some s
    → Reads (field "years" (text v) end) s
Reads-years v s good =
    let same : String.◌++◌ "y" v ≡ s =
      ap (λ o. elim o [ none ↦ s | some x ↦ x ]) ((rw (strip_prefix-append "y" v) at good)) in
    subst (Reads (field "years" (text v) end)) same
      (field "years" (text v) end, ap years_of (strip_prefix-append "y" v), λ k. SameText-refl _)

Reads-text :
    (j v s : String)
    → taken (years_text j (text v) end) (strip_prefix "y" (years_text j (text v) end)) ≡ some s
    → Reads (field j (text v) end) s
unfolding strip_prefix
Reads-text j v s good = elim (Bool-cases (j == "years")) [
  | inl years ↦
      subst (λ i. Reads (field i (text v) end) s) (sym ((eq_iff j "years").0 years))
        (Reads-years v s (rw years at good))
  | inr other ↦ let refused : none ≡ some s = rw other at good in cc
]

Reads-print_years :
    (fs : Fields) (s : String)
    → taken (print_years (some fs)) (strip_prefix "y" (print_years (some fs))) ≡ some s
    → Reads fs s
unfolding strip_prefix field_at
Reads-print_years end s good =
    subst (Reads end) (ap (λ o. elim o [ none ↦ s | some x ↦ x ]) good) (end, refl, λ k. refl)
Reads-print_years (field j (text v) end) s good = Reads-text j v s good
Reads-print_years (field j (text v) (field i u fs)) s good = cc
Reads-print_years (field j Json.null fs) s good = cc
Reads-print_years (field j (Json.boolean b) fs) s good = cc
Reads-print_years (field j (Json.number n) fs) s good = cc
Reads-print_years (field j (Json.array l) fs) s good = cc
Reads-print_years (field j (Json.object gs) fs) s good = cc

pub years_codec-IsCodec : IsCodec years_codec
years_codec-IsCodec = record { kept = λ fs s is_map good. Reads-print_years fs s good }

-- One language, and a value that is no object.
abbrev pub some_languages : Fields
some_languages =
    field "en" (object (field "flag" (text "🇬🇧") (field "years" (text "Years") end)))
      (field "version" (number 0) end)

-- ===== src/Repository/Tables.antt =====
-- The tables of migrations/0001_init.up.sql. A table with `id = 1` for its primary key holds one
-- row or none. The serial ids of the others are never read.
use nexlog_server.Base.{
  ℕ, String, List, [], ◌∷◌, ◌++◌, map, Option, none, some, Bool, false, ◌||◌, leb, ◌==◌,
  if◌then◌else◌,
}
use nexlog_server.Json.{Codec}
use nexlog_server.Repository.Models.{
  Site, HeroSlide, Stat, About, Service, NewsItem, Partner, Contact,
}

-- A row with its sort_order.
pub record Ordered {ℓ} (A : Type ℓ) : Type ℓ where
  pub sort_order : ℕ
  pub row : A

pub record LanguageRow : Type 0 where
  pub code : String
  pub config : String
  pub flag : String
  pub name : String

pub record Tables : Type 0 where
  pub site : Option Site
  pub admin_password : Option String
  pub hero_slides : List (Ordered HeroSlide)
  pub stats : List (Ordered Stat)
  pub about : Option About
  pub services : List (Ordered Service)
  pub news : List (Ordered NewsItem)
  pub partners : List (Ordered Partner)
  pub contact : Option Contact
  pub languages : List LanguageRow
  pub sidepanel : Option String

module _ {ℓ} {A : Type ℓ} where
  unfoldable pub place : Ordered A → List (Ordered A) → List (Ordered A)
  place r [] = r ∷ []
  place r (s ∷ l) = if leb r.sort_order s.sort_order then r ∷ s ∷ l else s ∷ place r l

  unfoldable pub sort_rows : List (Ordered A) → List (Ordered A)
  sort_rows [] = []
  sort_rows (r ∷ l) = place r (sort_rows l)

  -- SELECT … ORDER BY sort_order. SQL leaves the order of ties open; here it is that of insertion.
  unfoldable pub by_sort_order : List (Ordered A) → List A
  unfolding sort_rows place
  by_sort_order l = map (λ r. r.row) (sort_rows l)

  -- INSERT of one more row
  abbrev pub add_row : ℕ → A → List (Ordered A) → List (Ordered A)
  add_row i a l = l ++ record { sort_order = i; row = a } ∷ []

  -- UPDATE … WHERE id = 1
  abbrev pub update_one : A → Option A → Option A
  update_one a none = none
  update_one a (some b) = some a

  -- INSERT … (id, …) VALUES (1, …)
  abbrev pub insert_one : A → Option A → Option (Option A)
  insert_one a none = some (some a)
  insert_one a (some b) = none

-- The row as it is stored: the column of type JSONB takes a text or refuses it.
abbrev pub as_stored : Codec → LanguageRow → Option LanguageRow
as_stored codec row = elim (codec.jsonb row.config) [
  | none ↦ none
  | some s ↦ some (record row { config = s })
]

-- Whether the primary key of `languages` is taken.
unfoldable pub has_code : String → List LanguageRow → Bool
has_code c [] = false
has_code c (r ∷ l) = r.code == c || has_code c l

-- ===== src/Repository/Order.antt =====
-- What a write stores in order, a read returns in that order.
use nexlog_server.Base.{
  some_injective, ℕ, suc, ◌≡◌, refl, sym, ap, List, [], ◌∷◌, ◌∙◌, map, Option, none, some, arith,
}
use nexlog_server.Sql.{Db, Err, query}
use nexlog_server.Sql.Laws.{AllOrNothing, succeeded}
use nexlog_server.Repository.Models.{HeroSlide, Stat, Service, NewsItem, Partner}
use nexlog_server.Repository.Tables.{Tables, place, sort_rows, by_sort_order}
use nexlog_server.Repository.Reads.{
  get_hero_slides, get_stats, get_services, get_news, get_partners,
}
use nexlog_server.Repository.Writes.{
  update_hero_slides, update_stats, update_services, update_news, update_partners,
}
use nexlog_server.Repository.Writes.Atomic.{
  numbered, update_lists-AllOrNothing, update_hero_slides-AllOrNothing,
}

module _ {ℓ} {A : Type ℓ} where
  place_first :
      (i : ℕ) (a : A) (l : List A)
      → place (record { sort_order = i; row = a }) (numbered (suc i) l)
        ≡ record { sort_order = i; row = a } ∷ numbered (suc i) l
  unfolding place numbered
  place_first i a [] = refl
  place_first i a (b ∷ l) = ground arith

  sort_rows-numbered : (i : ℕ) (l : List A) → sort_rows (numbered i l) ≡ numbered i l
  unfolding sort_rows numbered
  sort_rows-numbered i [] = refl
  sort_rows-numbered i (a ∷ l) = rw (sort_rows-numbered (suc i) l) (place_first i a l)

  rows-numbered : (i : ℕ) (l : List A) → map (λ r. r.row) (numbered i l) ≡ l
  unfolding numbered
  rows-numbered i [] = refl
  rows-numbered i (a ∷ l) = ap (λ t. a ∷ t) (rows-numbered (suc i) l)

  -- A list that is stored as rows numbered from 0 is what a SELECT in the order of the numbers returns.
  by_sort_order-numbered : (l : List A) → by_sort_order (numbered 0 l) ≡ l
  unfolding by_sort_order
  by_sort_order-numbered l =
      ap (λ t. map (λ r. r.row) t) (sort_rows-numbered 0 l) ∙ rows-numbered 0 l

-- A table that holds a list.
pub data ListTable : Type 0 where
  of_slides of_stats of_services of_news of_partners : ListTable

abbrev pub Row : ListTable → Type 0
Row of_slides = HeroSlide
Row of_stats = Stat
Row of_services = Service
Row of_news = NewsItem
Row of_partners = Partner

abbrev pub get_of : (k : ListTable) → Db Tables → (Option (List (Row k)) × Err) × Db Tables
get_of of_slides = get_hero_slides
get_of of_stats = get_stats
get_of of_services = get_services
get_of of_news = get_news
get_of of_partners = get_partners

abbrev pub update_of : (k : ListTable) → List (Row k) → Db Tables → Err × Db Tables
update_of of_slides = update_hero_slides
update_of of_stats = update_stats
update_of of_services = update_services
update_of of_news = update_news
update_of of_partners = update_partners

read_back {ℓ} :
    {A : Type ℓ} (select : Tables → List A) (old t : Tables) (l : List A) (result : Err × Db Tables)
    → select t ≡ l
    → result.0 ≡ none
    → result.1.outcomes ≡ []
    → AllOrNothing old (some t) result
    → (query select result.1).0 ≡ (some l, none)
unfolding query
read_back select old t l result is_list ok fine made =
    let same = some_injective t result.1.tables (succeeded old (some t) result ok made) in
    rw fine (ap (λ u. (some (select u), none)) (sym same) ∙ ap (λ m. (some m, none)) is_list)

-- Where UpdateHeroSlides, UpdateStats, UpdateServices, UpdateNews or UpdatePartners succeeded and the
-- database answers, the read of that table returns the list that was given, in its order.
pub get_of-update_of :
    (k : ListTable) (l : List (Row k)) (db : Db Tables)
    → (update_of k l db).0 ≡ none
    → (update_of k l db).1.outcomes ≡ []
    → (get_of k (update_of k l db).1).0 ≡ (some l, none)
unfolding get_hero_slides get_stats get_services get_news get_partners
get_of-update_of of_slides l db ok fine =
    read_back _ db.tables _ l _ (by_sort_order-numbered l) ok fine
      (update_hero_slides-AllOrNothing l db)
get_of-update_of of_stats l db ok fine =
    read_back _ db.tables _ l _ (by_sort_order-numbered l) ok fine
      (update_lists-AllOrNothing db l [] [] []).0
get_of-update_of of_services l db ok fine =
    read_back _ db.tables _ l _ (by_sort_order-numbered l) ok fine
      (update_lists-AllOrNothing db [] l [] []).1
get_of-update_of of_news l db ok fine =
    read_back _ db.tables _ l _ (by_sort_order-numbered l) ok fine
      (update_lists-AllOrNothing db [] [] l []).2
get_of-update_of of_partners l db ok fine =
    read_back _ db.tables _ l _ (by_sort_order-numbered l) ok fine
      (update_lists-AllOrNothing db [] [] [] l).3

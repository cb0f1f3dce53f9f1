-- ===== src/Repository/Writes/Atomic.antt =====
-- Every write of the repository takes place as a whole or not at all, and says which unless the
-- answer of the server was lost.
use nexlog_server.Base.{ℕ, suc, ◌≡◌, refl, List, [], ◌∷◌, ◌++◌, Option, some}
use mathlib.Core.List.{append-nil, append_assoc}
use nexlog_server.Sql.{Db, Tx, in_tx, begin, tx_exec, commit}
use nexlog_server.Sql.Laws.{
  AllOrNothing, Follows, Follows-tx_exec, commit-AllOrNothing, in_tx-AllOrNothing,
  unless_error-AllOrNothing,
}
use nexlog_server.Repository.Models.{HeroSlide, Stat, Service, NewsItem, Partner}
use nexlog_server.Repository.Tables.{Tables, Ordered, add_row}
use nexlog_server.Repository.Writes.{
  insert_rows, insert_slides, delete_hero_slides, insert_hero_slide, update_hero_slides,
  update_stats, update_services, update_news, update_partners, insert_stat, insert_service,
  insert_news, insert_partner,
}

-- The rows that a list is stored as: in its order, numbered from `i`.
unfoldable pub numbered {ℓ} : {A : Type ℓ} → ℕ → List A → List (Ordered A)
numbered i [] = []
numbered i (a ∷ l) = record { sort_order = i; row = a } ∷ numbered (suc i) l

-- A table whose rows `put` replaces, and the statements that clear it and add to it.
module _ {ℓ} {A : Type ℓ} (put : List (Ordered A) → Tables → Tables)
    (insert : ℕ → A → Tables → Option Tables)
    (insert-put : (i : ℕ) (a : A) (rows : List (Ordered A)) (t : Tables)
      → insert i a (put rows t) ≡ some (put (add_row i a rows) t)) where
  Follows-insert_rows :
      (old t : Tables) (i : ℕ) (l : List A) (rows : List (Ordered A)) (tx : Tx Tables)
      → Follows old (some (put rows t)) tx
      → Follows old (some (put (rows ++ numbered i l) t)) (insert_rows insert i l tx)
  unfolding insert_rows numbered
  Follows-insert_rows old t i [] rows tx h = rw append-nil h
  Follows-insert_rows old t i (a ∷ l) rows tx h =
      rw (← append_assoc rows (record { sort_order = i; row = a } ∷ []) (numbered (suc i) l)) (
        Follows-insert_rows old t (suc i) l (add_row i a rows) (tx_exec (insert i a) tx).1
          (rw insert-put at (Follows-tx_exec (insert i a) old (some (put rows t)) tx h)))

  replace-AllOrNothing :
      (delete : Tables → Option Tables)
      → ((t : Tables) → delete t ≡ some (put [] t))
      → (l : List A) (db : Db Tables)
      → AllOrNothing db.tables
          (some (put (numbered 0 l) db.tables))
          (in_tx (begin db) λ tx. commit (insert_rows insert 0 l (tx_exec delete tx).1))
  replace-AllOrNothing delete clears l db = in_tx-AllOrNothing _ _ db λ tx h.
      commit-AllOrNothing db.tables _ _ (
        Follows-insert_rows db.tables db.tables 0 l [] _
          (rw clears at (Follows-tx_exec delete db.tables (some db.tables) tx h)))

-- UpdateStats, UpdateServices, UpdateNews and UpdatePartners: without an error the table holds the
-- given list, in its order, and no other table has changed; with an error either nothing has
-- changed, or, where only the answer was lost, all of it has. This although the code ignores the
-- errors of the single statements.
pub update_lists-AllOrNothing :
    (db : Db Tables) (stats : List Stat) (services : List Service) (news : List NewsItem)
    (partners : List Partner)
    → AllOrNothing db.tables
        (some (record db.tables { stats = numbered 0 stats }))
        (update_stats stats db)
      × AllOrNothing db.tables
          (some (record db.tables { services = numbered 0 services }))
          (update_services services db)
      × AllOrNothing db.tables
          (some (record db.tables { news = numbered 0 news }))
          (update_news news db)
      × AllOrNothing db.tables
          (some (record db.tables { partners = numbered 0 partners }))
          (update_partners partners db)
unfolding update_stats update_services update_news update_partners
update_lists-AllOrNothing db stats services news partners = (
  replace-AllOrNothing (λ rows t. record t { stats = rows }) insert_stat (λ i a rows t. refl) _
      (λ t. refl) stats db,
  replace-AllOrNothing (λ rows t. record t { services = rows }) insert_service (λ i a rows t. refl)
      _ (λ t. refl) services db,
  replace-AllOrNothing (λ rows t. record t { news = rows }) insert_news (λ i a rows t. refl) _
      (λ t. refl) news db,
  replace-AllOrNothing (λ rows t. record t { partners = rows }) insert_partner (λ i a rows t. refl)
      _ (λ t. refl) partners db,
)

abbrev with_slides : List (Ordered HeroSlide) → Tables → Tables
with_slides rows t = record t { hero_slides = rows }

slides-AllOrNothing :
    (old t : Tables) (i : ℕ) (l : List HeroSlide) (rows : List (Ordered HeroSlide)) (tx : Tx Tables)
    → Follows old (some (with_slides rows t)) tx
    → AllOrNothing old (some (with_slides (rows ++ numbered i l) t)) (insert_slides i l tx)
unfolding insert_slides numbered
slides-AllOrNothing old t i [] rows tx h = rw append-nil (commit-AllOrNothing old _ tx h)
slides-AllOrNothing old t i (s ∷ l) rows tx h =
    let next = Follows-tx_exec (insert_hero_slide i s) old (some (with_slides rows t)) tx h in
    unless_error-AllOrNothing old _ (tx_exec (insert_hero_slide i s) tx).0 _
      (tx_exec (insert_hero_slide i s) tx).1 _ next.before (λ m. (_, refl))
      (rw (← append_assoc rows (record { sort_order = i; row = s } ∷ []) (numbered (suc i) l)) (
        slides-AllOrNothing old t (suc i) l (add_row i s rows)
          (tx_exec (insert_hero_slide i s) tx).1 next))

-- UpdateHeroSlides, which stops at the first error, is atomic in the same sense.
pub update_hero_slides-AllOrNothing :
    (slides : List HeroSlide) (db : Db Tables)
    → AllOrNothing db.tables
        (some (record db.tables { hero_slides = numbered 0 slides }))
        (update_hero_slides slides db)
unfolding update_hero_slides
update_hero_slides-AllOrNothing slides db = in_tx-AllOrNothing _ _ db λ tx h.
    let next = Follows-tx_exec delete_hero_slides db.tables (some db.tables) tx h in
    unless_error-AllOrNothing db.tables _ (tx_exec delete_hero_slides tx).0 (λ m. some m)
      (tx_exec delete_hero_slides tx).1 _ next.before (λ m. (_, refl))
      (slides-AllOrNothing db.tables db.tables 0 slides [] (tx_exec delete_hero_slides tx).1 next)

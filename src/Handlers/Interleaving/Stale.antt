-- ===== src/Handlers/Interleaving/Stale.antt =====
-- A run that leaves a stale payload in the cache.
use nexlog_server.Base.{
  ℕ, zero, suc, ◌+◌, ◌≤◌, ◌≡◌, refl, sym, ◌∙◌, ap, subst, true, false, List, [], ◌∷◌, none, arith,
}
use nexlog_server.Cache
use nexlog_server.Cache.Laws.{get-set-flush}
use nexlog_server.Http.{Request}
use nexlog_server.Sql.{Db, Err}
use nexlog_server.Repository.Tables.{Tables}
use nexlog_server.Handlers.{Packages, App, Payload, content, write_json}
use nexlog_server.Handlers.Public.{serve_content}
use nexlog_server.Handlers.Public.Freshness.{payload_of, read_payload_lem, from_cache}
use nexlog_server.Handlers.Interleaving.{
  Part, unread, parts, Place, idle, stored, reading, cross, System, put_place, with_db, with_cache,
  miss, read, fill, store, flush, Reach, start, later,
}
use nexlog_server.Handlers.Interleaving.Shown.{read_rest, read_part-same, read_rest-parts}

-- Request 0 has read `p`, the others have not begun.
record Loaded (app : App) (p : Payload) : Type 0 where
  pub system : System
  pub reach : Reach app system
  pub same : system.app ≡ app
  pub here : system.place 0 ≡ reading p [] false
  pub others : (j : ℕ) → system.place (suc j) ≡ idle

all_read :
    (rest : List Part) (p : Payload) (app : App) (s : System)
    → app.db.outcomes ≡ []
    → Reach app s
    → s.app ≡ app
    → s.place 0 ≡ reading p rest false
    → ((j : ℕ) → s.place (suc j) ≡ idle)
    → Loaded app (read_rest rest p s.app.db)
unfolding read_rest
all_read [] p app s fine reach same here others = record {
  system = s;
  reach = reach;
  same = same;
  here = here;
  others = others;
}
all_read (part ∷ rest) p app s fine reach same here others =
    all_read rest _ app _ fine (later reach (read 0 part rest p false here))
      (ap (λ d. with_db d s.app)
          (read_part-same part p s.app.db (ap (λ a. a.db.outcomes) same ∙ fine))
        ∙ same)
      refl λ j. ground (arith, others j)

loaded :
    (app : App) (now : ℕ)
    → app.db.outcomes ≡ []
    → Cache.get now "content" app.cache ≡ none
    → Loaded app (payload_of app.db.tables)
loaded app now fine missing =
    subst (Loaded app) (read_rest-parts app ∙ (read_payload_lem app fine).0) (
      all_read parts unread app _ fine (later start (miss 0 now refl missing)) refl refl
        λ j. ground arith)

-- All have ended.
at_idle :
    (places : ℕ → Place)
    → ((j : ℕ) → places (suc j) ≡ idle)
    → (i : ℕ)
    → put_place 0 idle (put_place 1 idle (put_place 1 stored (λ j. cross (places j)))) i ≡ idle
at_idle places others zero = refl
at_idle places others (suc j) = ground (arith, others j)

-- A change is stored and the cache flushed between the reads and the Set of a request for the
-- content. Then nothing is under way, and for the whole time to live of the entry /api/content is
-- answered from the tables as they were before the change.
pub stale-Reach :
    (pk : Packages) (r : Request) (app : App) (change : Db Tables → Err × Db Tables) (now : ℕ)
    → app.db.outcomes ≡ []
    → Cache.get now "content" app.cache ≡ none
    → (change app.db).0 ≡ none
    → (change app.db).1.outcomes ≡ []
    → r.method ≡ "GET"
    → r.clock 3 ≤ now + app.cache.ttl
    → (s : System) × Reach app s
      × ((i : ℕ) → s.place i ≡ idle)
      × (s.app.db.tables ≡ (change app.db).1.tables)
      × ((serve_content pk r s.app).0 ≡ write_json pk 200 (content (payload_of app.db.tables)))
stale-Reach pk r app change now fine missing ok still_fine get soon =
    let l = loaded app now fine missing in
    let old = content (payload_of app.db.tables) in
    let s = l.system in
    let db = (change s.app.db).1 in
    let is_db : db ≡ (change app.db).1 = ap (λ a. (change a.db).1) l.same in
    let cache = Cache.set now "content" old (Cache.flush s.app.cache) in
    let last : System = record {
      app = with_cache cache (with_db db s.app);
      place = put_place 0 idle (put_place 1 idle (put_place 1 stored (λ j. cross (s.place j))));
      tainted = true;
    } in
    (
      last,
      later
          (later
            (later l.reach (
              store 1 change (l.others 0) (ap (λ a. (change a.db).0) l.same ∙ ok)
                (ap (λ a. (change a.db).1.outcomes) l.same ∙ still_fine)))
            (flush 1 refl))
          (fill 0 now (payload_of app.db.tables) true (ap cross l.here)),
      λ i. at_idle s.place l.others i,
      ap (λ d. d.tables) is_db,
      from_cache pk r last.app old get (
          get-set-flush s.app.cache now (r.clock 3) "content" old
            (subst (λ a. r.clock 3 ≤ now + a.cache.ttl) (sym l.same) soon)),
    )

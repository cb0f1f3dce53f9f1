-- ===== src/Handlers/Interleaving.antt =====
-- internal/handlers/handlers.go: Content and adminPUT where any number of requests run at once over
-- a database that answers. A step is one call of the cache or of the database; a change of the
-- tables is one step, since no read sees a part of it. A request that is answered from the cache, and
-- a change that is refused, leave nothing behind and are no steps.
pub mod Shown
pub mod Fresh
pub mod Stale
mod Tests
use nexlog_server.Base.{
  ℕ, String, ◌≡◌, ◌≢◌, Bool, true, false, ◌||◌, List, [], ◌∷◌, Option, none, some, nat_eq,
  if◌then◌else◌,
}
use nexlog_server.Cache
use nexlog_server.Sql.{Db, Err}
use nexlog_server.Service
use nexlog_server.Repository.Tables.{Tables}
use nexlog_server.Handlers.{App, Payload, Reply, content}
use nexlog_server.Handlers.Public.{store_reply}

-- The reads of Content, by what they read.
pub data Part : Type 0 where
  site slides stats about services news partners contact : Part

-- The payload before the first read.
abbrev pub unread : Payload
unread = record {
  site = record { company_name = ""; tagline = "" };
  slides = none;
  stats = none;
  about = record { title = ""; description = ""; image = "" };
  services = none;
  news = none;
  partners = none;
  contact = record { address = ""; phone = ""; email = ""; whatsapp = "" };
}

-- The error of a read is dropped.
unfoldable pub read_part : Part → Payload → Db Tables → Payload × Db Tables
read_part site p db = let (x, db') = Service.get_site db in (record p { site = x.0 }, db')
read_part slides p db =
    let (x, db') = Service.get_hero_slides db in (record p { slides = x.0 }, db')
read_part stats p db = let (x, db') = Service.get_stats db in (record p { stats = x.0 }, db')
read_part about p db = let (x, db') = Service.get_about db in (record p { about = x.0 }, db')
read_part services p db =
    let (x, db') = Service.get_services db in (record p { services = x.0 }, db')
read_part news p db = let (x, db') = Service.get_news db in (record p { news = x.0 }, db')
read_part partners p db =
    let (x, db') = Service.get_partners db in (record p { partners = x.0 }, db')
read_part contact p db = let (x, db') = Service.get_contact db in (record p { contact = x.0 }, db')

-- In the order of Content.
abbrev pub parts : List Part
parts = site ∷ slides ∷ stats ∷ about ∷ services ∷ news ∷ partners ∷ contact ∷ []

-- Where a request is. `reading p rest crossed`: Content has found nothing in the cache, has read `p`
-- and has the rest to read; a change was stored since it began if `crossed`. `stored`: adminPUT has
-- changed the tables and not yet flushed the cache.
pub data Place : Type 0 where
  idle stored : Place
  reading : Payload → List Part → Bool → Place

abbrev pub is_stored : Place → Bool
is_stored stored = true
is_stored _ = false

abbrev cross : Place → Place
cross (reading p rest crossed) = reading p rest true
cross p = p

-- The requests are numbered. `tainted`, like `crossed`, is there for the theorems only: it says that
-- a payload with a change between its reads and its Set was stored since the last flush.
pub record System : Type 0 where
  pub app : App
  pub place : ℕ → Place
  pub tainted : Bool

abbrev pub put_place : ℕ → Place → (ℕ → Place) → ℕ → Place
put_place i p places j = if nat_eq i j then p else places j

abbrev pub with_cache : Cache.Cache Reply → App → App
with_cache c app = record app { cache = c }

abbrev pub with_db : Db Tables → App → App
with_db db app = record app { db = db }

pub data Step (s : System) : System → Type 0 where
  miss :
      (i now : ℕ)
      → s.place i ≡ idle
      → Cache.get now "content" s.app.cache ≡ none
      → Step s (record s { place = put_place i (reading unread parts false) s.place })
  read :
      (i : ℕ) (part : Part) (rest : List Part) (p : Payload) (crossed : Bool)
      → s.place i ≡ reading p (part ∷ rest) crossed
      → Step s (record s {
        app = with_db (read_part part p s.app.db).1 s.app;
        place = put_place i (reading (read_part part p s.app.db).0 rest crossed) s.place;
      })
  fill :
      (i now : ℕ) (p : Payload) (crossed : Bool)
      → s.place i ≡ reading p [] crossed
      → Step s (record {
        app = store_reply now "content" (content p) s.app;
        place = put_place i idle s.place;
        tainted = s.tainted || crossed;
      })
  -- A change that succeeds, of a database that goes on to answer.
  store :
      (i : ℕ) (change : Db Tables → Err × Db Tables)
      → s.place i ≡ idle
      → (change s.app.db).0 ≡ none
      → (change s.app.db).1.outcomes ≡ []
      → Step s (record s {
        app = with_db (change s.app.db).1 s.app;
        place = put_place i stored (λ j. cross (s.place j));
      })
  flush :
      (i : ℕ)
      → s.place i ≡ stored
      → Step s (record {
        app = with_cache (Cache.flush s.app.cache) s.app;
        place = put_place i idle s.place;
        tainted = false;
      })
  evict : (now : ℕ) → Step s (record s { app = with_cache (Cache.evict now s.app.cache) s.app })
  -- Languages and SidePanel
  other :
      (now : ℕ) (key : String) (v : Reply)
      → key ≢ "content"
      → Step s (record s { app = store_reply now key v s.app })

abbrev pub at_rest : App → System
at_rest app = record { app = app; place = λ i. idle; tainted = false }

pub data Reach (app : App) : System → Type 0 where
  start : Reach app (at_rest app)
  later : {s t : System} → Reach app s → Step s t → Reach app t

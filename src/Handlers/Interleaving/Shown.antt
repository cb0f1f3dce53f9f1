-- ===== src/Handlers/Interleaving/Shown.antt =====
-- The reads of Content one after the other, and what the cache shows under "content".
use nexlog_server.Base.{
  ℕ, String, ◌≡◌, ◌≢◌, refl, sym, ◌∙◌, subst, Bool, true, false, List, [], ◌∷◌, Option, none, some,
  inl, inr, ltb, ◌+◌, arith, eq_iff, if◌then◌else◌,
}
use nexlog_server.Cache
use nexlog_server.Cache.Laws.{get-set, get-evict_cases}
use nexlog_server.Sql.{Db, query, query_row}
use nexlog_server.Repository.Tables.{Tables}
use nexlog_server.Repository.Reads.{
  get_site, get_hero_slides, get_stats, get_about, get_services, get_news, get_partners,
  get_contact,
}
use nexlog_server.Handlers.{App, Payload, Reply, content}
use nexlog_server.Handlers.Public.{read_payload}
use nexlog_server.Handlers.Public.Freshness.{payload_of}
use nexlog_server.Handlers.Interleaving.{
  Part, site, slides, stats, about, services, news, partners, contact, unread, read_part, parts,
}

-- The payload that the rest of the reads make, with no step of another request in between.
unfoldable pub read_rest : List Part → Payload → Db Tables → Payload
read_rest [] p db = p
read_rest (part ∷ rest) p db = read_rest rest (read_part part p db).0 (read_part part p db).1

pub read_part-same :
    (part : Part) (p : Payload) (db : Db Tables) → db.outcomes ≡ [] → (read_part part p db).1 ≡ db
unfolding read_part get_site get_hero_slides get_stats get_about get_services get_news get_partners
    get_contact query query_row
read_part-same site p db fine = rw fine refl
read_part-same slides p db fine = rw fine refl
read_part-same stats p db fine = rw fine refl
read_part-same about p db fine = rw fine refl
read_part-same services p db fine = rw fine refl
read_part-same news p db fine = rw fine refl
read_part-same partners p db fine = rw fine refl
read_part-same contact p db fine = rw fine refl

-- The reads one by one are those of Content in one go.
pub read_rest-parts : (app : App) → read_rest parts unread app.db ≡ (read_payload app).0
unfolding read_rest read_part read_payload
read_rest-parts app = refl

-- Every reply in the cache under "content" is the payload of the tables.
abbrev pub Shows : Tables → Option Reply → Type 0
Shows t none = Unit
Shows t (some v) = v ≡ content (payload_of t)

abbrev pub ShowsTables : App → Type 0
ShowsTables app = (now : ℕ) → Shows app.db.tables (Cache.get now "content" app.cache)

Shows-if :
    (t : Tables) (gone : Bool) → Shows t (if gone then none else some (content (payload_of t)))
Shows-if t true = tt
Shows-if t false = refl

pub Shows-set :
    (t : Tables) (old now : ℕ) (c : Cache.Cache Reply)
    → Shows t (Cache.get now "content" (Cache.set old "content" (content (payload_of t)) c))
Shows-set t old now c =
    subst (Shows t) (sym (get-set c old now "content" "content" (content (payload_of t))))
      (Shows-if t (ltb (old + c.ttl) now))

pub Shows-other :
    (t : Tables) (old now : ℕ) (key : String) (v : Reply) (c : Cache.Cache Reply)
    → key ≢ "content"
    → Shows t (Cache.get now "content" c)
    → Shows t (Cache.get now "content" (Cache.set old key v c))
Shows-other t old now key v c differs h =
    subst (Shows t) (sym (get-set c old now key "content" v ∙ ground (arith, eq_iff key "content")))
      h

pub Shows-evict :
    (t : Tables) (old now : ℕ) (c : Cache.Cache Reply)
    → Shows t (Cache.get now "content" c)
    → Shows t (Cache.get now "content" (Cache.evict old c))
Shows-evict t old now c h = elim (get-evict_cases old now "content" c) [
  | inl gone ↦ subst (Shows t) (sym gone) tt
  | inr same ↦ subst (Shows t) (sym same) h
]

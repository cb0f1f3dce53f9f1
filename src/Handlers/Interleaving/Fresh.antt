-- ===== src/Handlers/Interleaving/Fresh.antt =====
-- What the cache holds under "content", in every reachable state.
use nexlog_server.Base.{
  ℕ, if_both, ◌≡◌, sym, ◌∙◌, ap, subst, Bool, true, false, ◌||◌, List, [], ◌∷◌, inl, inr,
  Bool-cases, Option-cases, nat_eq, arith,
}
use nexlog_server.Cache
use nexlog_server.Cache.Laws.{get-flush}
use nexlog_server.Http.{Request}
use nexlog_server.Sql.{Db}
use nexlog_server.Repository.Tables.{Tables}
use nexlog_server.Handlers.{Packages, App, Payload, content, write_json}
use nexlog_server.Handlers.Public.{serve_content, store_reply}
use nexlog_server.Handlers.Public.Freshness.{
  payload_of, content_fresh, read_payload_lem, from_cache,
}
use nexlog_server.Handlers.Interleaving.{
  Part, unread, read_part, parts, Place, idle, stored, reading, is_stored, cross, System, put_place,
  with_db, Step, miss, read, fill, store, flush, evict, other, Reach, start, later,
}
use nexlog_server.Handlers.Interleaving.Shown.{
  read_rest, read_part-same, read_rest-parts, Shows, ShowsTables, Shows-set, Shows-other,
  Shows-evict,
}

-- The rest of the reads completes the payload of the tables, if no change has come between.
abbrev Uncrossed : Db Tables → Place → Type 0
Uncrossed db (reading p rest false) = read_rest rest p db ≡ payload_of db.tables
Uncrossed db _ = Unit

record Inv (s : System) : Type 0 where
  pub answers : s.app.db.outcomes ≡ []
  pub uncrossed : (i : ℕ) → Uncrossed s.app.db (s.place i)
  pub fresh : s.tainted ≡ false → ((i : ℕ) → is_stored (s.place i) ≡ false) → ShowsTables s.app

at_put {κ} :
    (P : Place → Type κ) (i : ℕ) (p : Place) (places : ℕ → Place)
    → P p
    → ((j : ℕ) → P (places j))
    → (j : ℕ) → P (put_place i p places j)
at_put P i p places new old j = if_both P (nat_eq i j) p (places j) new (old j)

quiet_before :
    (i : ℕ) (p : Place) (places : ℕ → Place)
    → is_stored (places i) ≡ false
    → ((j : ℕ) → is_stored (put_place i p places j) ≡ false)
    → (j : ℕ) → is_stored (places j) ≡ false
quiet_before i p places here quiet j = elim (Bool-cases (nat_eq i j)) [
  | inl same ↦ subst (λ k. is_stored (places k) ≡ false) (let e : i ≡ j = ground arith in e) here
  | inr other_one ↦ rw other_one at (quiet j)
]

stored_not_quiet :
    (i : ℕ) (places : ℕ → Place) → is_stored (put_place i stored places i) ≡ false → true ≡ false
stored_not_quiet i places quiet = ground arith

Uncrossed-read :
    (part : Part) (rest : List Part) (p : Payload) (crossed : Bool) (db : Db Tables)
    → db.outcomes ≡ []
    → Uncrossed db (reading p (part ∷ rest) crossed)
    → Uncrossed (read_part part p db).1 (reading (read_part part p db).0 rest crossed)
unfolding read_rest
Uncrossed-read part rest p true db fine h = tt
Uncrossed-read part rest p false db fine h =
    h ∙ ap (λ d. payload_of d.tables) (sym (read_part-same part p db fine))

Uncrossed-cross : (db : Db Tables) (p : Place) → Uncrossed db (cross p)
Uncrossed-cross db idle = tt
Uncrossed-cross db stored = tt
Uncrossed-cross db (reading p rest crossed) = tt

filled :
    (app : App) (now : ℕ) (p : Payload) (tainted crossed : Bool)
    → Uncrossed app.db (reading p [] crossed)
    → tainted || crossed ≡ false
    → ShowsTables (store_reply now "content" (content p) app)
unfolding read_rest
filled app now p true crossed h clean asked = cc
filled app now p false true h clean asked = cc
filled app now p false false h clean asked =
    subst
      (λ x.
        Shows app.db.tables
          (Cache.get asked "content" (Cache.set now "content" (content x) app.cache)))
      (sym h) (Shows-set app.db.tables now asked app.cache)

-- A request is answered with what the cache shows, or else with what the tables hold.
served :
    (pk : Packages) (r : Request) (app : App)
    → r.method ≡ "GET"
    → app.db.outcomes ≡ []
    → Shows app.db.tables (Cache.get (r.clock 3) "content" app.cache)
    → (serve_content pk r app).0 ≡ write_json pk 200 (content (payload_of app.db.tables))
unfolding serve_content
served pk r app get fine shows = elim (Option-cases (Cache.get (r.clock 3) "content" app.cache)) [
  | inl missing ↦ content_fresh pk r get app missing fine
  | inr (v, there) ↦ from_cache pk r app v get there ∙ ap (write_json pk 200) (rw there at shows)
]

-- Every step keeps the invariant.
Inv-Step : {s t : System} → Inv s → Step s t → Inv t
Inv-Step {s} h (miss i now free missing) = record {
  answers = h.answers;
  uncrossed =
      at_put (Uncrossed s.app.db) i (reading unread parts false) s.place
        (read_rest-parts s.app ∙ (read_payload_lem s.app h.answers).0) h.uncrossed;
  fresh = λ clean quiet. h.fresh clean (quiet_before i _ s.place (ap is_stored free) quiet);
}
Inv-Step {s} h (read i part rest p crossed here) =
    let same = read_part-same part p s.app.db h.answers in
    record {
      answers = ap (λ d. d.outcomes) same ∙ h.answers;
      uncrossed =
          at_put (Uncrossed (read_part part p s.app.db).1) i _ s.place
            (Uncrossed-read part rest p crossed s.app.db h.answers
              (subst (Uncrossed s.app.db) here (h.uncrossed i)))
            (subst (λ d. (j : ℕ) → Uncrossed d (s.place j)) (sym same) h.uncrossed);
      fresh = λ clean quiet.
          subst (λ d. ShowsTables (with_db d s.app)) (sym same)
            (h.fresh clean (quiet_before i _ s.place (ap is_stored here) quiet));
    }
Inv-Step {s} h (fill i now p crossed here) = record {
  answers = h.answers;
  uncrossed = at_put (Uncrossed s.app.db) i idle s.place tt h.uncrossed;
  fresh = λ clean quiet.
      filled s.app now p s.tainted crossed (subst (Uncrossed s.app.db) here (h.uncrossed i)) clean;
}
Inv-Step {s} h (store i change free ok fine) = record {
  answers = fine;
  uncrossed =
      at_put (Uncrossed (change s.app.db).1) i stored (λ j. cross (s.place j)) tt
        λ j. Uncrossed-cross (change s.app.db).1 (s.place j);
  fresh = λ clean quiet.
      let pending : true ≡ false = stored_not_quiet i (λ j. cross (s.place j)) (quiet i) in cc;
}
Inv-Step {s} h (flush i here) = record {
  answers = h.answers;
  uncrossed = at_put (Uncrossed s.app.db) i idle s.place tt h.uncrossed;
  fresh = λ clean quiet now.
      subst (Shows s.app.db.tables) (sym (get-flush s.app.cache now "content")) tt;
}
Inv-Step {s} h (evict old) = record {
  answers = h.answers;
  uncrossed = h.uncrossed;
  fresh =
      λ clean quiet now. Shows-evict s.app.db.tables old now s.app.cache (h.fresh clean quiet now);
}
Inv-Step {s} h (other old key v differs) = record {
  answers = h.answers;
  uncrossed = h.uncrossed;
  fresh = λ clean quiet now.
      Shows-other s.app.db.tables old now key v s.app.cache differs (h.fresh clean quiet now);
}

Inv-Reach : {app : App} {s : System} → app.db.outcomes ≡ [] → ShowsTables app → Reach app s → Inv s
Inv-Reach fine shows start = record {
  answers = fine;
  uncrossed = λ i. tt;
  fresh = λ clean quiet. shows;
}
Inv-Reach fine shows (later r step) = Inv-Step (Inv-Reach fine shows r) step

-- Any number of requests run at once from a state where the cache holds nothing stale, over a
-- database that answers. Where no change is stored and not yet flushed, and since the last flush no
-- payload was stored with a change between its reads and its Set, /api/content is answered from the
-- tables as they are.
pub content-Reach :
    (pk : Packages) (r : Request) (app : App) (s : System)
    → r.method ≡ "GET"
    → app.db.outcomes ≡ []
    → ShowsTables app
    → Reach app s
    → ((i : ℕ) → is_stored (s.place i) ≡ false)
    → s.tainted ≡ false
    → (serve_content pk r s.app).0 ≡ write_json pk 200 (content (payload_of s.app.db.tables))
content-Reach pk r app s get fine shows reach quiet clean =
    let inv = Inv-Reach fine shows reach in
    served pk r s.app get inv.answers (inv.fresh clean quiet (r.clock 3))

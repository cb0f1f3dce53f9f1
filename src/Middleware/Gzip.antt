-- ===== src/Middleware/Gzip.antt =====
-- internal/middleware/security.go: Gzip. compress/gzip is a parameter: a writer's call returns
-- the texts that it writes to the ResponseWriter below.
pub mod Laws
use nexlog_server.Base.{
  String, Bool, not, List, [], ◌∷◌, ◌++◌, Option, none, some, map, if◌then◌else◌,
}
use nexlog_server.Http.{Action, Handler, set_header, del_header, write_header, write, get_header}
use nexlog_server.Text.{contains}

pub record GzipLib : Type 1 where
  pub State : Type 0
  -- gzip.NewWriterLevel(w, gzip.BestSpeed), none for an error
  pub new_writer_level : Option State
  pub write_to : String → State → List String × State
  pub close : State → List String
  -- what a client reads from the compressed text
  pub decode : String → String

module _ (g : GzipLib) where
  -- The calls of the wrapped handler, its Write sent through the compressor, and the deferred Close.
  unfoldable pub through : g.State → List Action → List Action
  through st [] = map write (g.close st)
  through st (set_header k v ∷ l) = set_header k v ∷ through st l
  through st (del_header k ∷ l) = del_header k ∷ through st l
  through st (write_header c ∷ l) = write_header c ∷ through st l
  through st (write b ∷ l) = let (out, st') = g.write_to b st in map write out ++ through st' l

  abbrev pub compressed : Option g.State → List Action → List Action
  compressed none l = l
  compressed (some st) l =
      set_header "Content-Encoding" "gzip" ∷ del_header "Content-Length" ∷ through st l

  module _ {ℓ} {W : Type ℓ} where
    unfoldable pub gzip : Handler W → Handler W
    unfolding contains through
    gzip next r w =
        let (l, w') = next r w in
        if not (contains (get_header "Accept-Encoding" r.header) "gzip")
        then (l, w')
        else (compressed g.new_writer_level l, w')

-- ===== src/Middleware/Gzip/Laws.antt =====
-- Compression is transparent: the status is the same, and a client decodes the body that the
-- handler wrote.
use nexlog_server.Base.{
  String, ◌≡◌, refl, sym, ◌∙◌, ap, true, false, List, [], ◌∷◌, ◌++◌, some, map, inl, inr,
  Bool-cases,
}
use nexlog_server.Http.{
  Action, Handler, Request, set_header, del_header, write_header, write, respond, body_allowed,
  get_header,
}
use nexlog_server.Http.Laws.{
  first_status, header_from, written, concat, status-respond, body-respond,
}
use nexlog_server.Http.Untouched.{Leaves, Leaves-append, header_from-Leaves}
use nexlog_server.Text.{contains}
use nexlog_server.Middleware.Gzip.{GzipLib, through, compressed, gzip}

module _ (g : GzipLib) where
  -- What the compressor writes for the given texts, Close included.
  unfoldable pub stream : g.State → List String → List String
  stream st [] = g.close st
  stream st (b ∷ bs) = let (out, st') = g.write_to b st in out ++ stream st' bs

  -- Documented of compress/gzip: the stream decodes to what was written, and the first Write
  -- writes the gzip header at once.
  pub record IsGzip : Type 0 where
    pub start : g.State
    pub opens : g.new_writer_level ≡ some start
    pub decodes : (bs : List String) → g.decode (concat (stream start bs)) ≡ concat bs
    pub at_once :
        (b : String)
        → (first : String) × (rest : List String) × ((g.write_to b start).0 ≡ first ∷ rest)

  written-append : (xs ys : List Action) → written (xs ++ ys) ≡ written xs ++ written ys
  unfolding written
  written-append [] ys = refl
  written-append (set_header k v ∷ l) ys = written-append l ys
  written-append (del_header k ∷ l) ys = written-append l ys
  written-append (write_header c ∷ l) ys = written-append l ys
  written-append (write b ∷ l) ys = ap (λ t. b ∷ t) (written-append l ys)

  written-map : (bs : List String) → written (map write bs) ≡ bs
  unfolding written
  written-map [] = refl
  written-map (b ∷ bs) = ap (λ t. b ∷ t) (written-map bs)

  written-through :
      (st : g.State) (l : List Action) → written (through g st l) ≡ stream st (written l)
  unfolding written through stream
  written-through st [] = written-map (g.close st)
  written-through st (set_header k v ∷ l) = written-through st l
  written-through st (del_header k ∷ l) = written-through st l
  written-through st (write_header c ∷ l) = written-through st l
  written-through st (write b ∷ l) =
      written-append (map write (g.write_to b st).0) (through g (g.write_to b st).1 l)
      ∙ (ap (λ t. t ++ written (through g (g.write_to b st).1 l)) (written-map (g.write_to b st).0)
          ∙ ap (λ t. (g.write_to b st).0 ++ t) (written-through (g.write_to b st).1 l))

  module _ (ok : IsGzip) where
    status-map : (bs : List String) → first_status (map write bs) ≡ 200
    unfolding first_status
    status-map [] = refl
    status-map (b ∷ bs) = refl

    status-through : (l : List Action) → first_status (through g ok.start l) ≡ first_status l
    unfolding through first_status
    status-through [] = status-map (g.close ok.start)
    status-through (set_header k v ∷ l) = status-through l
    status-through (del_header k ∷ l) = status-through l
    status-through (write_header c ∷ l) = refl
    status-through (write b ∷ l) = let (first, rest, e) = ok.at_once b in rw e refl

    abbrev zipped : List Action → List Action
    zipped l =
        set_header "Content-Encoding" "gzip" ∷ del_header "Content-Length" ∷ through g ok.start l

    status-zipped : (l : List Action) → (respond (zipped l)).status ≡ (respond l).status
    unfolding first_status
    status-zipped l = status-respond (zipped l) ∙ (status-through l ∙ sym (status-respond l))

    Leaves-map : (k : String) (bs : List String) → Leaves k (map write bs)
    Leaves-map k [] = tt
    Leaves-map k (b ∷ bs) = Leaves-map k bs

    Leaves-through :
        (k : String) (st : g.State) (l : List Action) → Leaves k l → Leaves k (through g st l)
    unfolding through
    Leaves-through k st [] h = Leaves-map k (g.close st)
    Leaves-through k st (set_header j v ∷ l) (other, h) = (other, Leaves-through k st l h)
    Leaves-through k st (del_header j ∷ l) (other, h) = (other, Leaves-through k st l h)
    Leaves-through k st (write_header c ∷ l) h = Leaves-through k st l h
    Leaves-through k st (write b ∷ l) h =
        Leaves-append k (map write (g.write_to b st).0) _ (Leaves-map k (g.write_to b st).0)
          (Leaves-through k (g.write_to b st).1 l h)

    body-zipped :
        (l : List Action)
        → Leaves "Content-Length" l
        → body_allowed (respond l).status ≡ true
        → g.decode (respond (zipped l)).body ≡ (respond l).body
    unfolding first_status written header_from
    body-zipped l unset has_body =
        let allowed : body_allowed (first_status l) ≡ true = rw (status-respond l) at has_body in
        let zipped_allowed : body_allowed (first_status (zipped l)) ≡ true =
          rw (status-through l) allowed in
        ap g.decode (
          body-respond (zipped l) zipped_allowed (
            header_from-Leaves "Content-Length" _ (through g ok.start l)
              (Leaves-through "Content-Length" ok.start l unset)))
        ∙ (ap (λ t. g.decode (concat t)) (written-through ok.start l)
            ∙ (ok.decodes (written l)
                ∙ sym (body-respond l allowed (header_from-Leaves "Content-Length" _ l unset))))

    module _ {ℓ} {W : Type ℓ} (next : Handler W) (r : Request) (w : W) where
      gzip-plain :
          contains (get_header "Accept-Encoding" r.header) "gzip" ≡ false
          → gzip g next r w ≡ next r w
      unfolding gzip
      gzip-plain plain = rw (plain, gzip) refl

      gzip-zipped :
          contains (get_header "Accept-Encoding" r.header) "gzip" ≡ true
          → gzip g next r w ≡ (zipped (next r w).0, (next r w).1)
      unfolding gzip
      gzip-zipped accepts =
          rw (accepts, gzip) (ap (λ s. (compressed g s (next r w).0, (next r w).1)) ok.opens)

      -- The status of the response is that of the wrapped handler, and the state is its state,
      -- whether the client accepts gzip or not.
      pub status-gzip :
          ((respond (gzip g next r w).0).status ≡ (respond (next r w).0).status)
          × ((gzip g next r w).1 ≡ (next r w).1)
      status-gzip = elim (Bool-cases (contains (get_header "Accept-Encoding" r.header) "gzip")) [
        | inl accepts ↦ rw (gzip-zipped accepts) (status-zipped (next r w).0, refl)
        | inr plain ↦ rw (gzip-plain plain) (refl, refl)
      ]

      -- For a client that accepts gzip, a status that has a body, and a handler that sets no
      -- Content-Length of its own, the body of the response decodes to the body that the handler
      -- wrote.
      pub body-gzip :
          contains (get_header "Accept-Encoding" r.header) "gzip" ≡ true
          → body_allowed (respond (next r w).0).status ≡ true
          → Leaves "Content-Length" (next r w).0
          → g.decode (respond (gzip g next r w).0).body ≡ (respond (next r w).0).body
      body-gzip accepts has_body unset =
          rw (gzip-zipped accepts) (body-zipped (next r w).0 unset has_body)

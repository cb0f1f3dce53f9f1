-- ===== src/Service/Seed/Sound.antt =====
-- What the statements of the seed make of well-formed tables.
use nexlog_server.Base.{
  some_injective, String, ◌≡◌, refl, sym, ◌∙◌, ap, List, [], ◌∷◌, map, Option, some, subst, arith,
  All, All-append,
}
use nexlog_server.Json.{Codec}
use nexlog_server.Repository.Models.{Site, HeroSlide, Stat, About, Contact}
use nexlog_server.Repository.Tables.{Tables, Ordered, add_row}
use nexlog_server.Repository.Writes.{insert_language, insert_hero_slide, insert_stat}
use nexlog_server.Repository.Writes.Atomic.{numbered}
use nexlog_server.Repository.WellFormed.{
  IsNumbered, WellFormed, WellFormed-insert_language, WellFormed-same,
}
use nexlog_server.Service.Languages.{Texts}
use nexlog_server.Service.Seed.{
  Generate, statements, row_of, insert_site, insert_password, insert_about, insert_contact,
  insert_side_panel, panel,
}
use nexlog_server.Service.Seed.Atomic.{all_made}
use nexlog_server.Service.Seed.Ready.{KeepsAll, KeepsAll-all_made, all_made-cons}

-- Well formed but for the slides and the stats, which are those given.
record Filled (slides : List (Ordered HeroSlide)) (stats : List (Ordered Stat)) (t : Tables)
    : Type 0 where
  pub rest : WellFormed (record t { hero_slides = []; stats = [] })
  pub slides_are : t.hero_slides ≡ slides
  pub stats_are : t.stats ≡ stats

-- A statement that touches none of the six tables.
abbrev Leaves : (Tables → Option Tables) → Type 0
Leaves stmt =
    (t u : Tables)
    → stmt t ≡ some u
    → (u.languages ≡ t.languages)
      × (u.hero_slides ≡ t.hero_slides)
      × (u.stats ≡ t.stats)
      × (u.services ≡ t.services)
      × (u.news ≡ t.news)
      × (u.partners ≡ t.partners)

WellFormed-Leaves : (stmt : Tables → Option Tables) → Leaves stmt → KeepsAll WellFormed stmt
WellFormed-Leaves stmt leaves t u made w =
    let (a, b, c, d, e, f) = leaves t u made in WellFormed-same t u w a b c d e f

Leaves-insert_site : (s : Site) → Leaves (insert_site s)
Leaves-insert_site s t u made = ground arith

Leaves-insert_password : (hash : String) → Leaves (insert_password hash)
Leaves-insert_password hash t u made = ground arith

Leaves-insert_about : (a : About) → Leaves (insert_about a)
Leaves-insert_about a t u made = ground arith

Leaves-insert_contact : (c : Contact) → Leaves (insert_contact c)
Leaves-insert_contact c t u made = ground arith

Leaves-insert_side_panel :
    (codec : Codec) (config : String) → Leaves (insert_side_panel codec config)
Leaves-insert_side_panel codec config t u made = ground arith

module _ (slides : List (Ordered HeroSlide)) (stats : List (Ordered Stat)) where
  Filled-Leaves :
      (stmt : Tables → Option Tables) → Leaves stmt → KeepsAll (Filled slides stats) stmt
  Filled-Leaves stmt leaves t u made h =
      let (a, b, c, d, e, f) = leaves t u made in
      record {
        rest =
            WellFormed-same (record t { hero_slides = []; stats = [] }) _ h.rest a refl refl d e f;
        slides_are = b ∙ h.slides_are;
        stats_are = c ∙ h.stats_are;
      }

  Filled-slide :
      (i : _) (s : HeroSlide) (t u : Tables)
      → insert_hero_slide i s t ≡ some u
      → Filled slides stats t
      → Filled (add_row i s slides) stats u
  Filled-slide i s t u made h =
      subst (Filled (add_row i s slides) stats) (some_injective _ u made) (record {
        rest = h.rest;
        slides_are = ap (add_row i s) h.slides_are;
        stats_are = h.stats_are;
      })

  Filled-stat :
      (i : _) (s : Stat) (t u : Tables)
      → insert_stat i s t ≡ some u
      → Filled slides stats t
      → Filled slides (add_row i s stats) u
  Filled-stat i s t u made h =
      subst (Filled slides (add_row i s stats)) (some_injective _ u made) (record {
        rest = h.rest;
        slides_are = h.slides_are;
        stats_are = ap (add_row i s) h.stats_are;
      })

  WellFormed-Filled :
      (t : Tables)
      → slides ≡ numbered 0 (map (λ r. r.row) slides)
      → stats ≡ numbered 0 (map (λ r. r.row) stats)
      → Filled slides stats t
      → WellFormed t
  WellFormed-Filled t in_order counted h = record {
    codes = h.rest.codes;
    slides = subst IsNumbered (sym h.slides_are) (_, in_order);
    stats = subst IsNumbered (sym h.stats_are) (_, counted);
    services = h.rest.services;
    news = h.rest.news;
    partners = h.rest.partners;
  }

Filled-empty : (t : Tables) → WellFormed t → t.hero_slides ≡ [] → t.stats ≡ [] → Filled [] [] t
unfolding numbered
Filled-empty t w no_slides no_stats = record {
  rest = record {
    codes = w.codes;
    slides = ([], refl);
    stats = ([], refl);
    services = w.services;
    news = w.news;
    partners = w.partners;
  };
  slides_are = no_slides;
  stats_are = no_stats;
}

module _ (codec : Codec) (generate : Generate) (langs : List (String × Texts)) where
  KeepsAll-languages :
      (langs : List (String × Texts))
      → All (KeepsAll WellFormed) (map (λ l. insert_language codec (row_of codec l.0 l.1)) langs)
  KeepsAll-languages [] = tt
  KeepsAll-languages ((code, lang) ∷ langs) =
      (WellFormed-insert_language codec (row_of codec code lang), KeepsAll-languages langs)

  -- The statements of the seed.
  pub WellFormed-statements :
      (t t' : Tables)
      → WellFormed t
      → t.hero_slides ≡ []
      → t.stats ≡ []
      → all_made (statements codec generate langs) (some t) ≡ some t'
      → WellFormed t'
  unfolding statements numbered
  WellFormed-statements t t' w no_slides no_stats h0 =
      let f0 = Filled-empty t w no_slides no_stats in
      let (t1, m1, h1) = all_made-cons _ _ t t' h0 in
      let f1 = Filled-Leaves _ _ _ (Leaves-insert_site _) t t1 m1 f0 in
      let (t2, m2, h2) = all_made-cons _ _ t1 t' h1 in
      let f2 = Filled-Leaves _ _ _ (Leaves-insert_password _) t1 t2 m2 f1 in
      let (t3, m3, h3) = all_made-cons _ _ t2 t' h2 in
      let f3 = Filled-slide _ _ _ _ t2 t3 m3 f2 in
      let (t4, m4, h4) = all_made-cons _ _ t3 t' h3 in
      let f4 = Filled-stat _ _ _ _ t3 t4 m4 f3 in
      let (t5, m5, h5) = all_made-cons _ _ t4 t' h4 in
      let f5 = Filled-stat _ _ _ _ t4 t5 m5 f4 in
      let (t6, m6, h6) = all_made-cons _ _ t5 t' h5 in
      let f6 = Filled-stat _ _ _ _ t5 t6 m6 f5 in
      let (t7, m7, h7) = all_made-cons _ _ t6 t' h6 in
      let f7 = Filled-stat _ _ _ _ t6 t7 m7 f6 in
      let (t8, m8, h8) = all_made-cons _ _ t7 t' h7 in
      let f8 = Filled-stat _ _ _ _ t7 t8 m8 f7 in
      let (t9, m9, h9) = all_made-cons _ _ t8 t' h8 in
      let f9 = Filled-Leaves _ _ _ (Leaves-insert_about _) t8 t9 m9 f8 in
      let (t10, m10, h10) = all_made-cons _ _ t9 t' h9 in
      let f10 = Filled-Leaves _ _ _ (Leaves-insert_contact _) t9 t10 m10 f9 in
      let panel_keeps : All (KeepsAll WellFormed)
          (insert_side_panel codec (codec.marshal (some panel)) ∷ []) =
        (WellFormed-Leaves _ (Leaves-insert_side_panel codec _), tt) in
      KeepsAll-all_made WellFormed _ t10 t'
        (All-append (KeepsAll WellFormed) _ _ (KeepsAll-languages langs) panel_keeps) h10
        (WellFormed-Filled _ _ t10 refl refl f10)
